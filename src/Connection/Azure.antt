-- ===== src/Connection/Azure.antt =====
-- `AzureMSSQLForm`.
pub mod Valid
mod Tests
use dataops_testgen.Base.{
  Bool, true, false, not, ◌||◌, List, [], ◌∷◌, String, if◌then◌else◌, bool_ne,
}
use dataops_testgen.Base.Text.{Text, text_eq}
use dataops_testgen.Validators.{required_if, min_length, max_length}
use dataops_testgen.Inputs.{Field, Form, input, fixed_input, change_to, open_form}
use dataops_testgen.Connection.{Connection, default_port, text_or_else, url_value}

pub record AzureState : Type 0 where
  pub by_url : Bool
  pub with_identity : Bool
  pub host : Text
  pub port : Text
  pub database : Text
  pub username : Text
  pub password : Text
  pub url : Text
  pub dynamic_url : Text

unfoldable pub azure_fields : List (Field AzureState)
azure_fields =
    fixed_input "db_host" (λ s. s.host) (λ s. max_length 250 ∷ required_if (not s.by_url) ∷ [])
    ∷ fixed_input "db_port" (λ s. s.port)
        (λ s. min_length 3 ∷ max_length 5 ∷ required_if (not s.by_url) ∷ [])
    ∷ fixed_input "db_name" (λ s. s.database)
        (λ s. max_length 100 ∷ required_if (not s.by_url) ∷ [])
    ∷ input "url_suffix" (λ s. true)
        (λ old new. bool_ne old.by_url new.by_url || not (text_eq old.dynamic_url new.dynamic_url))
        (λ s. s.url) (λ s. required_if s.by_url ∷ [])
    ∷ input "db_user" (λ s. not s.with_identity) (λ old new. false) (λ s. s.username)
        (λ s. required_if (not s.with_identity) ∷ max_length 50 ∷ [])
    ∷ input "password" (λ s. not s.with_identity) (λ old new. false) (λ s. s.password) (λ s. [])
    ∷ []

pub data AzureEvent : Type 0 where
  pick_by_url : Bool → AzureEvent
  pick_identity : Bool → AzureEvent
  edit_host : Text → AzureEvent
  edit_port : Text → AzureEvent
  edit_database : Text → AzureEvent
  edit_username : Text → AzureEvent
  edit_password : Text → AzureEvent
  edit_url : Text → AzureEvent
  send_url : Text → AzureEvent

-- The inputs for the user and the password are there only without `with_identity`.
unfoldable pub azure_after : AzureEvent → AzureState → AzureState
azure_after (pick_by_url b) s = record s { by_url = b }
azure_after (pick_identity b) s = record s { with_identity = b }
azure_after (edit_host t) s = record s { host = t }
azure_after (edit_port t) s = record s { port = t }
azure_after (edit_database t) s = record s { database = t }
azure_after (edit_username t) s = record s { username = if s.with_identity then s.username else t }
azure_after (edit_password t) s = record s { password = if s.with_identity then s.password else t }
azure_after (edit_url t) s = record s { url = t }
azure_after (send_url t) s = record s {
  dynamic_url = t;
  url = if s.by_url then s.url else url_value t;
}

unfoldable pub azure_start : Connection → String → Text → AzureState
azure_start c flavor dynamic_url = record {
  by_url = c.connect_by_url;
  with_identity = c.connect_with_identity;
  host = c.project_host;
  port = text_or_else c.project_port (default_port flavor);
  database = c.project_db;
  username = c.project_user;
  password = c.project_pw_encrypted;
  url = if c.connect_by_url then c.url else url_value dynamic_url;
  dynamic_url = dynamic_url;
}

unfoldable pub azure_open : AzureState → Form AzureState
azure_open s = open_form azure_fields true s

unfoldable pub azure_event : AzureEvent → Form AzureState → Form AzureState
azure_event e form = change_to azure_fields (azure_after e form.state) form

unfoldable pub azure_payload : AzureState → Connection → Connection
azure_payload s c = record c {
  project_host = s.host;
  project_port = s.port;
  project_db = s.database;
  project_user = s.username;
  project_pw_encrypted = s.password;
  connect_by_url = s.by_url;
  url = s.url;
  connect_by_key = false;
  connect_with_identity = s.with_identity;
}
