-- ===== src/Connection/Host.antt =====
-- `RedshiftForm`, which is also the form of PostgreSQL, Oracle, SAP HANA, Synapse and SQL Server. (The one
-- of Redshift Spectrum is called without the URL that the server sends, which makes it another one.)
pub mod Valid
use dataops_testgen.Base.{
  bool_ne, ℕ, Bool, true, false, not, ◌||◌, Option, none, some, List, [], ◌∷◌, String,
  if◌then◌else◌,
}
use dataops_testgen.Base.Text.{Text, text_eq}
use dataops_testgen.Validators.{required, required_if, min_length, max_length}
use dataops_testgen.Inputs.{Field, Form, input, fixed_input, change_to, open_form}
use dataops_testgen.Connection.{Connection, default_port, text_or_else, url_value}

pub record HostState : Type 0 where
  pub by_url : Bool
  pub host : Text
  pub port : Text
  pub database : Text
  pub username : Text
  pub password : Text
  pub url : Text
  -- `dynamicConnectionUrl`, which the server sends
  pub dynamic_url : Text

-- The field for the URL stands in a function that reads these two states.
abbrev pub url_rebuilt : HostState → HostState → Bool
url_rebuilt old new = bool_ne old.by_url new.by_url || not (text_eq old.dynamic_url new.dynamic_url)

unfoldable pub host_fields : List (Field HostState)
host_fields =
    fixed_input "db_host" (λ s. s.host) (λ s. max_length 250 ∷ required_if (not s.by_url) ∷ [])
    ∷ fixed_input "db_port" (λ s. s.port)
        (λ s. min_length 3 ∷ max_length 5 ∷ required_if (not s.by_url) ∷ [])
    ∷ fixed_input "db_name" (λ s. s.database)
        (λ s. max_length 100 ∷ required_if (not s.by_url) ∷ [])
    ∷ input "url_suffix" (λ s. true) url_rebuilt (λ s. s.url) (λ s. required_if s.by_url ∷ [])
    ∷ fixed_input "db_user" (λ s. s.username) (λ s. required ∷ max_length 50 ∷ [])
    ∷ fixed_input "password" (λ s. s.password) (λ s. [])
    ∷ []

-- What the user or the server changes.
pub data HostEvent : Type 0 where
  pick_by_url : Bool → HostEvent
  edit_host : Text → HostEvent
  edit_port : Text → HostEvent
  edit_database : Text → HostEvent
  edit_username : Text → HostEvent
  edit_password : Text → HostEvent
  edit_url : Text → HostEvent
  send_url : Text → HostEvent

unfoldable pub host_after : HostEvent → HostState → HostState
host_after (pick_by_url b) s = record s { by_url = b }
host_after (edit_host t) s = record s { host = t }
host_after (edit_port t) s = record s { port = t }
host_after (edit_database t) s = record s { database = t }
host_after (edit_username t) s = record s { username = t }
host_after (edit_password t) s = record s { password = t }
host_after (edit_url t) s = record s { url = t }
host_after (send_url t) s = record s {
  dynamic_url = t;
  url = if s.by_url then s.url else url_value t;
}

unfoldable pub host_start : Connection → String → Text → HostState
host_start c flavor dynamic_url = record {
  by_url = c.connect_by_url;
  host = c.project_host;
  port = text_or_else c.project_port (default_port flavor);
  database = c.project_db;
  username = c.project_user;
  password = c.project_pw_encrypted;
  url = if c.connect_by_url then c.url else url_value dynamic_url;
  dynamic_url = dynamic_url;
}

unfoldable pub host_open : HostState → Form HostState
host_open s = open_form host_fields true s

unfoldable pub host_event : HostEvent → Form HostState → Form HostState
host_event e form = change_to host_fields (host_after e form.state) form

-- What `onChange` is called with, merged into the connection.
unfoldable pub host_payload : HostState → Connection → Connection
host_payload s c = record c {
  project_host = s.host;
  project_port = s.port;
  project_db = s.database;
  project_user = s.username;
  project_pw_encrypted = s.password;
  connect_by_url = s.by_url;
  url = s.url;
  connect_by_key = false;
}
