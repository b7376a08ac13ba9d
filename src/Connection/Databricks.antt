-- ===== src/Connection/Databricks.antt =====
-- `DatabricksForm`.
pub mod Valid
pub mod Stuck
mod Tests
use dataops_testgen.Base.{
  Bool, true, false, not, ◌||◌, Option, none, some, List, [], ◌∷◌, String, if◌then◌else◌, bool_ne,
}
use dataops_testgen.Base.Text.{Text, codes, text_eq}
use dataops_testgen.Validators.{required, required_if, min_length, max_length}
use dataops_testgen.Inputs.{Field, Form, input, fixed_input, change_to, open_form, put_entry, every}
use dataops_testgen.Connection.{Connection, default_port, text_or_else, url_value}

pub record DatabricksState : Type 0 where
  pub by_url : Bool
  pub use_oauth : Bool
  pub host : Text
  pub port : Text
  pub http_path : Text
  pub catalog : Text
  pub username : Text
  pub password : Text
  pub url : Text
  pub dynamic_url : Text
  -- whether the connection was saved without a password, or not at all
  pub secret_missing : Bool

unfoldable pub databricks_fields : List (Field DatabricksState)
databricks_fields =
    fixed_input "db_host" (λ s. s.host) (λ s. required_if (not s.by_url) ∷ max_length 250 ∷ [])
    ∷ fixed_input "db_port" (λ s. s.port)
        (λ s. required_if (not s.by_url) ∷ min_length 3 ∷ max_length 5 ∷ [])
    ∷ fixed_input "http_path" (λ s. s.http_path)
        (λ s. required_if (not s.by_url) ∷ max_length 200 ∷ [])
    ∷ fixed_input "db_name" (λ s. s.catalog) (λ s. required_if (not s.by_url) ∷ max_length 100 ∷ [])
    ∷ input "url_suffix" (λ s. true)
        (λ old new. bool_ne old.by_url new.by_url || not (text_eq old.dynamic_url new.dynamic_url))
        (λ s. s.url) (λ s. required_if s.by_url ∷ [])
    ∷ input "db_user" (λ s. s.use_oauth) (λ old new. bool_ne old.use_oauth new.use_oauth)
        (λ s. s.username) (λ s. required ∷ max_length 100 ∷ [])
    ∷ input "password" (λ s. true) (λ old new. bool_ne old.use_oauth new.use_oauth)
        (λ s. s.password) (λ s. required_if s.secret_missing ∷ [])
    ∷ []

pub data DatabricksEvent : Type 0 where
  pick_by_url : Bool → DatabricksEvent
  pick_oauth : Bool → DatabricksEvent
  edit_host : Text → DatabricksEvent
  edit_port : Text → DatabricksEvent
  edit_http_path : Text → DatabricksEvent
  edit_catalog : Text → DatabricksEvent
  edit_username : Text → DatabricksEvent
  edit_password : Text → DatabricksEvent
  edit_url : Text → DatabricksEvent
  send_url : Text → DatabricksEvent

-- The choice of the URL is there only without `use_oauth`, and the input for the user only with it.
unfoldable pub databricks_after : DatabricksEvent → DatabricksState → DatabricksState
databricks_after (pick_by_url b) s = record s { by_url = if s.use_oauth then s.by_url else b }
databricks_after (pick_oauth v) s = record s {
  use_oauth = v;
  password = [];
  by_url = if v then false else s.by_url;
}
databricks_after (edit_host t) s = record s { host = t }
databricks_after (edit_port t) s = record s { port = t }
databricks_after (edit_http_path t) s = record s { http_path = t }
databricks_after (edit_catalog t) s = record s { catalog = t }
databricks_after (edit_username t) s = record s { username = if s.use_oauth then t else s.username }
databricks_after (edit_password t) s = record s { password = t }
databricks_after (edit_url t) s = record s { url = t }
databricks_after (send_url t) s = record s {
  dynamic_url = t;
  url = if s.by_url then s.url else url_value t;
}

-- The entries that the handler of the authentication method deletes.
abbrev pub forget : Bool → (String → Option Bool) → String → Option Bool
forget true m = put_entry (put_entry m "password" none) "db_user" none
forget false m = put_entry m "password" none

-- A radio button calls its handler only for another choice than the present one.
unfoldable pub databricks_event : DatabricksEvent → Form DatabricksState → Form DatabricksState
databricks_event (pick_oauth v) form =
    if bool_ne form.state.use_oauth v
    then change_to databricks_fields (databricks_after (pick_oauth v) form.state) (record form {
      validity = forget v form.validity;
      is_valid = every databricks_fields (forget v form.validity);
    })
    else form
databricks_event e form = change_to databricks_fields (databricks_after e form.state) form

unfoldable pub databricks_start : Connection → String → Text → Bool → DatabricksState
databricks_start c flavor dynamic_url secret_missing = record {
  by_url = c.connect_by_url;
  use_oauth = c.connect_by_key;
  host = c.project_host;
  port = text_or_else c.project_port (default_port flavor);
  http_path = c.http_path;
  catalog = c.project_db;
  username = c.project_user;
  password = c.project_pw_encrypted;
  url = if c.connect_by_url then c.url else url_value dynamic_url;
  dynamic_url = dynamic_url;
  secret_missing = secret_missing;
}

unfoldable pub databricks_open : DatabricksState → Form DatabricksState
databricks_open s = open_form databricks_fields true s

unfoldable pub databricks_payload : DatabricksState → Connection → Connection
databricks_payload s c = record c {
  project_host = s.host;
  project_port = s.port;
  project_db = s.catalog;
  project_user = if s.use_oauth then s.username else codes "token";
  project_pw_encrypted = s.password;
  http_path = s.http_path;
  connect_by_url = s.by_url;
  url = s.url;
  connect_by_key = s.use_oauth;
}
