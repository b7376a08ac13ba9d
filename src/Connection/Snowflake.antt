-- ===== src/Connection/Snowflake.antt =====
-- `SnowflakeForm`.
pub mod Valid
pub mod Stuck
mod Tests
use dataops_testgen.Base.{
  ℕ, ◌*◌, Bool, true, false, not, ◌&&◌, ◌||◌, ◌==◌, Option, none, some, List, [], ◌∷◌, String,
  if◌then◌else◌, bool_ne,
}
use dataops_testgen.Base.Text.{Text, codes, text_eq, is_empty, split_by}
use dataops_testgen.Validators.{
  required, required_if, min_length, max_length, size_limit, required_error,
}
use dataops_testgen.Inputs.{Field, Form, input, fixed_input, change_to, open_form}
use dataops_testgen.Connection.Files.{FileValue, file_errors, file_ne, file_data}
use dataops_testgen.Connection.{Connection, default_port, text_or_else, url_value}

-- `FileValue`: `content` is a data URL.
pub record SnowflakeState : Type 0 where
  pub by_url : Bool
  pub by_key : Bool
  pub host : Text
  pub port : Text
  pub database : Text
  pub warehouse : Text
  pub username : Text
  pub password : Text
  pub private_key : Text
  pub passphrase : Text
  pub clear_passphrase : Bool
  pub url : Text
  pub dynamic_url : Text
  pub file : Option FileValue
  -- whether the connection was saved without a private key, or not at all
  pub key_missing : Bool
  -- whether it was saved with a passphrase
  pub passphrase_saved : Bool

-- The markup for a key pair reads the file and, unless one was saved, the passphrase.
abbrev pub key_rebuilt : SnowflakeState → SnowflakeState → Bool
key_rebuilt old new =
    file_ne old.file new.file
    || (not new.passphrase_saved && not (text_eq old.passphrase new.passphrase))

unfoldable pub snowflake_fields : List (Field SnowflakeState)
snowflake_fields =
    fixed_input "db_host" (λ s. s.host) (λ s. required_if (not s.by_url) ∷ max_length 250 ∷ [])
    ∷ fixed_input "db_port" (λ s. s.port)
        (λ s. required_if (not s.by_url) ∷ min_length 3 ∷ max_length 5 ∷ [])
    ∷ fixed_input "db_name" (λ s. s.database)
        (λ s. required_if (not s.by_url) ∷ max_length 100 ∷ [])
    ∷ fixed_input "warehouse" (λ s. s.warehouse) (λ s. max_length 100 ∷ [])
    ∷ input "url_suffix" (λ s. true)
        (λ old new. bool_ne old.by_url new.by_url || not (text_eq old.dynamic_url new.dynamic_url))
        (λ s. s.url) (λ s. required_if s.by_url ∷ [])
    ∷ fixed_input "db_user" (λ s. s.username) (λ s. required ∷ max_length 50 ∷ [])
    ∷ input "private_key_passphrase" (λ s. s.by_key) key_rebuilt (λ s. s.passphrase) (λ s. [])
    ∷ record {
      name = "private_key";
      shown = λ s. s.by_key;
      rebuilt = key_rebuilt;
      changed = λ old new. file_ne old.file new.file;
      errors = λ s. file_errors (200 * 1024 * 1024) s.key_missing s.file;
    }
    ∷ input "password" (λ s. not s.by_key) (λ old new. false) (λ s. s.password) (λ s. [])
    ∷ []

-- The private key after a change of the file.
abbrev pub key_of : Option FileValue → Text → Text
key_of none key = key
key_of (some f) key = if is_empty f.content then key else file_data f

pub data SnowflakeEvent : Type 0 where
  pick_by_url : Bool → SnowflakeEvent
  pick_by_key : Bool → SnowflakeEvent
  edit_host : Text → SnowflakeEvent
  edit_port : Text → SnowflakeEvent
  edit_database : Text → SnowflakeEvent
  edit_warehouse : Text → SnowflakeEvent
  edit_username : Text → SnowflakeEvent
  edit_password : Text → SnowflakeEvent
  edit_passphrase : Text → SnowflakeEvent
  clear : SnowflakeEvent
  edit_file : Option FileValue → SnowflakeEvent
  edit_url : Text → SnowflakeEvent
  send_url : Text → SnowflakeEvent

unfoldable pub snowflake_after : SnowflakeEvent → SnowflakeState → SnowflakeState
snowflake_after (pick_by_url b) s = record s { by_url = b }
snowflake_after (pick_by_key b) s = record s { by_key = b }
snowflake_after (edit_host t) s = record s { host = t }
snowflake_after (edit_port t) s = record s { port = t }
snowflake_after (edit_database t) s = record s { database = t }
snowflake_after (edit_warehouse t) s = record s { warehouse = t }
snowflake_after (edit_username t) s = record s { username = t }
snowflake_after (edit_password t) s = record s { password = t }
snowflake_after (edit_passphrase t) s = record s {
  passphrase = t;
  clear_passphrase = if is_empty t then s.clear_passphrase else false;
}
snowflake_after clear s = record s { passphrase = []; clear_passphrase = true }
snowflake_after (edit_file f) s = record s { file = f; private_key = key_of f s.private_key }
snowflake_after (edit_url t) s = record s { url = t }
snowflake_after (send_url t) s = record s {
  dynamic_url = t;
  url = if s.by_url then s.url else url_value t;
}

-- The inputs for the key are there only with `by_key`.
abbrev pub possible : SnowflakeEvent → SnowflakeState → Bool
possible (edit_passphrase t) s = s.by_key
possible clear s = s.by_key
possible (edit_file f) s = s.by_key
possible (edit_password t) s = not s.by_key
possible _ s = true

unfoldable pub snowflake_event : SnowflakeEvent → Form SnowflakeState → Form SnowflakeState
snowflake_event e form =
    if possible e form.state
    then change_to snowflake_fields (snowflake_after e form.state) form
    else form

abbrev pub clear_sentinel : Text
clear_sentinel = codes "<clear>"

-- `originalConnection?.connection_id ? connect_by_key : true`
unfoldable pub snowflake_start :
    Connection → String → Text → Bool → Option FileValue → Bool → Bool → SnowflakeState
snowflake_start c flavor dynamic_url saved cached key_missing passphrase_saved =
    let cleared = text_eq c.private_key_passphrase clear_sentinel in
    record {
      by_url = c.connect_by_url;
      by_key = if saved then c.connect_by_key else true;
      host = c.project_host;
      port = text_or_else c.project_port (default_port flavor);
      database = c.project_db;
      warehouse = c.warehouse;
      username = c.project_user;
      password = c.project_pw_encrypted;
      private_key = c.private_key;
      passphrase = if cleared then [] else c.private_key_passphrase;
      clear_passphrase = cleared;
      url = if c.connect_by_url then c.url else url_value dynamic_url;
      dynamic_url = dynamic_url;
      file = cached;
      key_missing = key_missing;
      passphrase_saved = passphrase_saved;
    }

unfoldable pub snowflake_open : SnowflakeState → Form SnowflakeState
snowflake_open s = open_form snowflake_fields false s

unfoldable pub snowflake_payload : SnowflakeState → Connection → Connection
snowflake_payload s c = record c {
  project_host = s.host;
  project_port = s.port;
  project_db = s.database;
  project_user = s.username;
  project_pw_encrypted = s.password;
  connect_by_url = s.by_url;
  url = s.url;
  connect_by_key = s.by_key;
  private_key = s.private_key;
  private_key_passphrase = if s.clear_passphrase then clear_sentinel else s.passphrase;
  warehouse = s.warehouse;
}
