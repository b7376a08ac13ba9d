-- ===== src/Connection/Snowflake/Tests.antt =====
-- Runs of the form of Snowflake.
use dataops_testgen.Base.{◌≡◌, refl, true, false, none, List, [], ◌∷◌, All}
use dataops_testgen.Base.Text.{codes}
use dataops_testgen.Inputs.{runs, valid, errors_of, reports, open_form, change_to}
use dataops_testgen.Validators.{required, max_length, required_if, min_length}
use dataops_testgen.Connection.Files.{file_errors}
use dataops_testgen.Connection.Snowflake.{
  SnowflakeState, SnowflakeEvent, pick_by_key, edit_password, snowflake_event, snowflake_open,
  snowflake_fields, snowflake_after,
}
use dataops_testgen.Connection.Snowflake.Valid.{shown_valid-snowflake_event}
use dataops_testgen.Connection.Snowflake.Stuck.{is_valid-pick_password}

-- A new connection by a private key, which is missing.
abbrev snowflake_state : SnowflakeState
snowflake_state = record {
  by_url = false;
  by_key = true;
  host = codes "db.test";
  port = codes "443";
  database = codes "main";
  warehouse = [];
  username = codes "me";
  password = [];
  private_key = [];
  passphrase = [];
  clear_passphrase = false;
  url = [];
  dynamic_url = [];
  file = none;
  key_missing = true;
  passphrase_saved = false;
}

abbrev password_state : SnowflakeState
password_state = record snowflake_state { by_key = false }

abbrev password_events : List SnowflakeEvent
password_events = edit_password (codes "secret") ∷ []

is_valid-pick_password_example :
    (runs snowflake_event password_events (
      snowflake_event
        (pick_by_key false)
        (runs snowflake_event [] (snowflake_open snowflake_state)))).is_valid
    ≡ false
unfolding runs snowflake_open open_form reports snowflake_fields errors_of required max_length
    required_if min_length file_errors
is_valid-pick_password_example =
    is_valid-pick_password [] password_events snowflake_state refl refl refl

shown_valid-snowflake_event_example :
    All
      (λ f.
        f.shown (runs snowflake_event password_events (snowflake_open password_state)).state ≡ true
        → valid f (runs snowflake_event password_events (snowflake_open password_state)).state
          ≡ true)
      snowflake_fields
unfolding runs snowflake_open snowflake_event snowflake_after change_to open_form reports
    snowflake_fields errors_of required max_length required_if min_length file_errors
shown_valid-snowflake_event_example =
    shown_valid-snowflake_event password_events password_state refl
