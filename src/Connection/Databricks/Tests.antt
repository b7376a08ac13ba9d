-- ===== src/Connection/Databricks/Tests.antt =====
-- Runs of the form of Databricks.
use dataops_testgen.Base.{◌≡◌, refl, true, false, List, [], ◌∷◌}
use dataops_testgen.Base.Text.{codes}
use dataops_testgen.Inputs.{runs, errors_of, reports, open_form}
use dataops_testgen.Validators.{required, max_length, required_if, min_length}
use dataops_testgen.Connection.Databricks.{
  DatabricksState, DatabricksEvent, pick_oauth, edit_password, databricks_event, databricks_open,
  databricks_fields,
}
use dataops_testgen.Connection.Databricks.Stuck.{is_valid-pick_token}

-- A new connection by the id of a client, which is missing.
abbrev databricks_state : DatabricksState
databricks_state = record {
  by_url = false;
  use_oauth = true;
  host = codes "db.test";
  port = codes "443";
  http_path = codes "/sql";
  catalog = codes "main";
  username = [];
  password = [];
  url = [];
  dynamic_url = [];
  secret_missing = true;
}

abbrev token_events : List DatabricksEvent
token_events = edit_password (codes "dapi1") ∷ []

is_valid-pick_token_example :
    (runs databricks_event token_events (
      databricks_event
        (pick_oauth false)
        (runs databricks_event [] (databricks_open databricks_state)))).is_valid
    ≡ false
unfolding runs databricks_open open_form reports databricks_fields errors_of required max_length
    required_if min_length
is_valid-pick_token_example = is_valid-pick_token [] token_events databricks_state refl refl refl
