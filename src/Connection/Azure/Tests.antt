-- ===== src/Connection/Azure/Tests.antt =====
-- A run of the form of Azure.
use dataops_testgen.Base.{◌≡◌, refl, true, false, List, [], ◌∷◌}
use dataops_testgen.Base.Text.{codes}
use dataops_testgen.Inputs.{runs}
use dataops_testgen.Connection.Azure.{
  AzureState, AzureEvent, pick_identity, edit_host, edit_username, azure_event, azure_open,
}
use dataops_testgen.Connection.Azure.Valid.{azure_ok, is_valid-azure_event}

abbrev azure_state : AzureState
azure_state = record {
  by_url = false;
  with_identity = false;
  host = codes "db.test";
  port = codes "1433";
  database = codes "sales";
  username = [];
  password = [];
  url = [];
  dynamic_url = codes "jdbc://db.test:1433";
}

abbrev azure_events : List AzureEvent
azure_events = edit_username (codes "me") ∷ pick_identity true ∷ edit_host (codes "db") ∷ []

is_valid-azure_event_example :
    (runs azure_event azure_events (azure_open azure_state)).is_valid
    ≡ azure_ok (runs azure_event azure_events (azure_open azure_state)).state
is_valid-azure_event_example = is_valid-azure_event azure_events azure_state refl
