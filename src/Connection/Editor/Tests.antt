-- ===== src/Connection/Editor/Tests.antt =====
-- A run of the editor of a connection.
use dataops_testgen.Base.{◌≡◌, refl, false, ◌&&◌, List, [], ◌∷◌, String}
use dataops_testgen.Base.Text.{codes}
use dataops_testgen.Inputs.{runs, open_form, change_to, reports, errors_of}
use dataops_testgen.Validators.{required, max_length, required_if, min_length}
use dataops_testgen.Connection.{
  Connection, default_port, url_value, without, extract_prefix, scheme, before_at,
}
use dataops_testgen.Connection.Host.{
  edit_database, edit_host, host_payload, host_open, host_start, host_event, host_after,
  host_fields,
}
use dataops_testgen.Connection.Host.Valid.{host_ok}
use dataops_testgen.Connection.Editor.{
  Editor, EditorEvent, postgresql, select_flavor, edit_name, edit_form, name_ok, editor_valid,
  editor_event, open_editor, build_form, fit_port, merge_settings, hands_on,
}
use dataops_testgen.Connection.Editor.Valid.{editor_valid-editor_event}
use dataops_testgen.Connection.Editor.Merged.{IsMerged, runs-IsMerged}
use dataops_testgen.Connection.Editor.Port.{project_port-select_flavor}

abbrev redshift : Connection
redshift = record {
  sql_flavor = "redshift";
  project_host = codes "db.test";
  project_port = codes "5439";
  project_db = codes "sales";
  project_user = codes "me";
  project_pw_encrypted = [];
  connect_by_url = false;
  connect_by_key = false;
  private_key = [];
  private_key_passphrase = [];
  http_path = [];
  warehouse = [];
  url = [];
  connect_with_identity = false;
  sql_flavor_code = "redshift";
  connection_name = codes "main";
  max_threads = 4;
  max_query_chars = 20000;
}

abbrev same_flavor : String → String
same_flavor code = code

abbrev opened : Editor
opened = open_editor same_flavor "redshift" (codes "main") 4 20000 redshift []

abbrev editor_events : List EditorEvent
editor_events =
    edit_name (codes "copy") ∷ select_flavor postgresql ∷ edit_form (edit_host (codes "pg")) ∷ []

default_port_test :
    (editor_event same_flavor (select_flavor postgresql) opened).connection.project_port
    ≡ codes "5432"
unfolding open_editor build_form fit_port default_port merge_settings host_payload host_open
    host_start host_event host_after host_fields hands_on editor_event open_form change_to reports
    errors_of required max_length required_if min_length url_value without extract_prefix scheme
    before_at
default_port_test = refl

old_port_test :
    (editor_event same_flavor (select_flavor postgresql) opened).form.state.port ≡ codes "5439"
unfolding open_editor build_form fit_port default_port merge_settings host_payload host_open
    host_start host_event host_after host_fields hands_on editor_event open_form change_to reports
    errors_of required max_length required_if min_length url_value without extract_prefix scheme
    before_at
old_port_test = refl

editor_valid-editor_event_example :
    editor_valid (runs (editor_event same_flavor) editor_events opened) ≡ (
      name_ok (runs (editor_event same_flavor) editor_events opened).name
      && host_ok (runs (editor_event same_flavor) editor_events opened).form.state)
editor_valid-editor_event_example =
    editor_valid-editor_event same_flavor editor_events "redshift" (codes "main") 4 20000 redshift
      []

runs-IsMerged_example : IsMerged same_flavor (runs (editor_event same_flavor) editor_events opened)
runs-IsMerged_example =
    runs-IsMerged same_flavor editor_events "redshift" (codes "main") 4 20000 redshift []

project_port-select_flavor_example :
    (editor_event same_flavor
      (edit_form (edit_database (codes "x")))
      (editor_event same_flavor (select_flavor postgresql) opened)).connection.project_port
    ≡ opened.connection.project_port
unfolding open_editor build_form fit_port default_port merge_settings host_payload host_open
    host_start host_event host_after host_fields hands_on editor_event open_form change_to reports
    errors_of required max_length required_if min_length url_value without extract_prefix scheme
    before_at
project_port-select_flavor_example =
    project_port-select_flavor same_flavor postgresql (edit_database (codes "x")) opened refl refl
      refl refl
