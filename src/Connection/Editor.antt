-- ===== src/Connection/Editor.antt =====
-- `ConnectionForm` around the form of a flavor that connects to a host, for changes among these flavors. After a change of its states,
-- VanJS runs the functions given to `van.derive` in the order in which they stand in the source: the
-- one that builds the form of the flavor, the one that sets the port, and the one that merges the
-- settings; what the form hands on in a second round comes last.
pub mod Valid
pub mod Merged
pub mod Port
mod Tests
use dataops_testgen.Base.{
  ℕ, Bool, true, false, not, ◌&&◌, ◌||◌, Option, none, some, List, [], ◌∷◌, String, str_eq, length,
  ◌==◌, if◌then◌else◌, bool_ne, or_default,
}
use dataops_testgen.Base.Text.{Text, text_eq, is_empty}
use dataops_testgen.Validators.{required, min_length, max_length}
use dataops_testgen.Inputs.{Form, errors_of}
use dataops_testgen.Connection.{Connection, default_port}
use dataops_testgen.Connection.Host.{
  HostState, HostEvent, send_url, host_start, host_open, host_event, host_payload,
}

pub record Editor : Type 0 where
  -- `connectionFlavor`
  pub flavor : String
  pub name : Text
  pub threads : ℕ
  pub chars : ℕ
  -- the entries of `validityPerField`
  pub name_valid : Bool
  pub form_valid : Bool
  pub form : Form HostState
  -- `updatedConnection`
  pub connection : Connection
  pub dynamic_url : Text

-- The flavors whose form is the one over a host; the others have forms of their own, and a change to
-- one of these is no event here.
pub data HostFlavor : Type 0 where
  redshift : HostFlavor
  postgresql : HostFlavor
  mssql : HostFlavor
  oracle : HostFlavor
  sap_hana : HostFlavor
  synapse_mssql : HostFlavor

abbrev pub flavor_code : HostFlavor → String
flavor_code redshift = "redshift"
flavor_code postgresql = "postgresql"
flavor_code mssql = "mssql"
flavor_code oracle = "oracle"
flavor_code sap_hana = "sap_hana"
flavor_code synapse_mssql = "synapse_mssql"

pub data EditorEvent : Type 0 where
  select_flavor : HostFlavor → EditorEvent
  edit_name : Text → EditorEvent
  edit_threads : ℕ → EditorEvent
  edit_chars : ℕ → EditorEvent
  edit_form : HostEvent → EditorEvent

-- The connection that is edited, from the one given. An empty port is not `undefined` here, and secrets
-- of a connection that was saved are not shown.
unfoldable pub start_connection : Bool → Option Text → Connection → Connection
start_connection edit_mode port c = record c {
  project_port = or_default port (default_port c.sql_flavor);
  project_pw_encrypted = if edit_mode then [] else c.project_pw_encrypted;
  private_key = if edit_mode then [] else c.private_key;
  private_key_passphrase = if edit_mode then [] else c.private_key_passphrase;
}

abbrev pub name_ok : Text → Bool
name_ok t = length (errors_of (required ∷ min_length 3 ∷ max_length 40 ∷ []) t) == 0

-- The port follows the flavor if it is the default of the one before, or missing.
unfoldable pub fit_port : String → String → Connection → Connection
fit_port previous selected c =
    if not (str_eq selected previous)
      && (text_eq c.project_port (default_port previous) || is_empty c.project_port)
    then record c { project_port = default_port selected }
    else c

-- Whether the form hands its values on: one of the states it reads is another one.
unfoldable pub hands_on : Form HostState → Form HostState → Bool
hands_on old new =
    not (text_eq old.state.host new.state.host)
    || not (text_eq old.state.port new.state.port)
    || not (text_eq old.state.database new.state.database)
    || not (text_eq old.state.username new.state.username)
    || not (text_eq old.state.password new.state.password)
    || bool_ne old.state.by_url new.state.by_url
    || (old.state.by_url && not (text_eq old.state.url new.state.url))
    || bool_ne old.is_valid new.is_valid

-- `isValid` of what `props.onChange` is called with
abbrev pub editor_valid : Editor → Bool
editor_valid e = e.name_valid && e.form_valid

-- The form has changed to another one.
unfoldable pub pass_on : Form HostState → Editor → Editor
pass_on form e = record e {
  form = form;
  form_valid = if hands_on e.form form then form.is_valid else e.form_valid;
  connection = if hands_on e.form form then host_payload form.state e.connection else e.connection;
}

abbrev pub sent_url : HostEvent → Text → Text
sent_url (send_url t) url = t
sent_url ev url = url

-- `flavor_of` finds the flavor of a code in `props.flavors`.
module _ (flavor_of : String → String) where
  unfoldable pub merge_settings : Editor → Connection → Connection
  merge_settings e c = record c {
    sql_flavor = flavor_of e.flavor;
    sql_flavor_code = e.flavor;
    connection_name = e.name;
    max_threads = e.threads;
    max_query_chars = e.chars;
  }

  -- The form of a flavor hands on what it starts with, before its URL is filled in; then again, if its
  -- inputs have found errors.
  unfoldable pub build_form : String → Editor → Editor
  unfolding merge_settings
  build_form previous e =
      let start : HostState = host_start e.connection (flavor_of e.flavor) e.dynamic_url in
      let form : Form HostState = host_open start in
      let first : Connection = record (host_payload start e.connection) {
        url = e.connection.url;
      } in
      let merged : Connection = merge_settings e (fit_port previous e.flavor first) in
      record e {
        form = form;
        form_valid = form.is_valid;
        connection = if form.is_valid then merged else host_payload start merged;
      }

  -- what the states start with
  abbrev pub blank_editor : String → Text → ℕ → ℕ → Connection → Text → Editor
  blank_editor flavor name threads chars c dynamic_url = record {
    flavor = flavor;
    name = name;
    threads = threads;
    chars = chars;
    name_valid = name_ok name;
    form_valid = true;
    form = host_open (host_start c (flavor_of flavor) dynamic_url);
    connection = c;
    dynamic_url = dynamic_url;
  }

  -- The component is built, and the input for the name reports.
  unfoldable pub open_editor : String → Text → ℕ → ℕ → Connection → Text → Editor
  unfolding build_form
  open_editor flavor name threads chars c dynamic_url =
      build_form flavor (blank_editor flavor name threads chars c dynamic_url)

  unfoldable pub editor_event : EditorEvent → Editor → Editor
  unfolding build_form pass_on merge_settings
  editor_event (select_flavor f) e =
      if str_eq (flavor_code f) e.flavor
      then e
      else build_form e.flavor (record e { flavor = flavor_code f })
  editor_event (edit_name t) e =
      let named : Editor = record e { name = t; name_valid = name_ok t } in
      record named { connection = merge_settings named e.connection }
  editor_event (edit_threads n) e =
      let set : Editor = record e { threads = n } in
      record set { connection = merge_settings set e.connection }
  editor_event (edit_chars n) e =
      let set : Editor = record e { chars = n } in
      record set { connection = merge_settings set e.connection }
  editor_event (edit_form ev) e = record (pass_on (host_event ev e.form) e) {
    dynamic_url = sent_url ev e.dynamic_url;
  }
