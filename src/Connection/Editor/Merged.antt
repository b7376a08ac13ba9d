-- ===== src/Connection/Editor/Merged.antt =====
-- The connection that an editor has, and the values of its settings and of its form.
use dataops_testgen.Base.{
  ℕ, ◌≡◌, refl, sym, ◌∙◌, true, false, not, ◌&&◌, ◌||◌, List, String, str_eq, Bool-cases, inl, inr,
  arith, if◌then◌else◌, keep_if,
}
use dataops_testgen.Base.Text.{Text, text_eq, text_eq-eq, is_empty}
use dataops_testgen.Inputs.{Form, runs}
use dataops_testgen.Inputs.Reports.{runs-keeps}
use dataops_testgen.Connection.{Connection, default_port}
use dataops_testgen.Connection.Host.{HostState, host_event, host_payload, host_start, host_open}
use dataops_testgen.Connection.Host.Valid.{state-host_open}
use dataops_testgen.Connection.Editor.{
  Editor, EditorEvent, flavor_code, select_flavor, edit_name, edit_threads, edit_chars, edit_form,
  fit_port, name_ok, hands_on, build_form, pass_on, editor_event, open_editor, blank_editor,
  merge_settings,
}
use mathlib.Core.Path.{subst}

-- The connection has what the form has, but for the port, and the URL where it connects by one.
pub record FormMerged (s : HostState) (c : Connection) : Type 0 where
  pub host : c.project_host ≡ s.host
  pub database : c.project_db ≡ s.database
  pub username : c.project_user ≡ s.username
  pub password : c.project_pw_encrypted ≡ s.password
  pub by_url : c.connect_by_url ≡ s.by_url
  pub url : s.by_url ≡ true → c.url ≡ s.url

-- It has the settings.
pub record HasSettings (f k : String) (t : Text) (n m : ℕ) (c : Connection) : Type 0 where
  pub flavor : c.sql_flavor ≡ f
  pub code : c.sql_flavor_code ≡ k
  pub name : c.connection_name ≡ t
  pub threads : c.max_threads ≡ n
  pub chars : c.max_query_chars ≡ m

abbrev pub SettingsMerged : (String → String) → Editor → Connection → Type 0
SettingsMerged flavor_of e = HasSettings (flavor_of e.flavor) e.flavor e.name e.threads e.chars

abbrev pub IsMerged : (String → String) → Editor → Type 0
IsMerged flavor_of e =
    FormMerged e.form.state e.connection × SettingsMerged flavor_of e e.connection

host_payload-FormMerged : (s : HostState) (c : Connection) → FormMerged s (host_payload s c)
unfolding host_payload
host_payload-FormMerged s c = record {
  host = refl;
  database = refl;
  username = refl;
  password = refl;
  by_url = refl;
  url = λ on. refl;
}

same_texts : (s t : Text) → not (text_eq s t) ≡ false → s ≡ t
same_texts s t h = text_eq-eq s t (ground arith)

-- A form that does not hand on its values has the ones it handed on before.
hands_on-FormMerged :
    (old new : Form HostState) (c : Connection)
    → hands_on old new ≡ false
    → FormMerged old.state c
    → FormMerged new.state c
unfolding hands_on
hands_on-FormMerged old new c h m =
    let by_url : old.state.by_url ≡ new.state.by_url = ground arith in
    record {
      host = m.host ∙ same_texts old.state.host new.state.host (ground arith);
      database = m.database ∙ same_texts old.state.database new.state.database (ground arith);
      username = m.username ∙ same_texts old.state.username new.state.username (ground arith);
      password = m.password ∙ same_texts old.state.password new.state.password (ground arith);
      by_url = m.by_url ∙ by_url;
      url = λ on.
          let was : old.state.by_url ≡ true = by_url ∙ on in
          m.url was ∙ same_texts old.state.url new.state.url (ground arith);
    }

host_start-FormMerged :
    (c : Connection) (flavor : String) (url : Text)
    → FormMerged
        (host_start c flavor url)
        (record (host_payload (host_start c flavor url) c) { url = c.url })
unfolding host_start host_payload
host_start-FormMerged c flavor url = record {
  host = refl;
  database = refl;
  username = refl;
  password = refl;
  by_url = refl;
  url = λ on. rw on refl;
}

fit_port-FormMerged :
    (previous selected : String) (s : HostState) (c : Connection)
    → FormMerged s c
    → FormMerged s (fit_port previous selected c)
unfolding fit_port
fit_port-FormMerged previous selected s c m =
    keep_if (FormMerged s)
      (not (str_eq selected previous)
        && (text_eq c.project_port (default_port previous) || is_empty c.project_port))
      (record {
        host = m.host;
        database = m.database;
        username = m.username;
        password = m.password;
        by_url = m.by_url;
        url = m.url;
      })
      m

module _ (flavor_of : String → String) where
  merge_settings-FormMerged :
      (e : Editor) (s : HostState) (c : Connection)
      → FormMerged s c
      → FormMerged s (merge_settings flavor_of e c)
  unfolding merge_settings
  merge_settings-FormMerged e s c m = record {
    host = m.host;
    database = m.database;
    username = m.username;
    password = m.password;
    by_url = m.by_url;
    url = m.url;
  }

  merge_settings-SettingsMerged :
      (e : Editor) (c : Connection) → SettingsMerged flavor_of e (merge_settings flavor_of e c)
  unfolding merge_settings
  merge_settings-SettingsMerged e c = record {
    code = refl;
    flavor = refl;
    name = refl;
    threads = refl;
    chars = refl;
  }

  host_payload-SettingsMerged :
      (e : Editor) (s : HostState) (c : Connection)
      → SettingsMerged flavor_of e c
      → SettingsMerged flavor_of e (host_payload s c)
  unfolding host_payload
  host_payload-SettingsMerged e s c m = record {
    code = m.code;
    flavor = m.flavor;
    name = m.name;
    threads = m.threads;
    chars = m.chars;
  }

  build_form-IsMerged :
      (previous : String) (e : Editor) → IsMerged flavor_of (build_form flavor_of previous e)
  unfolding build_form
  build_form-IsMerged previous e =
      let start : HostState = host_start e.connection (flavor_of e.flavor) e.dynamic_url in
      let first : Connection = record (host_payload start e.connection) {
        url = e.connection.url;
      } in
      let fitted : Connection = fit_port previous e.flavor first in
      let merged : Connection = merge_settings flavor_of e fitted in
      let settings : SettingsMerged flavor_of e merged = merge_settings-SettingsMerged e fitted in
      let handed : SettingsMerged flavor_of e (host_payload start merged) =
        host_payload-SettingsMerged e start merged settings in
      (
        subst
            (λ s.
              FormMerged s
                (if (host_open start).is_valid then merged else host_payload start merged))
            (sym (state-host_open start))
            (keep_if (FormMerged start) (host_open start).is_valid
              (merge_settings-FormMerged e start fitted (
                fit_port-FormMerged previous e.flavor start first
                  (host_start-FormMerged e.connection (flavor_of e.flavor) e.dynamic_url)))
              (host_payload-FormMerged start merged)),
        keep_if (SettingsMerged flavor_of e) (host_open start).is_valid settings handed,
      )

  pass_on-IsMerged :
      (form : Form HostState) (e : Editor)
      → IsMerged flavor_of e
      → IsMerged flavor_of (pass_on form e)
  unfolding pass_on
  pass_on-IsMerged form e (m, settings) = (
    elim (Bool-cases (hands_on e.form form)) [
      | inl on ↦ rw on (host_payload-FormMerged form.state e.connection)
      | inr off ↦ rw off (hands_on-FormMerged e.form form e.connection off m)
    ],
    keep_if (SettingsMerged flavor_of e) (hands_on e.form form)
        (host_payload-SettingsMerged e form.state e.connection settings) settings,
  )

  settings-IsMerged :
      (e : Editor)
      → FormMerged e.form.state e.connection
      → IsMerged flavor_of (record e { connection = merge_settings flavor_of e e.connection })
  settings-IsMerged e m = (
    merge_settings-FormMerged e e.form.state e.connection m,
    merge_settings-SettingsMerged e e.connection,
  )

  editor_event-IsMerged :
      (ev : EditorEvent) (e : Editor)
      → IsMerged flavor_of e
      → IsMerged flavor_of (editor_event flavor_of ev e)
  unfolding editor_event
  editor_event-IsMerged (select_flavor f) e m =
      keep_if (IsMerged flavor_of) (str_eq (flavor_code f) e.flavor) m
        (build_form-IsMerged e.flavor (record e { flavor = flavor_code f }))
  editor_event-IsMerged (edit_name t) e m =
      settings-IsMerged (record e { name = t; name_valid = name_ok t }) m.0
  editor_event-IsMerged (edit_threads n) e m = settings-IsMerged (record e { threads = n }) m.0
  editor_event-IsMerged (edit_chars n) e m = settings-IsMerged (record e { chars = n }) m.0
  editor_event-IsMerged (edit_form ev) e m = pass_on-IsMerged (host_event ev e.form) e m

  -- After any changes, the connection of the editor has the host, the database, the user and the
  -- password of its form, the URL of the form where it connects by one, and the settings of the
  -- editor, with the flavor that is selected.
  pub runs-IsMerged :
      (es : List EditorEvent) (flavor : String) (name : Text) (threads chars : ℕ) (c : Connection)
      (url : Text)
      → IsMerged flavor_of
          (runs (editor_event flavor_of) es (open_editor flavor_of flavor name threads chars c url))
  unfolding open_editor
  runs-IsMerged es flavor name threads chars c url =
      runs-keeps (IsMerged flavor_of) (editor_event flavor_of) editor_event-IsMerged es
        (build_form flavor_of flavor (blank_editor flavor_of flavor name threads chars c url))
        (build_form-IsMerged flavor (blank_editor flavor_of flavor name threads chars c url))
