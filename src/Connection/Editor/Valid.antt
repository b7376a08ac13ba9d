-- ===== src/Connection/Editor/Valid.antt =====
-- When the editor of a connection counts as valid.
use dataops_testgen.Base.{
  ℕ, ◌≡◌, refl, ◌∙◌, ap₂, false, ◌&&◌, List, String, str_eq, Bool-cases, inl, inr, arith, keep_if,
}
use dataops_testgen.Base.Text.{Text}
use dataops_testgen.Inputs.{Form, runs}
use dataops_testgen.Inputs.Reports.{IsCurrent, runs-keeps}
use dataops_testgen.Connection.{Connection}
use dataops_testgen.Connection.Host.{HostState, host_fields, host_event}
use dataops_testgen.Connection.Host.Valid.{
  host_ok, host_event-IsCurrent, host_open-IsCurrent, is_valid-host_ok,
}
use dataops_testgen.Connection.Editor.{
  Editor, EditorEvent, flavor_code, select_flavor, edit_name, edit_threads, edit_chars, edit_form,
  name_ok, editor_valid, hands_on, build_form, pass_on, editor_event, open_editor, blank_editor,
}

-- The entries of the editor say what its form and its name say.
record IsSynced (e : Editor) : Type 0 where
  current : IsCurrent host_fields e.form
  form : e.form_valid ≡ e.form.is_valid
  name : e.name_valid ≡ name_ok e.name

same_is_valid : (old new : Form HostState) → hands_on old new ≡ false → old.is_valid ≡ new.is_valid
unfolding hands_on
same_is_valid old new h = ground arith

pass_on-IsSynced :
    (form : Form HostState) (e : Editor)
    → IsCurrent host_fields form
    → IsSynced e
    → IsSynced (pass_on form e)
unfolding pass_on
pass_on-IsSynced form e c s = record {
  current = c;
  form = elim (Bool-cases (hands_on e.form form)) [
    | inl on ↦ rw on refl
    | inr off ↦ rw off (s.form ∙ same_is_valid e.form form off)
  ];
  name = s.name;
}

module _ (flavor_of : String → String) where
  build_form-IsSynced :
      (previous : String) (e : Editor)
      → e.name_valid ≡ name_ok e.name
      → IsSynced (build_form flavor_of previous e)
  unfolding build_form
  build_form-IsSynced previous e h = record {
    current = host_open-IsCurrent _;
    form = refl;
    name = h;
  }

  editor_event-IsSynced :
      (ev : EditorEvent) (e : Editor) → IsSynced e → IsSynced (editor_event flavor_of ev e)
  unfolding editor_event
  editor_event-IsSynced (select_flavor f) e s =
      keep_if IsSynced (str_eq (flavor_code f) e.flavor) s
        (build_form-IsSynced e.flavor (record e { flavor = flavor_code f }) s.name)
  editor_event-IsSynced (edit_name t) e s = record {
    current = s.current;
    form = s.form;
    name = refl;
  }
  editor_event-IsSynced (edit_threads n) e s = record {
    current = s.current;
    form = s.form;
    name = s.name;
  }
  editor_event-IsSynced (edit_chars n) e s = record {
    current = s.current;
    form = s.form;
    name = s.name;
  }
  editor_event-IsSynced (edit_form ev) e s =
      let passed : IsSynced (pass_on (host_event ev e.form) e) =
        pass_on-IsSynced (host_event ev e.form) e (host_event-IsCurrent ev e.form s.current) s in
      record { current = passed.current; form = passed.form; name = passed.name }

  open_editor-IsSynced :
      (flavor : String) (name : Text) (threads chars : ℕ) (c : Connection) (url : Text)
      → IsSynced (open_editor flavor_of flavor name threads chars c url)
  unfolding open_editor
  open_editor-IsSynced flavor name threads chars c url =
      build_form-IsSynced flavor (blank_editor flavor_of flavor name threads chars c url) refl

  -- The editor of a connection to a host counts as valid, after any changes of its settings, its
  -- flavor and its form, exactly when the name passes its validators and the form has what it asks for.
  pub editor_valid-editor_event :
      (es : List EditorEvent) (flavor : String) (name : Text) (threads chars : ℕ) (c : Connection)
      (url : Text)
      → let e =
          runs
            (editor_event flavor_of)
            es
            (open_editor flavor_of flavor name threads chars c url) in
        editor_valid e ≡ (name_ok e.name && host_ok e.form.state)
  editor_valid-editor_event es flavor name threads chars c url =
      let synced : IsSynced _ =
        runs-keeps IsSynced (editor_event flavor_of) editor_event-IsSynced es
          (open_editor flavor_of flavor name threads chars c url)
          (open_editor-IsSynced flavor name threads chars c url) in
      ap₂ (λ a b. a && b) synced.name (synced.form ∙ is_valid-host_ok _ synced.current)
