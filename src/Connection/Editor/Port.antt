-- ===== src/Connection/Editor/Port.antt =====
-- The port after another flavor is selected.
use dataops_testgen.Base.{◌≡◌, refl, ◌∙◌, ap, Bool, true, false, [], ◌∷◌, String, str_eq}
use dataops_testgen.Base.Text.{Text, is_empty}
use dataops_testgen.Inputs.{Form}
use dataops_testgen.Connection.{default_port, text_or_else}
use dataops_testgen.Connection.Host.{
  HostState, HostEvent, edit_port, host_event, host_payload, host_start, host_after,
}
use dataops_testgen.Connection.Host.Valid.{state-host_open, state-host_event}
use dataops_testgen.Connection.Editor.{
  Editor, HostFlavor, flavor_code, select_flavor, edit_form, hands_on, build_form, pass_on,
  editor_event,
}

abbrev pub keeps_port : HostEvent → Bool
keeps_port (edit_port t) = false
keeps_port _ = true

port-host_after :
    (ev : HostEvent) (s : HostState) → keeps_port ev ≡ true → (host_after ev s).port ≡ s.port
unfolding host_after
port-host_after (edit_port t) s h = cc
port-host_after ev s h = refl

text_or_else_filled : (s t : Text) → is_empty s ≡ false → text_or_else s t ≡ s
text_or_else_filled [] t h = cc
text_or_else_filled (c ∷ s) t h = refl

pass_on-port :
    (form : Form HostState) (e : Editor)
    → hands_on e.form form ≡ true
    → (pass_on form e).connection.project_port ≡ form.state.port
unfolding pass_on host_payload
pass_on-port form e h = rw h refl

module _ (flavor_of : String → String) where
  build_form-port :
      (previous : String) (e : Editor)
      → is_empty e.connection.project_port ≡ false
      → (build_form flavor_of previous e).form.state.port ≡ e.connection.project_port
  unfolding build_form host_start
  build_form-port previous e h =
      ap (λ s. s.port)
        (state-host_open (host_start e.connection (flavor_of e.flavor) e.dynamic_url))
      ∙ text_or_else_filled e.connection.project_port (default_port (flavor_of e.flavor)) h

  -- When another flavor over a host is selected and the connection has a port, the next change that the
  -- form hands on, other than of the port, brings that port back, also where the default port of the
  -- flavor has taken its place.
  pub project_port-select_flavor :
      (f : HostFlavor) (ev : HostEvent) (e : Editor)
      → str_eq (flavor_code f) e.flavor ≡ false
      → is_empty e.connection.project_port ≡ false
      → keeps_port ev ≡ true
      → let selected = editor_event flavor_of (select_flavor f) e in
        hands_on selected.form (host_event ev selected.form) ≡ true
        → (editor_event flavor_of (edit_form ev) selected).connection.project_port
          ≡ e.connection.project_port
  unfolding editor_event
  project_port-select_flavor f ev e other has keeps = rw other (λ on.
      pass_on-port
        (host_event ev (build_form flavor_of e.flavor (record e { flavor = flavor_code f })).form)
        (build_form flavor_of e.flavor (record e { flavor = flavor_code f })) on
      ∙ ap (λ s. s.port)
          (state-host_event ev
            (build_form flavor_of e.flavor (record e { flavor = flavor_code f })).form)
      ∙ port-host_after ev
          (build_form flavor_of e.flavor (record e { flavor = flavor_code f })).form.state keeps
      ∙ build_form-port e.flavor (record e { flavor = flavor_code f }) has)
