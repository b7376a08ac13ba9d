-- ===== src/Connection/Host/Valid.antt =====
-- When the form over a host counts as valid.
use dataops_testgen.Base.{
  ◌≡◌, refl, ◌∙◌, Bool, true, ◌&&◌, ◌||◌, List, all, length, leb, if◌then◌else◌, arith,
}
use dataops_testgen.Base.Text.{is_empty}
use dataops_testgen.Validators.Passes.{within, filled}
use dataops_testgen.Inputs.{runs, Form, valid}
use dataops_testgen.Inputs.Reports.{IsDistinct, IsCurrent, runs-keeps}
use dataops_testgen.Inputs.Current.{
  state-change_to, state-open_form, change_to-IsCurrent, open_form-IsCurrent, is_valid-IsCurrent,
}
use dataops_testgen.Inputs.Errors.{input_laws}
use dataops_testgen.Connection.Host.{
  HostState, HostEvent, host_fields, host_after, host_open, host_event,
}

host_fields-IsDistinct : IsDistinct host_fields
unfolding host_fields
host_fields-IsDistinct = (refl, (refl, (refl, (refl, (refl, (refl, tt))))))

pub host_event-IsCurrent :
    (e : HostEvent) (form : Form HostState)
    → IsCurrent host_fields form
    → IsCurrent host_fields (host_event e form)
unfolding host_event
host_event-IsCurrent e form c =
    change_to-IsCurrent host_fields (host_after e form.state) form host_fields-IsDistinct c

pub host_open-IsCurrent : (s : HostState) → IsCurrent host_fields (host_open s)
unfolding host_open host_fields
host_open-IsCurrent s = open_form-IsCurrent host_fields true s host_fields-IsDistinct refl

-- What the form asks for: a host, a port of three to five characters and a database, or a URL, and a
-- user, none of them too long.
abbrev pub host_ok : HostState → Bool
host_ok s =
    within 250 s.host
    && (within 5 s.port && (is_empty s.port || leb 3 (length s.port)))
    && within 100 s.database
    && (if s.by_url then filled s.url else filled s.host && filled s.port && filled s.database)
    && filled s.username
    && within 50 s.username

all_shown : (s : HostState) → all (λ f. f.shown s) host_fields ≡ true
unfolding host_fields
all_shown s = refl

fields_ok : (s : HostState) → all (λ f. valid f s) host_fields ≡ host_ok s
unfolding host_fields
fields_ok s = simp input_laws (ground arith)

pub state-host_open : (s : HostState) → (host_open s).state ≡ s
unfolding host_open
state-host_open s = state-open_form host_fields true s

pub state-host_event :
    (e : HostEvent) (form : Form HostState) → (host_event e form).state ≡ host_after e form.state
unfolding host_event
state-host_event e form = state-change_to host_fields (host_after e form.state) form

pub is_valid-host_ok :
    (form : Form HostState) → IsCurrent host_fields form → form.is_valid ≡ host_ok form.state
is_valid-host_ok form c =
    is_valid-IsCurrent host_fields form c (all_shown form.state) ∙ fields_ok form.state

-- The form over a host counts as valid, after any changes, exactly when what it asks for is filled in.
pub is_valid-host_event :
    (es : List HostEvent) (s : HostState)
    → (runs host_event es (host_open s)).is_valid ≡ host_ok (runs host_event es (host_open s)).state
is_valid-host_event es s = is_valid-host_ok (runs host_event es (host_open s)) (
    runs-keeps (IsCurrent host_fields) host_event host_event-IsCurrent es (host_open s)
      (host_open-IsCurrent s))
