-- ===== src/Connection/Azure/Valid.antt =====
-- When the form of Azure counts as valid.
use dataops_testgen.Base.{
  ◌≡◌, refl, ◌∙◌, Bool, true, false, not, ◌&&◌, ◌||◌, List, All, all, length, leb, if◌then◌else◌,
  arith,
}
use dataops_testgen.Base.Text.{is_empty}
use dataops_testgen.Validators.Passes.{within, filled}
use dataops_testgen.Inputs.{runs, Form, valid, errors_of}
use dataops_testgen.Inputs.Reports.{IsDistinct, runs-keeps}
use dataops_testgen.Inputs.Kept.{
  IsFull, IsLeft, change_to-IsFull, open_form-IsFull, is_valid-IsFull,
}
use dataops_testgen.Inputs.Errors.{input_laws}
use dataops_testgen.Connection.Azure.{
  AzureState, AzureEvent, edit_username, azure_fields, azure_after, azure_open, azure_event,
}

azure_fields-IsDistinct : IsDistinct azure_fields
unfolding azure_fields
azure_fields-IsDistinct = (refl, (refl, (refl, (refl, (refl, (refl, tt))))))

-- While the user and the password are not asked for, they stay.
username-azure_after :
    (e : AzureEvent) (s : AzureState)
    → not s.with_identity ≡ false
    → (azure_after e s).username ≡ s.username
unfolding azure_after
username-azure_after (edit_username t) s h =
    let on : s.with_identity ≡ true = ground arith in rw on refl
username-azure_after e s h = refl

azure_after-IsLeft :
    (e : AzureEvent) (s : AzureState) → All (IsLeft s (azure_after e s)) azure_fields
unfolding azure_fields azure_after errors_of
azure_after-IsLeft e s = (
  λ was off. cc,
  (
    λ was off. cc,
    (
      λ was off. cc,
      (
        λ was off. cc,
        (λ was off. rw (was, off, username-azure_after e s was) refl, (λ was off. refl, tt)),
      ),
    ),
  ),
)

azure_event-IsFull :
    (e : AzureEvent) (form : Form AzureState)
    → IsFull azure_fields form
    → IsFull azure_fields (azure_event e form)
unfolding azure_event
azure_event-IsFull e form c =
    change_to-IsFull azure_fields (azure_after e form.state) form azure_fields-IsDistinct
      (azure_after-IsLeft e form.state) c

azure_open-IsFull : (s : AzureState) → s.with_identity ≡ false → IsFull azure_fields (azure_open s)
unfolding azure_open azure_fields
azure_open-IsFull s h = open_form-IsFull _ _ true s azure_fields-IsDistinct (rw h refl)

-- What the form asks for: a host, a port of three to five characters and a database, or a URL, and a
-- user unless the identity of the host machine is used, none of them too long.
abbrev pub azure_ok : AzureState → Bool
azure_ok s =
    within 250 s.host
    && (within 5 s.port && (is_empty s.port || leb 3 (length s.port)))
    && within 100 s.database
    && (if s.by_url then filled s.url else filled s.host && filled s.port && filled s.database)
    && (s.with_identity || filled s.username)
    && within 50 s.username

fields_ok : (s : AzureState) → all (λ f. valid f s) azure_fields ≡ azure_ok s
unfolding azure_fields
fields_ok s = simp input_laws (ground arith)

-- The form of Azure, opened for a user and a password, counts as valid, after any changes, exactly when
-- what it asks for is filled in, where a user that is too long counts also while it is not asked for.
pub is_valid-azure_event :
    (es : List AzureEvent) (s : AzureState)
    → s.with_identity ≡ false
    → (runs azure_event es (azure_open s)).is_valid
      ≡ azure_ok (runs azure_event es (azure_open s)).state
is_valid-azure_event es s h =
    let form : Form AzureState = runs azure_event es (azure_open s) in
    is_valid-IsFull azure_fields form (
      runs-keeps (IsFull azure_fields) azure_event azure_event-IsFull es (azure_open s)
        (azure_open-IsFull s h))
    ∙ fields_ok form.state
