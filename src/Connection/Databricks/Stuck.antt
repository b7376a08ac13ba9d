-- ===== src/Connection/Databricks/Stuck.antt =====
-- An entry of the form of Databricks that is not deleted.
use dataops_testgen.Base.{
  ◌≡◌, refl, sym, ap, Bool, true, false, not, List, [], ◌∷◌, all, ==_refl, length, bool_ne, inl,
  inr, arith,
}
use dataops_testgen.Base.Text.{text_eq_refl}
use mathlib.Core.Path.{subst}
use dataops_testgen.Validators.{required, max_length}
use dataops_testgen.Inputs.{Field, Form, valid, input, reacts, runs, errors_of}
use dataops_testgen.Inputs.Reports.{IsCurrent, runs-keeps}
use dataops_testgen.Inputs.Entries.{
  In, IsAbsent, IsAbsent-change_to, change_to-IsAbsent, entry-IsCurrent, is_valid-IsAbsent,
  runs-keeps_if,
}
use dataops_testgen.Connection.Databricks.{
  DatabricksState, DatabricksEvent, pick_oauth, databricks_fields, databricks_after,
  databricks_event, databricks_open,
}
use dataops_testgen.Connection.Databricks.Valid.{
  databricks_fields-IsDistinct, forgotten, pick_oauth-same, pick_oauth-other, forget-IsReady,
  databricks_event-IsCurrent, databricks_open-IsCurrent,
}

abbrev pub client : Field DatabricksState
client =
    input "db_user" (λ s. s.use_oauth) (λ old new. bool_ne old.use_oauth new.use_oauth)
      (λ s. s.username) (λ s. required ∷ max_length 100 ∷ [])

client-In : In client databricks_fields
unfolding databricks_fields
client-In = inr (inr (inr (inr (inr (inl refl)))))

abbrev pub keeps_token : DatabricksEvent → Bool
keeps_token (pick_oauth v) = not v
keeps_token _ = true

databricks_event-IsAbsent :
    (e : DatabricksEvent) (form : Form DatabricksState)
    → keeps_token e ≡ true
    → IsAbsent databricks_fields client form
    → IsAbsent databricks_fields client (databricks_event e form)
unfolding databricks_event databricks_after
databricks_event-IsAbsent (pick_oauth true) form h s = cc
databricks_event-IsAbsent (pick_oauth false) form h s =
    subst (IsAbsent databricks_fields client)
      (sym (pick_oauth-same false form (ap (λ b. bool_ne b false) s.1))) s
databricks_event-IsAbsent e form h s =
    IsAbsent-change_to databricks_fields client (databricks_after e form.state) form client-In
      databricks_fields-IsDistinct s.1 s

pick_token-quiet :
    (s : DatabricksState) → reacts s (databricks_after (pick_oauth false) s) client ≡ false
unfolding databricks_after
pick_token-quiet s =
    let count : _ = length (errors_of (required ∷ max_length 100 ∷ []) s.username) in
    rw (text_eq_refl s.username, ==_refl count) (ground arith)

pick_token-IsAbsent :
    (form : Form DatabricksState)
    → IsCurrent databricks_fields form
    → form.state.use_oauth ≡ true
    → valid client form.state ≡ false
    → IsAbsent databricks_fields client (databricks_event (pick_oauth false) form)
pick_token-IsAbsent form c on missing =
    let picked : bool_ne form.state.use_oauth false ≡ true = ap (λ b. bool_ne b false) on in
    let new : DatabricksState = databricks_after (pick_oauth false) form.state in
    subst (IsAbsent databricks_fields client) (sym (pick_oauth-other false form picked)) (
      change_to-IsAbsent databricks_fields client new (forgotten false form) client-In
        databricks_fields-IsDistinct (forget-IsReady false form picked c)
        (entry-IsCurrent databricks_fields client form client-In c on missing)
        (pick_token-quiet form.state) (unfold databricks_after in refl))

-- A form of Databricks that takes the id of a client, and whose id is missing or too long, does not
-- count as valid once the user has gone back to an access token, whatever is filled in afterwards,
-- until the user takes the id of a client again.
pub is_valid-pick_token :
    (es es' : List DatabricksEvent) (s : DatabricksState)
    → let form = runs databricks_event es (databricks_open s) in
      form.state.use_oauth ≡ true
      → valid client form.state ≡ false
      → all keeps_token es' ≡ true
      → (runs databricks_event es' (databricks_event (pick_oauth false) form)).is_valid ≡ false
is_valid-pick_token es es' s on missing keeps =
    let form : Form DatabricksState = runs databricks_event es (databricks_open s) in
    let current : IsCurrent databricks_fields form =
      runs-keeps (IsCurrent databricks_fields) databricks_event databricks_event-IsCurrent es
        (databricks_open s) (databricks_open-IsCurrent s) in
    is_valid-IsAbsent databricks_fields client _ client-In (
      runs-keeps_if (IsAbsent databricks_fields client) keeps_token databricks_event
        databricks_event-IsAbsent es' (databricks_event (pick_oauth false) form) keeps
        (pick_token-IsAbsent form current on missing))
