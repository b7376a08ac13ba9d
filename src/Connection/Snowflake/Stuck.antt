-- ===== src/Connection/Snowflake/Stuck.antt =====
-- The entry for a private key that is not asked for any more.
use mathlib.Core.Path.{subst}
use dataops_testgen.Base.{
  ◌*◌, ◌≡◌, refl, sym, Bool, true, false, not, Option, none, some, List, all, Bool-cases, inl, inr,
  arith, length, ==_refl,
}
use dataops_testgen.Base.Text.{text_eq_refl}
use dataops_testgen.Inputs.{Field, Form, valid, runs, reacts}
use dataops_testgen.Inputs.Reports.{IsCurrent, runs-keeps}
use dataops_testgen.Inputs.Current.{IsReady-IsCurrent}
use dataops_testgen.Inputs.Entries.{
  In, IsAbsent, IsAbsent-change_to, change_to-IsAbsent, entry-IsCurrent, is_valid-IsAbsent,
  runs-keeps_if,
}
use dataops_testgen.Connection.Files.{FileValue, file_ne, file_errors}
use dataops_testgen.Connection.Snowflake.{
  SnowflakeState, SnowflakeEvent, pick_by_key, snowflake_fields, snowflake_after, snowflake_event,
  snowflake_open, possible, key_rebuilt,
}
use dataops_testgen.Connection.Snowflake.Valid.{
  snowflake_fields-IsDistinct, snowflake_event-possible, snowflake_event-impossible,
  snowflake_event-IsCurrent, snowflake_open-IsCurrent,
}

abbrev pub key_file : Field SnowflakeState
key_file = record {
  name = "private_key";
  shown = λ s. s.by_key;
  rebuilt = key_rebuilt;
  changed = λ old new. file_ne old.file new.file;
  errors = λ s. file_errors (200 * 1024 * 1024) s.key_missing s.file;
}

key_file-In : In key_file snowflake_fields
unfolding snowflake_fields
key_file-In = inr (inr (inr (inr (inr (inr (inr (inl refl)))))))

abbrev pub keeps_password : SnowflakeEvent → Bool
keeps_password (pick_by_key v) = not v
keeps_password _ = true

by_key-snowflake_after :
    (e : SnowflakeEvent) (s : SnowflakeState)
    → keeps_password e ≡ true
    → s.by_key ≡ false
    → (snowflake_after e s).by_key ≡ false
unfolding snowflake_after
by_key-snowflake_after (pick_by_key true) s h off = cc
by_key-snowflake_after (pick_by_key false) s h off = refl
by_key-snowflake_after e s h off = off

snowflake_event-IsAbsent :
    (e : SnowflakeEvent) (form : Form SnowflakeState)
    → keeps_password e ≡ true
    → IsAbsent snowflake_fields key_file form
    → IsAbsent snowflake_fields key_file (snowflake_event e form)
snowflake_event-IsAbsent e form h s = elim (Bool-cases (possible e form.state)) [
  | inl can ↦
      subst (IsAbsent snowflake_fields key_file) (sym (snowflake_event-possible e form can)) (
        IsAbsent-change_to snowflake_fields key_file (snowflake_after e form.state) form key_file-In
          snowflake_fields-IsDistinct (by_key-snowflake_after e form.state h s.1) s)
  | inr cannot ↦
      subst (IsAbsent snowflake_fields key_file) (sym (snowflake_event-impossible e form cannot)) s
]

file_ne_refl : (f : Option FileValue) → file_ne f f ≡ false
unfolding file_ne
file_ne_refl none = refl
file_ne_refl (some f) = rw (text_eq_refl f.content, ==_refl f.size) refl

pick_password-quiet :
    (s : SnowflakeState) → reacts s (snowflake_after (pick_by_key false) s) key_file ≡ false
unfolding snowflake_after
pick_password-quiet s =
    let count : _ = length (file_errors (200 * 1024 * 1024) s.key_missing s.file) in
    rw (file_ne_refl s.file, ==_refl count) (ground arith)

pick_password-IsAbsent :
    (form : Form SnowflakeState)
    → IsCurrent snowflake_fields form
    → form.state.by_key ≡ true
    → valid key_file form.state ≡ false
    → IsAbsent snowflake_fields key_file (snowflake_event (pick_by_key false) form)
pick_password-IsAbsent form c on missing =
    let new : SnowflakeState = snowflake_after (pick_by_key false) form.state in
    subst (IsAbsent snowflake_fields key_file)
      (sym (snowflake_event-possible (pick_by_key false) form refl))
      (change_to-IsAbsent snowflake_fields key_file new form key_file-In snowflake_fields-IsDistinct
        (IsReady-IsCurrent snowflake_fields new form c)
        (entry-IsCurrent snowflake_fields key_file form key_file-In c on missing)
        (pick_password-quiet form.state) (unfold snowflake_after in refl))

-- A form of Snowflake that asks for a private key, and has none or one that is too large, does not
-- count as valid once the user has gone over to a password, whatever is filled in afterwards, until
-- the user goes back to the key.
pub is_valid-pick_password :
    (es es' : List SnowflakeEvent) (s : SnowflakeState)
    → let form = runs snowflake_event es (snowflake_open s) in
      form.state.by_key ≡ true
      → valid key_file form.state ≡ false
      → all keeps_password es' ≡ true
      → (runs snowflake_event es' (snowflake_event (pick_by_key false) form)).is_valid ≡ false
is_valid-pick_password es es' s on missing keeps =
    let form : Form SnowflakeState = runs snowflake_event es (snowflake_open s) in
    let current : IsCurrent snowflake_fields form =
      runs-keeps (IsCurrent snowflake_fields) snowflake_event snowflake_event-IsCurrent es
        (snowflake_open s) (snowflake_open-IsCurrent s) in
    is_valid-IsAbsent snowflake_fields key_file _ key_file-In (
      runs-keeps_if (IsAbsent snowflake_fields key_file) keeps_password snowflake_event
        snowflake_event-IsAbsent es' (snowflake_event (pick_by_key false) form) keeps
        (pick_password-IsAbsent form current on missing))
