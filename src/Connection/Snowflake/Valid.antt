-- ===== src/Connection/Snowflake/Valid.antt =====
-- What the form of Snowflake counts as valid.
use mathlib.Core.Path.{subst}
use dataops_testgen.Base.{
  ◌≡◌, refl, sym, ap, true, false, List, All, if◌then◌else◌, Bool-cases, inl, inr,
}
use dataops_testgen.Inputs.{Form, valid, change_to, runs}
use dataops_testgen.Inputs.Reports.{IsDistinct, IsCurrent, runs-keeps}
use dataops_testgen.Inputs.Current.{change_to-IsCurrent, open_form-IsCurrent, valid-IsCurrent}
use dataops_testgen.Connection.Snowflake.{
  SnowflakeState, SnowflakeEvent, snowflake_fields, snowflake_after, snowflake_event,
  snowflake_open, possible,
}

pub snowflake_fields-IsDistinct : IsDistinct snowflake_fields
unfolding snowflake_fields
snowflake_fields-IsDistinct =
    (refl, (refl, (refl, (refl, (refl, (refl, (refl, (refl, (refl, tt)))))))))

pub snowflake_event-possible :
    (e : SnowflakeEvent) (form : Form SnowflakeState)
    → possible e form.state ≡ true
    → snowflake_event e form ≡ change_to snowflake_fields (snowflake_after e form.state) form
unfolding snowflake_event
snowflake_event-possible e form h =
    ap (λ b. if b then change_to snowflake_fields (snowflake_after e form.state) form else form) h

pub snowflake_event-impossible :
    (e : SnowflakeEvent) (form : Form SnowflakeState)
    → possible e form.state ≡ false
    → snowflake_event e form ≡ form
unfolding snowflake_event
snowflake_event-impossible e form h =
    ap (λ b. if b then change_to snowflake_fields (snowflake_after e form.state) form else form) h

pub snowflake_event-IsCurrent :
    (e : SnowflakeEvent) (form : Form SnowflakeState)
    → IsCurrent snowflake_fields form
    → IsCurrent snowflake_fields (snowflake_event e form)
snowflake_event-IsCurrent e form c = elim (Bool-cases (possible e form.state)) [
  | inl h ↦ subst (IsCurrent snowflake_fields) (sym (snowflake_event-possible e form h)) (
      change_to-IsCurrent snowflake_fields (snowflake_after e form.state) form
        snowflake_fields-IsDistinct c)
  | inr h ↦ subst (IsCurrent snowflake_fields) (sym (snowflake_event-impossible e form h)) c
]

pub snowflake_open-IsCurrent : (s : SnowflakeState) → IsCurrent snowflake_fields (snowflake_open s)
unfolding snowflake_open snowflake_fields
snowflake_open-IsCurrent s =
    open_form-IsCurrent snowflake_fields false s snowflake_fields-IsDistinct refl

-- After any changes, a form of Snowflake that counts as valid shows no input with an error.
pub shown_valid-snowflake_event :
    (es : List SnowflakeEvent) (s : SnowflakeState)
    → let form = runs snowflake_event es (snowflake_open s) in
      form.is_valid ≡ true
      → All (λ f. f.shown form.state ≡ true → valid f form.state ≡ true) snowflake_fields
shown_valid-snowflake_event es s h =
    valid-IsCurrent snowflake_fields _
      (runs-keeps (IsCurrent snowflake_fields) snowflake_event snowflake_event-IsCurrent es
        (snowflake_open s) (snowflake_open-IsCurrent s))
      h
