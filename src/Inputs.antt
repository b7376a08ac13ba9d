-- ===== src/Inputs.antt =====
-- The inputs of a form (testgen/ui/static/js/components/input.js and file_input.js), and the
-- entries `validityPerField` of a form that collects what they report.
--
-- An input validates its value again whenever this or a state that a validator reads changes, and
-- calls `onChange` if its value or the number of its errors is another one than before; one whose
-- markup is built calls it at once. VanJS runs what depends on a change first and builds markup
-- afterwards, so that an input that is taken away still reports on the change that does it.
pub mod Reports
pub mod Current
pub mod Errors
pub mod Entries
pub mod Kept
use dataops_testgen.Base.{
  ℕ, Bool, true, false, not, ◌&&◌, ◌||◌, Option, none, some, List, [], ◌∷◌, all, length, ◌==◌,
  String, str_eq, or_default, if◌then◌else◌,
}
use dataops_testgen.Base.Text.{Text, text_eq, is_empty}
use dataops_testgen.Validators.{Validator}

-- `validators.map(v => v(value.val)).filter(error => error)`
unfoldable pub errors_of : List Validator → Text → List Text
errors_of [] value = []
errors_of (v ∷ vs) value =
    let rest = errors_of vs value in elim (v value) [ none ↦ rest | some e ↦ e ∷ rest ]

-- An input over the states `S` of its form.
pub record Field (S : Type 0) : Type 0 where
  -- its key among the entries
  pub name : String
  -- whether it is in the markup
  pub shown : S → Bool
  -- whether a change builds its markup again
  pub rebuilt : S → S → Bool
  -- `value.val !== value.oldVal`
  pub changed : S → S → Bool
  pub errors : S → List Text

pub record Form (S : Type 0) : Type 0 where
  pub state : S
  -- `validityPerField`, whose keys are names of fields
  pub validity : String → Option Bool
  pub is_valid : Bool

abbrev pub put_entry : (String → Option Bool) → String → Option Bool → String → Option Bool
put_entry m name b k = if str_eq k name then b else m k

module _ {S : Type 0} where
  -- `state.valid`: `errors.val.length <= 0`
  abbrev pub valid : Field S → S → Bool
  valid f s = length (f.errors s) == 0

  -- `Object.values(validityPerField).every(v => v)`
  abbrev pub every : List (Field S) → (String → Option Bool) → Bool
  every fields m = all (λ f. or_default (m f.name) true) fields

  -- The `onChange` of an input.
  abbrev pub report : List (Field S) → Field S → S → Form S → Form S
  report fields f s form = record {
    state = form.state;
    validity = put_entry form.validity f.name (some (valid f s));
    is_valid = every fields (put_entry form.validity f.name (some (valid f s)));
  }

  abbrev pub report_if : List (Field S) → (Field S → Bool) → S → Field S → Form S → Form S
  report_if fields test s f form = if test f then report fields f s form else form

  -- The inputs of a list that meet a test report, one after the other.
  unfoldable pub reports : List (Field S) → (Field S → Bool) → S → List (Field S) → Form S → Form S
  reports fields test s [] form = form
  reports fields test s (f ∷ fs) form = reports fields test s fs (report_if fields test s f form)

  -- the derive of an input in the markup
  abbrev pub reacts : S → S → Field S → Bool
  reacts old new f =
      f.shown old && (f.changed old new || not (length (f.errors new) == length (f.errors old)))

  -- an input whose markup is built
  abbrev pub mounts : S → S → Field S → Bool
  mounts old new f = f.shown new && (not (f.shown old) || f.rebuilt old new)

  -- The states change, by a handler of an input or of another element.
  unfoldable pub change_to : List (Field S) → S → Form S → Form S
  change_to fields new form =
      reports fields (mounts form.state new) new fields
        (reports fields (reacts form.state new) new fields (record form { state = new }))

  -- The form is built: `isValid` starts as given, without entries.
  unfoldable pub open_form : List (Field S) → Bool → S → Form S
  open_form fields start s =
      reports fields (λ f. f.shown s) s fields
        (record { state = s; validity = λ name. none; is_valid = start })

-- One change after the other.
unfoldable pub runs : {E F : Type 0} → (E → F → F) → List E → F → F
runs step [] form = form
runs step (e ∷ es) form = runs step es (step e form)

-- An `Input` over a text of the form, in the markup where `shown` says so.
abbrev pub input :
    {S : Type 0}
    → String
    → (S → Bool)
    → (S → S → Bool)
    → (S → Text)
    → (S → List Validator)
    → Field S
input name shown rebuilt value validators = record {
  name = name;
  shown = shown;
  rebuilt = rebuilt;
  changed = λ old new. not (text_eq (value new) (value old));
  errors = λ s. errors_of (validators s) (value s);
}

-- An `Input` that is always in the markup.
abbrev pub fixed_input : {S : Type 0} → String → (S → Text) → (S → List Validator) → Field S
fixed_input name value validators = input name (λ s. true) (λ old new. false) value validators
