-- ===== src/Connection/Files.antt =====
-- The files that the forms of Snowflake and BigQuery read (`FileValue`), and their validators.
use dataops_testgen.Base.{
  ℕ, Bool, true, false, not, ◌&&◌, Option, none, some, List, [], ◌∷◌, ◌==◌, if◌then◌else◌,
}
use dataops_testgen.Base.Text.{Text, text_eq, split_by}
use dataops_testgen.Validators.{required_error, size_limit}

pub record FileValue : Type 0 where
  pub content : Text
  pub size : ℕ

-- `requiredIf` and `sizeLimit`
unfoldable pub file_errors : ℕ → Bool → Option FileValue → List Text
unfolding size_limit
file_errors limit key_missing none = if key_missing then required_error ∷ [] else []
file_errors limit key_missing (some f) = elim (size_limit limit (some f.size)) [
  | none ↦ []
  | some e ↦ e ∷ []
]

-- Two files are one only if none is new.
unfoldable pub file_ne : Option FileValue → Option FileValue → Bool
file_ne none none = false
file_ne (some f) (some g) = not (text_eq f.content g.content && f.size == g.size)
file_ne _ _ = true

abbrev second_part : List Text → Text
second_part (x ∷ y ∷ xs) = y
second_part _ = []

-- `value.content.split(',')?.[1] ?? ''`
abbrev pub file_data : FileValue → Text
file_data f = second_part (split_by (λ c. c == b',') f.content)
