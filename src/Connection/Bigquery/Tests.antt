-- ===== src/Connection/Bigquery/Tests.antt =====
-- Runs of the form of BigQuery, where a key is the text of its project.
use dataops_testgen.Base.{◌*◌, ◌≡◌, refl, Bool, true, false, Option, none, some, [], ◌∷◌}
use dataops_testgen.Base.Text.{split_by, Text, codes}
use dataops_testgen.Connection.Files.{FileValue}
use dataops_testgen.Connection.Bigquery.{BigqueryState, key_file_valid, choose_file}
use dataops_testgen.Connection.Bigquery.Valid.{reported-choose_file}

abbrev read_key : Text → Option Text
read_key [] = none
read_key (c ∷ t) = some (c ∷ t)

-- Every key is new.
abbrev never : Text → Text → Bool
never a b = false

abbrev large_file : FileValue
large_file = record { content = codes "data:,p1"; size = 30 * 1024 }

abbrev empty_form : BigqueryState Text
empty_form = record {
  key = [];
  project = [];
  file = none;
  is_valid = false;
  reported = false;
  key_missing = true;
}

reported-choose_file_example :
    ((choose_file read_key never (λ k. k) (some large_file) empty_form).reported ≡ true)
    × ((choose_file read_key never (λ k. k) (some large_file) empty_form).is_valid ≡ false)
    × (key_file_valid true (some large_file) ≡ false)
unfolding split_by
reported-choose_file_example =
    reported-choose_file read_key never (λ k. k) large_file (codes "p1") empty_form refl refl refl
      refl
