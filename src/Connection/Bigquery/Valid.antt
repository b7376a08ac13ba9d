-- ===== src/Connection/Bigquery/Valid.antt =====
-- The files that the form of BigQuery takes.
use dataops_testgen.Base.{
  ◌*◌, ◌≡◌, refl, Bool, true, false, not, ◌&&◌, arith, bool_ne, Option, none, some, [], ◌∷◌, length,
  ltb, ◌==◌, if◌then◌else◌,
}
use dataops_testgen.Base.Text.{Text, is_empty}
use dataops_testgen.Validators.{size_limit}
use dataops_testgen.Connection.Files.{FileValue, file_errors, file_data}
use dataops_testgen.Connection.Bigquery.{
  BigqueryState, key_file_valid, key_changed, handle_file, settle_file, choose_file,
}

large_step :
    (b : Bool) (e : Text)
    → b ≡ true
    → (length (elim (if b then some e else none) [ none ↦ [] | some x ↦ x ∷ [] ]) == 0) ≡ false
large_step true e h = refl
large_step false e h = cc

too_large :
    (f : FileValue) (key_missing : Bool)
    → ltb (20 * 1024) f.size ≡ true
    → key_file_valid key_missing (some f) ≡ false
unfolding file_errors size_limit
too_large f key_missing large = large_step (ltb (20 * 1024) f.size) _ large

passed : (p old : Bool) → (if bool_ne old p then p else false) ≡ (p && not old)
passed p old = ground arith

module _ {Key : Type 0} (parse : Text → Option Key) (same : Key → Key → Bool)
    (project_id : Key → Text) where
  handle_file-new :
      (f : FileValue) (k : Key) (s : BigqueryState Key)
      → is_empty f.content ≡ false
      → parse (file_data f) ≡ some k
      → handle_file parse same project_id (some f) s
        ≡ record s { file = some f; is_valid = key_file_valid s.key_missing (some f); key = k }
  unfolding handle_file
  handle_file-new f k s e ok = rw (e, ok) refl

  settle_file-new :
      (old s : BigqueryState Key)
      → same s.key old.key ≡ false
      → settle_file parse same project_id old s ≡ record s {
        project = project_id s.key;
        is_valid = not (is_empty (project_id s.key));
        reported = not (is_empty (project_id s.key));
      }
  unfolding settle_file key_changed
  settle_file-new old s new = rw new refl

  -- When a file over 20 KB whose content is read as a new object is chosen, the form of BigQuery reports
  -- itself valid exactly when the object has a project and the form did not count as valid before,
  -- although the input for the file shows an error and the form's own `isValid` ends false.
  pub reported-choose_file :
      (f : FileValue) (k : Key) (s : BigqueryState Key)
      → is_empty f.content ≡ false
      → parse (file_data f) ≡ some k
      → same k s.key ≡ false
      → ltb (20 * 1024) f.size ≡ true
      → ((choose_file parse same project_id (some f) s).reported
          ≡ (not (is_empty (project_id k)) && not s.is_valid))
        × ((choose_file parse same project_id (some f) s).is_valid ≡ false)
        × (key_file_valid s.key_missing (some f) ≡ false)
  unfolding choose_file
  reported-choose_file f k s e ok new large =
      let shut : key_file_valid s.key_missing (some f) ≡ false = too_large f s.key_missing large in
      rw
        (
          handle_file-new f k s e ok,
          settle_file-new s
              (record s {
                file = some f;
                is_valid = key_file_valid s.key_missing (some f);
                key = k;
              })
              new,
          handle_file-new f k
              (record s {
                file = some f;
                key = k;
                project = project_id k;
                is_valid = not (is_empty (project_id k));
                reported = not (is_empty (project_id k));
              })
              e ok,
          shut,
        )
        (passed (not (is_empty (project_id k))) s.is_valid, refl, refl)
