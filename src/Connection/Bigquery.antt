-- ===== src/Connection/Bigquery.antt =====
-- `BigqueryForm`, over the values that `JSON.parse` gives: `parse` is `JSON.parse(atob(...))`, or none
-- where this throws, `same` is `===`, and `project_id` is `key?.project_id ?? ''`. A state that changes
-- in a round of derives counts as settled once the markup is built again: what the new input for
-- the file writes to it then is passed on only if the round had left it as it was before.
pub mod Valid
mod Tests
use dataops_testgen.Base.{
  ℕ, ◌*◌, Bool, true, false, not, Option, none, some, List, [], ◌∷◌, length, ◌==◌, if◌then◌else◌,
  bool_ne,
}
use dataops_testgen.Base.Text.{Text, is_empty}
use dataops_testgen.Connection.Files.{FileValue, file_errors, file_data}

pub record BigqueryState (Key : Type 0) : Type 0 where
  -- `serviceAccountKey`
  pub key : Key
  -- `projectId`
  pub project : Text
  pub file : Option FileValue
  pub is_valid : Bool
  -- the validity that `onChange` was last given
  pub reported : Bool
  -- whether the connection was saved without a key, or not at all
  pub key_missing : Bool

-- `state.valid` of the input for the file
abbrev pub key_file_valid : Bool → Option FileValue → Bool
key_file_valid key_missing f = length (file_errors (20 * 1024) key_missing f) == 0

module _ {Key : Type 0} (parse : Text → Option Key) (same : Key → Key → Bool)
    (project_id : Key → Text) where
  -- what runs when the key is another one than before, after the handler that has set it
  unfoldable pub key_changed : BigqueryState Key → BigqueryState Key
  key_changed s = record s {
    project = project_id s.key;
    is_valid = not (is_empty (project_id s.key));
  }

  -- `onChange` of the input for the file
  unfoldable pub handle_file : Option FileValue → BigqueryState Key → BigqueryState Key
  handle_file none s = record s { file = none; is_valid = key_file_valid s.key_missing none }
  handle_file (some f) s =
      let chosen : BigqueryState Key = record s {
        file = some f;
        is_valid = key_file_valid s.key_missing (some f);
      } in
      if is_empty f.content then chosen else elim (parse (file_data f)) [
        | none ↦ record chosen { is_valid = false }
        | some k ↦ record chosen { key = k }
      ]

  -- The derives that follow it: the one on the key, if this is another one, and `onChange`.
  unfoldable pub settle_file : BigqueryState Key → BigqueryState Key → BigqueryState Key
  unfolding key_changed
  settle_file old s =
      let t : BigqueryState Key = if same s.key old.key then s else key_changed s in
      record t { reported = t.is_valid }

  -- The markup reads the file: it is built again for the new one, and its input calls the handler once
  -- more. The key and, if the derives have changed it, `isValid` are settled by then.
  unfoldable pub choose_file : Option FileValue → BigqueryState Key → BigqueryState Key
  choose_file f s =
      let t : BigqueryState Key = settle_file s (handle_file f s) in
      let u : BigqueryState Key = handle_file f t in
      record u { reported = if bool_ne s.is_valid t.is_valid then t.is_valid else u.is_valid }

  -- The form is built: the project is read from the key, then the input reports the cached file.
  unfoldable pub open_bigquery : Key → Bool → Option FileValue → BigqueryState Key
  unfolding handle_file settle_file
  open_bigquery key key_missing cached =
      let s : BigqueryState Key = record {
        key = key;
        project = project_id key;
        file = cached;
        is_valid = not (is_empty (project_id key));
        reported = not (is_empty (project_id key));
        key_missing = key_missing;
      } in
      settle_file s (handle_file cached s)
