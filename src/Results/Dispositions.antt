-- ===== src/Results/Dispositions.antt =====
-- The buttons over the rows: what they send, and when they are disabled.
use dataops_testgen.Base.{
  ◌==◌, String, Bool, true, false, not, ◌&&◌, Option, none, some, List, [], ◌∷◌, find, str_eq,
  if◌then◌else◌, ltb, length,
}
use dataops_testgen.Results.{Item, Page, Message}

-- An empty id is no id.
abbrev pub given_id : Option String → Option String
given_id none = none
given_id (some id) = if str_eq id "" then none else some id

abbrev pub row_ids : Option String → List String
row_ids none = []
row_ids (some id) = id ∷ []

-- `getSelectedResultIds`
unfoldable pub selected_ids : Page → List String
selected_ids s = if s.multi && ltb 0 (length s.restore) then s.restore else row_ids (given_id s.row)

abbrev pub find_row : Option String → List Item → Option Item
find_row none items = none
find_row (some id) items = find (λ r. str_eq r.id id) items

-- `selectedRow`
unfoldable pub selected_row : Page → Option Item
selected_row s = find_row (given_id s.row) s.items

-- `onDisposition`
unfoldable pub on_disposition : String → Page → Option Message
unfolding selected_ids
on_disposition status s =
    if s.select_all
    then some (Message.disposition_all s.filters status)
    else if ltb 0 (length (selected_ids s))
    then some (Message.disposition_changed (selected_ids s) status)
    else none

abbrev pub no_failure : Option Item → Bool
no_failure none = true
no_failure (some r) = str_eq r.status "Passed"

-- `disabled` of the four buttons that call it.
unfoldable pub disposition_disabled : Page → Bool
unfolding selected_row
disposition_disabled s =
    if s.multi then not s.select_all && s.count == 0 else no_failure (selected_row s)

abbrev is_missing : Option Item → Bool
is_missing none = true
is_missing (some r) = false

unfoldable pub flag_disabled : Page → Bool
unfolding selected_row
flag_disabled s = not s.select_all && s.count == 0 && is_missing (selected_row s)

abbrev flag_row : Bool → Option Item → Option Message
flag_row value none = none
flag_row value (some r) = elim (given_id r.definition) [
  | none ↦ none
  | some id ↦ some (Message.flag_definitions (id ∷ []) value)
]

-- `onFlag`
unfoldable pub on_flag : Bool → Page → Option Message
unfolding selected_ids selected_row
on_flag value s =
    if s.select_all
    then some (Message.flag_all s.filters value)
    else if ltb 0 s.count
    then some (Message.flag_changed (selected_ids s) value)
    else flag_row value (selected_row s)
