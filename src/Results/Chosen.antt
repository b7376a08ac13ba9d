-- ===== src/Results/Chosen.antt =====
-- The selection as a predicate on ids.
use mathlib.Core.Path.{fun_ext}
use dataops_testgen.Base.{
  ℕ, ◌≡◌, Bool, false, not, ◌&&◌, ◌||◌, Option, none, some, List, [], ◌∷◌, any, if◌then◌else◌, ◌<◌,
  ◌↔◌, ◌⊎◌, true, String, ◌==◌, str_eq, get_elem?,
}
use dataops_testgen.Results.{
  item_ids, Page, PageEvent, set_multi, set_all, pick, arrive, turn, filter_by,
}
use dataops_testgen.Results.Sets.{has}
use dataops_testgen.Results.Counts.{AtLeast}

-- What a user sees of the selection: the ids of the page, and whether an id is selected, on this
-- page or another.
pub record Choice : Type 0 where
  pub page : List String
  pub total : ℕ
  pub page_size : ℕ
  pub multi : Bool
  pub all : Bool
  pub chosen : String → Bool

unfoldable pub view : Page → Choice
view s = record {
  page = item_ids s.items;
  total = s.total;
  page_size = s.page_size;
  multi = s.multi;
  all = s.select_all;
  chosen = λ id. has id s.restore;
}

abbrev pub is_at : Option String → String → Bool
is_at none id = false
is_at (some x) id = str_eq x id

-- The id stands on the page at one of the indices.
abbrev pub at_one : List String → List ℕ → String → Bool
at_one page idxs id = any (λ i. is_at (get_elem? page i) id) idxs

abbrev pub adding : Bool → List String → (String → Bool) → String → Bool
adding b page f id = if b then has id page || f id else f id

-- What a report of the table decides.
abbrev pub after_report : Choice → List ℕ → String → Bool
after_report c idxs id = if c.multi && has id c.page then at_one c.page idxs id else c.chosen id

-- The state that the header's box takes after an action. A report of the table in the multi-selection
-- ticks it exactly if it was ticked and each row of the page is reported, or there are rows and as
-- many ids are selected.
abbrev pub IsBox : PageEvent → Choice → Bool → Type 0
IsBox (set_multi b) c all = all ≡ (b && (c.multi && c.all))
IsBox (set_all b) c all = all ≡ (if c.multi then b else c.all)
IsBox (pick idxs) c all =
    (c.multi ≡ false → all ≡ c.all)
    × (c.multi ≡ true
        → (all ≡ true) ↔ (
            (c.all ≡ true) × ((id : String) → has id c.page ≡ true → at_one c.page idxs id ≡ true)
            ⊎ (0 < c.total) × AtLeast c.total (after_report c idxs)))
IsBox _ c all = all ≡ c.all

-- An action on the predicate; `all` is the state of the header's box after it.
abbrev pub choose : PageEvent → Bool → Choice → Choice
choose (set_multi b) all c = record c { multi = b; all = all; chosen = λ id. b && c.chosen id }
choose (set_all b) all c = record c {
  all = all;
  chosen = λ id. if c.multi then b && (has id c.page || c.chosen id) else c.chosen id;
}
choose (pick idxs) all c = record c {
  all = all;
  chosen = adding (c.multi && all && not c.all) c.page (after_report c idxs);
}
choose (arrive items total size) all c = record c {
  page = item_ids items;
  total = total;
  page_size = size;
  all = all;
  chosen = adding (c.multi && c.all) (item_ids items) c.chosen;
}
choose (turn idx size) all c = record c {
  all = all;
  chosen = λ id. (size == c.page_size || c.all) && c.chosen id;
}
choose (filter_by f) all c = record c { all = all }

-- The second selection is what the actions make of the first.
abbrev pub Replays : List PageEvent → Choice → Choice → Type 0
Replays [] c d = d ≡ c
Replays (a ∷ actions) c d = (all : Bool) × IsBox a c all × Replays actions (choose a all c) d

pub view_eq :
    (s : Page) (c : Choice)
    → item_ids s.items ≡ c.page
    → s.total ≡ c.total
    → s.page_size ≡ c.page_size
    → s.multi ≡ c.multi
    → s.select_all ≡ c.all
    → ((id : String) → has id s.restore ≡ c.chosen id)
    → view s ≡ c
unfolding view
view_eq s c p n z m a f = λ i. record {
  page = p i;
  total = n i;
  page_size = z i;
  multi = m i;
  all = a i;
  chosen = fun_ext f i;
}
