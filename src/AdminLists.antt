-- ===== src/AdminLists.antt =====
-- frontend/app/(dashboard)/admin/users/page.tsx and admin/projects/page.tsx: the lists of the
-- administration, their filters and pages. A filter is a text, empty where it is not set; `A` is the
-- type of an entry of the list.
pub mod Paging
pub mod Labels
mod Tests
use dmtool.Base.{
  ℕ, ◌+◌, ◌-◌, ◌*◌, Bool, true, false, not, ◌&&◌, ◌||◌, List, [], ◌∷◌, map, filter, length, Option,
  none, some, Text, is_empty, ltb, leb, ◌==◌, if◌then◌else◌, Outcome, threw, returned,
}

abbrev pub size : ℕ
size = 25

-- The user list is filtered by role, mode, status and plan, the list of projects by goal and health.
pub data UserFilter : Type 0 where
  role mode status plan : UserFilter

pub data ProjectFilter : Type 0 where
  goal health : ProjectFilter

-- `F` names the filters.
pub record ListPage (F : Type 0) (A : Type 0) : Type 0 where
  pub entries : List A
  pub total : ℕ
  pub search : Text
  pub filters : F → Text
  pub loading : Bool
  pub page : ℕ
  pub show_filters : Bool

-- `x || undefined`.
abbrev pub or_undefined : Text → Option Text
or_undefined t = if is_empty t then none else some t

-- What a list asks the API for.
pub record Query (F : Type 0) : Type 0 where
  pub page : ℕ
  pub size : ℕ
  pub search : Option Text
  pub filters : F → Option Text

pub record Reply (A : Type 0) : Type 0 where
  pub entries : List A
  pub total : ℕ

module _ {F : Type 0} {A : Type 0} where
  unfoldable pub query : ListPage F A → Query F
  query s = record {
    page = s.page;
    size = size;
    search = or_undefined s.search;
    filters = λ f. or_undefined (s.filters f);
  }

  abbrev pub answered : Outcome (Reply A) → ListPage F A → ListPage F A
  answered threw s = s
  answered (returned r) s = record s { entries = r.entries; total = r.total }

  -- `fetchUsers` and `fetchProjects`, for the answer.
  unfoldable pub fetch : (Query F → Outcome (Reply A)) → ListPage F A → ListPage F A
  unfolding query
  fetch api s = record (answered (api (query s)) s) { loading = false }

-- What the user does: a button that is disabled does nothing, and the pages can be turned only where
-- there is more than one.
pub data Event (F : Type 0) : Type 0 where
  set_search : Text → Event F
  set_filter : F → Text → Event F
  clear_filters toggle_filters prev next : Event F

abbrev pub put : {F : Type 0} → (F → F → Bool) → F → Text → (F → Text) → F → Text
put same f t filters g = if same f g then t else filters g

-- The buttons `Prev` and `Next`.
abbrev pub prev_enabled : ℕ → ℕ → Bool
prev_enabled page total = ltb size total && not (page == 1)

abbrev pub next_enabled : ℕ → ℕ → Bool
next_enabled page total = ltb size total && not (leb total (page * size))

module _ {F : Type 0} (same : F → F → Bool) {A : Type 0} where
  unfoldable pub handle : Event F → ListPage F A → ListPage F A
  handle (set_search t) s = record s { search = t; page = 1 }
  handle (set_filter f t) s = record s { filters = put same f t s.filters; page = 1 }
  handle clear_filters s = record s { filters = λ f. []; page = 1 }
  handle toggle_filters s = record s { show_filters = not s.show_filters }
  handle prev s =
      if prev_enabled s.page s.total
      then record s { page = if leb (s.page - 1) 1 then 1 else s.page - 1 }
      else s
  handle next s = if next_enabled s.page s.total then record s { page = s.page + 1 } else s

  -- The event changes what the list is asked for; a text that is set is another than before.
  abbrev pub changes : Event F → ListPage F A → Bool
  changes toggle_filters s = false
  changes prev s = prev_enabled s.page s.total
  changes next s = next_enabled s.page s.total
  changes _ s = true

  -- The effect of the page: where what is asked for changes, the list is read again.
  abbrev pub settle : (Query F → Outcome (Reply A)) → Bool → ListPage F A → ListPage F A
  settle api false s = s
  settle api true s = fetch api (record s { loading = true })

  unfoldable pub step : (Query F → Outcome (Reply A)) → Event F → ListPage F A → ListPage F A
  unfolding handle fetch
  step api e s = settle api (changes e s) (handle e s)

  unfoldable pub run : (Query F → Outcome (Reply A)) → List (Event F) → ListPage F A → ListPage F A
  unfolding step
  run api [] s = s
  run api (e ∷ es) s = run api es (step api e s)

-- The page as it opens, with the filters that the address sets.
unfoldable pub opened : {F : Type 0} {A : Type 0} → (F → Text) → ListPage F A
opened filters = record {
  entries = [];
  total = 0;
  search = [];
  filters = filters;
  loading = true;
  page = 1;
  show_filters = false;
}

-- `Showing {first}–{last} of {total}`.
unfoldable pub first_shown : {F : Type 0} {A : Type 0} → ListPage F A → ℕ
first_shown s = (s.page - 1) * size + 1

unfoldable pub last_shown : {F : Type 0} {A : Type 0} → ListPage F A → ℕ
last_shown s = if leb (s.page * size) s.total then s.page * size else s.total
