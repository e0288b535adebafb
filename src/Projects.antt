-- ===== src/Projects.antt =====
-- The project that the pages share: app/(dashboard)/analytics/traffic/page.tsx, seo/rank-tracking,
-- social/growth and social/profile-analyzer of frontend/app/(dashboard) read the list of projects
-- and choose one by the number that `localStorage` keeps. The storage is a parameter.
pub mod Choice
pub mod Latest
pub mod Pages
pub mod Networks
pub mod Own
pub mod Digits
pub mod Keeping
pub mod Syncing
pub mod Memory
mod Tests
use dmtool.Base.{
  ℕ, zero, suc, ◌≡◌, ◌≢◌, Bool, true, false, List, [], ◌∷◌, Option, none, some, Text, codes,
  text_eq, is_empty, any, ◌==◌, if◌then◌else◌, Outcome, threw, returned,
}
use dmtool.Api.{show}
use dmtool.Calendar.Numbers.{Parsed, plus, parse_int}

-- `localStorage`: a read and a write may throw, as they do where the browser blocks the storage.
pub record LocalStorage : Type 1 where
  pub State : Type 0
  pub get_item : Text → State → Outcome (Option Text)
  pub set_item : Text → Text → State → Outcome State
  pub get_item-set_item_same :
      (k v : Text) (s t : State) → set_item k v s ≡ returned t → get_item k t ≡ returned (some v)
  pub get_item-set_item_other :
      (j k v : Text) (s t : State)
      → j ≢ k
      → set_item k v s ≡ returned t
      → get_item j t ≡ get_item j s

pub record Project : Type 0 where
  pub id : ℕ
  pub ig_handle : Option Text
  pub fb_handle : Option Text
  pub facebook_handle : Option Text
  pub twitter_handle : Option Text
  pub linkedin_handle : Option Text

abbrev pub project_key : Text
project_key = codes "dmtool_active_project_id"

abbrev pub platform_key : Text
platform_key = codes "dmtool_active_platform"

-- `list.find(p)`.
unfoldable pub find {ℓ} : {A : Type ℓ} → (A → Bool) → List A → Option A
find p [] = none
find p (x ∷ xs) = if p x then some x else find p xs

abbrev pub or_else {ℓ} : {A : Type ℓ} → Option A → A → A
or_else none d = d
or_else (some a) d = a

-- The last of a list that is not empty.
unfoldable pub last {ℓ} : {A : Type ℓ} → A → List A → A
last p [] = p
last p (q ∷ qs) = last q qs

-- `localStorage.getItem(…) || "0"`, as a number; a read that throws leaves `null`.
abbrev pub or_zero : Option Text → Text
or_zero none = codes "0"
or_zero (some t) = if is_empty t then codes "0" else t

abbrev pub saved_id : Outcome (Option Text) → Option Parsed
saved_id threw = none
saved_id (returned t) = some (parse_int (or_zero t))

-- `p.id === savedProjectId`.
abbrev pub is_saved : Option Parsed → Project → Bool
is_saved (some (plus n)) p = p.id == n
is_saved _ p = false

unfoldable pub default_project : Option Parsed → Project → List Project → Project
unfolding find last
default_project saved p ps = or_else (find (is_saved saved) (p ∷ ps)) (last p ps)

-- The number asked for, where it is there and not 0, before the default.
unfoldable pub choose : Option ℕ → Option Parsed → Project → List Project → Project
unfolding find default_project
choose none saved p ps = default_project saved p ps
choose (some zero) saved p ps = default_project saved p ps
choose (some (suc n)) saved p ps =
    or_else (find (λ q. q.id == suc n) (p ∷ ps)) (default_project saved p ps)

-- What every one of these pages holds, with what it shows of the project.
pub record Page (D : Type 0) : Type 0 where
  pub projects : List Project
  pub project : Option Project
  pub content : D
  pub loading : Bool
  pub syncing : Bool

abbrev pub or_none {ℓ} : {A : Type ℓ} → Option (List A) → List A
or_none none = []
or_none (some xs) = xs

-- What a page does with the project that was chosen.
abbrev pub Load : LocalStorage → Type 0 → Type 0
Load store D = Project → store.State × D → store.State × D

module _ (store : LocalStorage) {D : Type 0} where
  abbrev pub with_data : Page D → store.State × D → store.State × Page D
  with_data w (s, d) = (s, record w { content = d })

  abbrev pub chosen :
      Load store D → Project → Outcome store.State → store.State × Page D → store.State × Page D
  chosen load p threw (s, w) = (s, w)
  chosen load p (returned t) (s, w) =
      with_data (record w { project = some p }) (load p (t, w.content))

  abbrev pub choose_project :
      Load store D → Option ℕ → List Project → store.State × Page D → store.State × Page D
  choose_project load target [] (s, w) = (s, w)
  choose_project load target (p ∷ ps) (s, w) =
      let q = choose target (saved_id (store.get_item project_key s)) p ps in
      chosen load q (store.set_item project_key (show q.id) s) (s, w)

  abbrev pub listed :
      Load store D
      → Option ℕ
      → Outcome (Option (List Project))
      → store.State × Page D
      → store.State × Page D
  listed load target threw (s, w) = (s, w)
  listed load target (returned ps) (s, w) =
      choose_project load target (or_none ps) (s, record w { projects = or_none ps })

  abbrev pub stop_loading : store.State × Page D → store.State × Page D
  stop_loading (s, w) = (s, record w { loading = false })

  -- `fetchData`, for the answer with the projects; whatever throws, the page stops loading.
  unfoldable pub fetch_data :
      Load store D
      → Option ℕ
      → Outcome (Option (List Project))
      → store.State × Page D
      → store.State × Page D
  unfolding choose
  fetch_data load target reply (s, w) =
      stop_loading (listed load target reply (s, record w { loading = true }))

  abbrev pub synced :
      Load store D
      → ℕ
      → Outcome (Unit {0})
      → Outcome (Option (List Project))
      → store.State × Page D
      → store.State × Page D
  synced load i threw again (s, w) = (s, w)
  synced load i (returned _) again (s, w) = fetch_data load (some i) again (s, w)

  abbrev pub stop_syncing : store.State × Page D → store.State × Page D
  stop_syncing (s, w) = (s, record w { syncing = false })

  -- `handleSync`, for the answer to the sync and that with the projects behind it.
  unfoldable pub handle_sync :
      Load store D
      → Option Project
      → Outcome (Unit {0})
      → Outcome (Option (List Project))
      → store.State × Page D
      → store.State × Page D
  unfolding fetch_data
  handle_sync load none reply again (s, w) = (s, w)
  handle_sync load (some p) reply again (s, w) =
      if p.id == 0
      then (s, w)
      else stop_syncing (synced load p.id reply again (s, record w { syncing = true }))
