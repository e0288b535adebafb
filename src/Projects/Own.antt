-- ===== src/Projects/Own.antt =====
-- The `fetchData` and `handleSync` of each page: the shared ones at the page's own load.
use dmtool.Base.{ℕ, List, Option, none, some, Text, Outcome}
use dmtool.Projects.{LocalStorage, Project, Page, fetch_data, handle_sync}
use dmtool.Projects.Pages.{TrafficApi, Traffic, load_traffic, load_ranks}
use dmtool.Projects.Networks.{GrowthApi, Growth, load_growth, ProfileApi, Profile, load_profile}

module _ (store : LocalStorage) where
  abbrev pub Fetch : Type 0 → Type 0
  Fetch D = Option ℕ → Outcome (Option (List Project)) → store.State × Page D → store.State × Page D

  abbrev pub Sync : Type 0 → Type 0
  Sync D =
      Outcome (Unit {0})
      → Outcome (Option (List Project))
      → store.State × Page D
      → store.State × Page D

  abbrev pub fetch_traffic : {T : Type 0} → TrafficApi T → Fetch (Traffic T)
  fetch_traffic api = fetch_data store (load_traffic store api)

  abbrev pub sync_traffic : {T : Type 0} → TrafficApi T → Sync (Traffic T)
  sync_traffic api reply again (s, w) =
      handle_sync store (load_traffic store api) w.project reply again (s, w)

  abbrev pub project_id : Option Project → Option ℕ
  project_id none = none
  project_id (some p) = some p.id

  -- The number of days that the user picks is a number of the list.
  abbrev pub handle_days_change :
      {T : Type 0}
      → TrafficApi T
      → ℕ
      → Outcome (Option (List Project))
      → store.State × Page (Traffic T)
      → store.State × Page (Traffic T)
  handle_days_change api d again (s, w) =
      fetch_traffic api (project_id w.project) again
        (s, record w { content = record (w.content) { days = d } })

  abbrev pub fetch_ranks : {R : Type 0} → (ℕ → Outcome (Option R)) → Fetch (Option R)
  fetch_ranks get_rank_tracking = fetch_data store (load_ranks store get_rank_tracking)

  abbrev pub sync_ranks : {R : Type 0} → (ℕ → Outcome (Option R)) → Sync (Option R)
  sync_ranks get_rank_tracking reply again (s, w) =
      handle_sync store (load_ranks store get_rank_tracking) w.project reply again (s, w)

  abbrev pub fetch_growth : GrowthApi → Fetch Growth
  fetch_growth api = fetch_data store (load_growth store api)

  abbrev pub sync_growth : GrowthApi → Sync Growth
  sync_growth api reply again (s, w) =
      handle_sync store (load_growth store api) w.project reply again (s, w)

  abbrev pub fetch_profile : (Text → Text) → ProfileApi → Fetch Profile
  fetch_profile to_lower api = fetch_data store (load_profile to_lower store api)
