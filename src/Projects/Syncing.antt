-- ===== src/Projects/Syncing.antt =====
-- A sync stays on the project that the page shows.
use dmtool.Base.{
  ℕ, suc, ◌-◌, ◌≡◌, ◌≢◌, refl, sym, ap, ◌∙◌, true, false, List, [], ◌∷◌, Option, none, some,
  Outcome, threw, returned, ◌==◌, ==_iff, arith, Bool-cases, inl, inr,
}
use mathlib.Core.List.{Memᴰ}
use mathlib.Core.Path.{subst}
use dmtool.Api.{show}
use dmtool.Calendar.Numbers.{Parsed}
use dmtool.Projects.{
  LocalStorage, Project, project_key, or_else, saved_id, default_project, choose, Page, Load,
  fetch_data, synced, stop_syncing, handle_sync,
}
use dmtool.Projects.Choice.{IsWritable, find-Memᴰ, fetch_data-chosen}

-- A project that is asked for by its number and listed is chosen.
choose-id :
    (q : Project) (saved : Option Parsed) (p : Project) (ps : List Project)
    → Memᴰ q (p ∷ ps)
    → (n : ℕ) → q.id ≡ suc n
    → (choose (some q.id) saved p ps).id ≡ q.id
unfolding choose
choose-id q saved p ps m n e =
    let (r, f, k, h) = find-Memᴰ (λ x. x.id == suc n) q (p ∷ ps) m ((==_iff q.id (suc n)).1 e) in
    ap (λ i. (choose (some i) saved p ps).id) e
    ∙ ap (λ o. (or_else o (default_project saved p ps)).id) f
    ∙ (==_iff r.id (suc n)).0 h
    ∙ sym e

-- The answer, where it holds any projects, holds that one.
abbrev pub StillLists : Project → Outcome (Option (List Project)) → Type 0
StillLists q (returned (some (p ∷ ps))) = Memᴰ q (p ∷ ps)
StillLists q _ = Unit

-- The page shows a project of that number and nothing is under way.
abbrev pub ShowsStill : {D : Type 0} → Project → Page D → Type 0
ShowsStill q w = (r : Project) × (w.project ≡ some r) × (r.id ≡ q.id) × (w.syncing ≡ false)

module _ (store : LocalStorage) (ok : IsWritable store) {D : Type 0} (load : Load store D) where
  fetch_data-still :
      (q : Project) (n : ℕ) (again : Outcome (Option (List Project))) (s : store.State) (w : Page D)
      → q.id ≡ suc n
      → w.project ≡ some q
      → StillLists q again
      → ShowsStill q (stop_syncing store (fetch_data store load (some q.id) again (s, w))).1
  unfolding fetch_data
  fetch_data-still q n threw s w e h m = (q, h, refl, refl)
  fetch_data-still q n (returned none) s w e h m = (q, h, refl, refl)
  fetch_data-still q n (returned (some [])) s w e h m = (q, h, refl, refl)
  fetch_data-still q n (returned (some (p ∷ ps))) s w e h m =
      let saved = saved_id (store.get_item project_key s) in
      let r = choose (some q.id) saved p ps in
      let (t, k) = ok project_key (show r.id) s in
      let f = fetch_data-chosen store load (some q.id) p ps s t w k in
      (r, ap (λ z. z.1.project) f, choose-id q saved p ps m n e, refl)

  synced-still :
      (q : Project) (n : ℕ) (reply : Outcome (Unit {0})) (again : Outcome (Option (List Project)))
      → (s : store.State) (w : Page D) → q.id ≡ suc n
      → w.project ≡ some q
      → StillLists q again
      → ShowsStill q (stop_syncing store (synced store load q.id reply again (s, w))).1
  synced-still q n threw again s w e h m = (q, h, refl, refl)
  synced-still q n (returned _) again s w e h m = fetch_data-still q n again s w e h m

-- Where the storage takes writes: a sync of the project that the page shows ends with a project of
-- the same number on the page and the button free, whether the sync or the read behind it fails or
-- not; only, where that read lists any projects, the project must be among them. Its number is not 0.
pub handle_sync-ShowsStill :
    (store : LocalStorage)
    → IsWritable store
    → {D : Type 0} (load : Load store D) (q : Project) (reply : Outcome (Unit {0}))
    → (again : Outcome (Option (List Project))) (s : store.State) (w : Page D) → q.id ≢ 0
    → w.project ≡ some q
    → StillLists q again
    → ShowsStill q (handle_sync store load w.project reply again (s, w)).1
unfolding handle_sync
handle_sync-ShowsStill store ok load q reply again s w k h m =
    subst (λ o. ShowsStill q (handle_sync store load o reply again (s, w)).1) (sym h)
      (elim (Bool-cases (q.id == 0)) [
        | inl y ↦ absurd (k ((==_iff q.id 0).0 y))
        | inr n ↦ rw n (
            synced-still store ok load q (q.id - 1) reply again s (record w { syncing = true })
              (omega (arith, k)) h m)
      ])
