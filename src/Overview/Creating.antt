-- ===== src/Overview/Creating.antt =====
-- A task that is marked while another is created, on frontend/app/(dashboard)/dashboard/page.tsx.
use dmtool.Base.{ℕ, ◌≡◌, ◌≢◌, refl, sym, ap, ◌∙◌, List, [], ◌∷◌, ◌++◌, map, Text, returned}
use mathlib.Core.List.{Memᴰ}
use dmtool.ActionCenter.{ApiTask, Task, flip}
use dmtool.ActionCenter.Toggling.{flip-changes}
use dmtool.Projects.{LocalStorage}
use dmtool.Projects.Choice.{KeepsProject}
use dmtool.Overview.{
  Dashboard, DashboardApi, load_dashboard, toggle_task, on_toggled, on_created, new_task,
}

-- The page leaves the number of the project in the storage alone, so that it agrees with the others.
pub load_dashboard-KeepsProject :
    {S : Type 0} (to_date : Text → Text) (store : LocalStorage) (api : DashboardApi S)
    → KeepsProject store (load_dashboard to_date store api)
unfolding load_dashboard
load_dashboard-KeepsProject to_date store api p s d = refl

module _ {S : Type 0} where
  -- A task is marked behind the click that creates another, and both calls succeed; the answer to
  -- the creation comes last.
  unfoldable pub marked_meanwhile : ℕ → ApiTask → Dashboard S → Dashboard S
  unfolding toggle_task on_toggled on_created
  marked_meanwhile j t d =
      let (prev, e) = toggle_task j d in
      on_created d.tasks (returned t) (on_toggled prev (returned tt) e)

init : List Task → List Task
init [] = []
init (t ∷ []) = []
init (t ∷ u ∷ ts) = t ∷ init (u ∷ ts)

init-append : (ts : List Task) (t : Task) → init (ts ++ t ∷ []) ≡ ts
unfolding init
init-append [] t = refl
init-append (u ∷ []) t = refl
init-append (u ∷ v ∷ ts) t = ap (λ r. u ∷ r) (init-append (v ∷ ts) t)

-- The mark of a task that is on the page is lost: the page ends with the tasks as they were when the
-- creation was clicked and the new one, which is not what the server holds, the task marked and the
-- new one behind it.
pub marked_meanwhile-lost :
    {S : Type 0} (j : ℕ) (t : ApiTask) (d : Dashboard S) (x : Task)
    → Memᴰ x d.tasks
    → x.id ≡ j
    → ((marked_meanwhile j t d).tasks ≡ d.tasks ++ new_task t ∷ [])
      × ((marked_meanwhile j t d).tasks ≢ map (flip j) d.tasks ++ new_task t ∷ [])
unfolding marked_meanwhile on_created
marked_meanwhile-lost j t d x m e = (
  refl,
  λ q. flip-changes j d.tasks x m e (
      sym (init-append (map (flip j) d.tasks) (new_task t))
      ∙ ap init (sym q)
      ∙ init-append d.tasks (new_task t)),
)
