-- ===== src/Overview/Tests.antt =====
-- Concrete inputs for the theorems on the dashboard.
use dmtool.Base.{◌≡◌, ◌≢◌, refl, [], ◌∷◌, ◌++◌, map, none, codes, false, ℕ}
use mathlib.Core.List.{Memᴰ}
use dmtool.ActionCenter.{ApiTask, Task, high, flip}
use dmtool.Overview.{Dashboard, new_task}
use dmtool.Overview.Creating.{marked_meanwhile, marked_meanwhile-lost}

abbrev report : Task
report = record { id = 3; title = codes "Write the report"; is_done = false; priority = high }

abbrev dashboard : Dashboard ℕ
dashboard = record {
  metrics = [];
  insights = [];
  tasks = report ∷ [];
  snapshot = none;
  is_creating_task = false;
  new_task_title = codes "Call";
}

abbrev call : ApiTask
call = record { id = 4; title = codes "Call"; completed = false; source = codes "user" }

marked_meanwhile_example :
    ((marked_meanwhile 3 call dashboard).tasks ≡ (report ∷ []) ++ new_task call ∷ [])
    × ((marked_meanwhile 3 call dashboard).tasks ≢ map (flip 3) (report ∷ []) ++ new_task call ∷ [])
marked_meanwhile_example = marked_meanwhile-lost 3 call dashboard report (Memᴰ.head refl) refl
