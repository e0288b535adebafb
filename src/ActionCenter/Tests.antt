-- ===== src/ActionCenter/Tests.antt =====
-- Concrete inputs for the action center.
use dmtool.Base.{◌≡◌, ◌≢◌, refl, true, false, [], ◌∷◌, none, codes, threw, returned, map, text_eq}
use mathlib.Core.List.{Memᴰ}
use dmtool.ActionCenter.{Task, high, medium, ActionPage, every}
use dmtool.ActionCenter.Figures.{strategy_tips, velocity_pct, progress_percent}
use dmtool.ActionCenter.Toggling.{
  toggle_each, marked, toggle_each-marked, overlapping, overlapping-lost,
}
use dmtool.ActionCenter.Progress.{IsShare, percent_bounds}

abbrev write_post : Task
write_post = record { id = 1; title = codes "write a post"; is_done = false; priority = high }

abbrev fix_title : Task
fix_title = record { id = 2; title = codes "fix the title"; is_done = false; priority = medium }

abbrev action_page : ActionPage
action_page = record {
  tasks = write_post ∷ fix_title ∷ [];
  insights = [];
  loading = false;
  project = none;
  projects = [];
  filter = every;
  is_creating_task = false;
  new_task_title = [];
}

toggle_each_example :
    (toggle_each ((1, returned tt) ∷ (2, threw) ∷ []) action_page).tasks
    ≡ map (marked ((1, returned tt) ∷ (2, threw) ∷ [])) (write_post ∷ fix_title ∷ [])
toggle_each_example = toggle_each-marked ((1, returned tt) ∷ (2, threw) ∷ []) action_page

toggle_each_run :
    map (λ t. t.is_done) (toggle_each ((1, returned tt) ∷ (2, threw) ∷ []) action_page).tasks
    ≡ true ∷ false ∷ []
unfolding toggle_each
toggle_each_run = refl

overlapping_example :
    ((overlapping 1 2 action_page).tasks ≡ write_post ∷ fix_title ∷ [])
    × ((overlapping 1 2 action_page).tasks
        ≢ map (marked ((2, returned tt) ∷ (1, threw) ∷ [])) (write_post ∷ fix_title ∷ []))
overlapping_example = overlapping-lost 1 2 action_page fix_title (Memᴰ.tail (Memᴰ.head refl)) refl

percent_example :
    IsShare (progress_percent (write_post ∷ [])) × IsShare (velocity_pct (write_post ∷ []))
percent_example = percent_bounds (write_post ∷ [])

tips_run :
    map
      (λ t. t.desc)
      (strategy_tips
        (record { type = codes "warning"; title = []; body = []; description = [] } ∷ []))
    ≡ codes "Review this insight to unlock growth." ∷ []
unfolding strategy_tips text_eq
tips_run = refl
