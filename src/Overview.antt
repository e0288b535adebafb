-- ===== src/Overview.antt =====
-- The dashboard: frontend/app/(dashboard)/dashboard/page.tsx, and in Modes the overview of a mode.
-- The date of `toLocaleDateString` is a parameter.
pub mod Modes
pub mod Creating
mod Tests
use dmtool.Base.{
  ℕ, Bool, true, false, List, [], ◌∷◌, ◌++◌, map, filter, length, Option, none, some, Text,
  is_empty, trim, if◌then◌else◌, Outcome, threw, returned,
}
use dmtool.Projects.{LocalStorage, Project, Load, or_none, fetch_data}
use dmtool.Projects.Own.{Fetch}
use dmtool.Projects.Pages.{both}
use dmtool.ActionCenter.{ApiTask, Task, medium, show_task, flip}
use dmtool.Insights.Ai.{Raw, Color, color_of, action_of}

pub record Metric : Type 0 where
  pub date : Text
  pub clicks : ℕ
  pub engagement : ℕ

pub record Point : Type 0 where
  pub name : Text
  pub traffic : ℕ
  pub engagement : ℕ

pub record Card : Type 0 where
  pub title : Text
  pub description : Option Text
  pub color : Color
  pub action_text : Text

-- What the page holds beside its project; `S` is the snapshot.
pub record Dashboard (S : Type 0) : Type 0 where
  pub metrics : List Point
  pub insights : List Card
  pub tasks : List Task
  pub snapshot : Option S
  pub is_creating_task : Bool
  pub new_task_title : Text

pub record DashboardApi (S : Type 0) : Type 0 where
  pub get_metrics : ℕ → Outcome (Option (List Metric))
  pub get_insights : ℕ → Outcome (Option (List Raw))
  pub get_tasks : ℕ → Outcome (Option (List ApiTask))
  pub get_snapshot : ℕ → Outcome (Option S)

unfoldable pub to_card : Raw → Card
unfolding color_of action_of
to_card i = record {
  title = i.title;
  description = i.body;
  color = color_of i.kind;
  action_text = action_of i.kind;
}

abbrev pub to_point : (Text → Text) → Metric → Point
to_point to_date m = record { name = to_date m.date; traffic = m.clicks; engagement = m.engagement }

abbrev pub new_task : ApiTask → Task
new_task t = record { id = t.id; title = t.title; is_done = false; priority = medium }

module _ {S : Type 0} where
  abbrev pub dashboard_answered :
      (Text → Text)
      → Outcome (Option (List Metric) × (Option (List Raw) × (Option (List ApiTask) × Option S)))
      → Dashboard S
      → Dashboard S
  dashboard_answered to_date threw d = d
  dashboard_answered to_date (returned (ms, (is, (ts, snapshot)))) d = record d {
    metrics = map (to_point to_date) (or_none ms);
    insights = map to_card (or_none is);
    tasks = map show_task (or_none ts);
    snapshot = snapshot;
  }

  -- The tail of `fetchData`; the rest is shared with the other pages.
  unfoldable pub load_dashboard :
      (Text → Text) → (store : LocalStorage) → DashboardApi S → Load store (Dashboard S)
  unfolding to_card
  load_dashboard to_date store api p (s, d) = (
    s,
    dashboard_answered to_date
        (both (api.get_metrics p.id)
          (both (api.get_insights p.id) (both (api.get_tasks p.id) (api.get_snapshot p.id))))
        d,
  )

  -- `handleToggleTask`: the tasks of the click come back where the call fails.
  unfoldable pub toggle_task : ℕ → Dashboard S → List Task × Dashboard S
  toggle_task i d = (d.tasks, record d { tasks = map (flip i) d.tasks })

  unfoldable pub on_toggled : List Task → Outcome (Unit {0}) → Dashboard S → Dashboard S
  on_toggled prev threw d = record d { tasks = prev }
  on_toggled prev (returned _) d = d

  -- `handleCreateTask`: what is sent, with the tasks of the click, and the answer, which adds the new
  -- task to those.
  abbrev pub create_for : Option Project → Dashboard S → Option (ℕ × Text × List Task) × Dashboard S
  create_for none d = (none, d)
  create_for (some p) d =
      (some (p.id, trim d.new_task_title, d.tasks), record d { is_creating_task = true })

  unfoldable pub create_task :
      Option Project → Dashboard S → Option (ℕ × Text × List Task) × Dashboard S
  create_task p d = if is_empty (trim d.new_task_title) then (none, d) else create_for p d

  unfoldable pub on_created : List Task → Outcome ApiTask → Dashboard S → Dashboard S
  on_created prev threw d = record d { is_creating_task = false }
  on_created prev (returned t) d = record d {
    tasks = prev ++ new_task t ∷ [];
    new_task_title = [];
    is_creating_task = false;
  }

  abbrev pub done_count : Dashboard S → ℕ
  done_count d = length (filter (λ t. t.is_done) d.tasks)

  abbrev pub fetch_dashboard :
      (Text → Text) → (store : LocalStorage) → DashboardApi S → Fetch store (Dashboard S)
  fetch_dashboard to_date store api = fetch_data store (load_dashboard to_date store api)
