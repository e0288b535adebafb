-- ===== src/ActionCenter.antt =====
-- frontend/app/(dashboard)/action-center/page.tsx: the tasks of a project, their marks and the
-- figures of the page. The answers of the API are parameters.
pub mod Figures
pub mod Toggling
pub mod Progress
mod Tests
use dmtool.Base.{
  ℕ, zero, suc, ◌+◌, ◌*◌, Bool, true, false, not, ◌&&◌, ◌||◌, List, [], ◌∷◌, ◌++◌, map, Option,
  none, some, Text, codes, text_eq, is_empty, trim, filter, length, ltb, leb, ◌==◌, if◌then◌else◌,
  Outcome, threw, returned,
}
use dmtool.Projects.{Project, find, or_else, last}
use dmtool.Projects.Pages.{both}
use dmtool.Billing.{round_div}

-- A task of the API, and as the page shows it.
pub record ApiTask : Type 0 where
  pub id : ℕ
  pub title : Text
  pub completed : Bool
  pub source : Text

pub data Priority : Type 0 where
  high medium : Priority

pub record Task : Type 0 where
  pub id : ℕ
  pub title : Text
  pub is_done : Bool
  pub priority : Priority

abbrev pub show_task : ApiTask → Task
show_task t = record {
  id = t.id;
  title = t.title;
  is_done = t.completed;
  priority = if text_eq t.source (codes "ai") then high else medium;
}

pub record Insight : Type 0 where
  pub type : Text
  pub title : Text
  pub body : Text
  pub description : Text

pub data Filter : Type 0 where
  every done pending : Filter
  by_priority : Text → Filter

pub record ActionPage : Type 0 where
  pub tasks : List Task
  pub insights : List Insight
  pub loading : Bool
  pub project : Option Project
  pub projects : List Project
  pub filter : Filter
  pub is_creating_task : Bool
  pub new_task_title : Text

-- `fetchData`: the project asked for, where it is there and its number is not 0, else the last.
abbrev pub pick : Option ℕ → Project → List Project → Project
pick none p ps = last p ps
pick (some i) p ps =
    if i == 0 then last p ps else or_else (find (λ q. q.id == i) (p ∷ ps)) (last p ps)

abbrev pub task_answered : Outcome (List ApiTask × List Insight) → ActionPage → ActionPage
task_answered threw s = s
task_answered (returned (ts, is)) s = record s { tasks = map show_task ts; insights = is }

abbrev pub project_answered :
    (ℕ → Outcome (List ApiTask))
    → (ℕ → Outcome (List Insight))
    → Option ℕ
    → List Project
    → ActionPage
    → ActionPage
project_answered get_tasks get_insights target [] s = s
project_answered get_tasks get_insights target (p ∷ ps) s =
    let q = pick target p ps in
    task_answered (both (get_tasks q.id) (get_insights q.id)) (record s { project = some q })

abbrev pub listed :
    (ℕ → Outcome (List ApiTask))
    → (ℕ → Outcome (List Insight))
    → Option ℕ
    → Outcome (List Project)
    → ActionPage
    → ActionPage
listed get_tasks get_insights target threw s = s
listed get_tasks get_insights target (returned ps) s =
    project_answered get_tasks get_insights target ps (record s { projects = ps })

unfoldable pub fetch_data :
    (ℕ → Outcome (List ApiTask))
    → (ℕ → Outcome (List Insight))
    → Option ℕ
    → Outcome (List Project)
    → ActionPage
    → ActionPage
unfolding find last
fetch_data get_tasks get_insights target reply s =
    record (listed get_tasks get_insights target reply s) { loading = false }

abbrev pub handle_project_change :
    (ℕ → Outcome (List ApiTask))
    → (ℕ → Outcome (List Insight))
    → ℕ
    → Outcome (List Project)
    → ActionPage
    → ActionPage
handle_project_change get_tasks get_insights i reply s =
    fetch_data get_tasks get_insights (some i) reply (record s { loading = true })

-- `handleToggleTask`: the mark changes at once, and the answer to a call that fails puts back the
-- tasks that the page held when the call was made.
abbrev pub flip : ℕ → Task → Task
flip i t = if t.id == i then record t { is_done = not t.is_done } else t

unfoldable pub toggle_task : ℕ → ActionPage → List Task × ActionPage
toggle_task i s = (s.tasks, record s { tasks = map (flip i) s.tasks })

unfoldable pub on_toggled : List Task → Outcome (Unit {0}) → ActionPage → ActionPage
on_toggled prev threw s = record s { tasks = prev }
on_toggled prev (returned _) s = s

-- `handleCreateTask`: the title that is sent, and the answer.
abbrev pub create_for : Option Project → ActionPage → Option (ℕ × Text) × ActionPage
create_for none s = (none, s)
create_for (some p) s = (some (p.id, trim s.new_task_title), record s { is_creating_task = true })

unfoldable pub create_task : ActionPage → Option (ℕ × Text) × ActionPage
create_task s = if is_empty (trim s.new_task_title) then (none, s) else create_for s.project s

abbrev pub add_task : ApiTask → ActionPage → ActionPage
add_task t s = record s {
  tasks = s.tasks ++ record { id = t.id; title = t.title; is_done = false; priority = medium } ∷ [];
  new_task_title = [];
}

abbrev pub created : Outcome ApiTask → ActionPage → ActionPage
created threw s = s
created (returned t) s = add_task t s

unfoldable pub on_created : Outcome ApiTask → ActionPage → ActionPage
on_created reply s = record (created reply s) { is_creating_task = false }
