-- ===== src/Posts.antt =====
-- The posts of frontend/app/(dashboard)/system/calendar/page.tsx: how they are read, shown, deleted
-- and tried again. The dates of the browser, `Number` and `toLowerCase` are parameters.
pub mod Effects
pub mod Choosing
pub mod Announcing
pub mod Editing
mod Tests
use dmtool.Base.{
  ℕ, ◌+◌, ◌-◌, ◌<◌, ◌≡◌, Bool, true, false, not, ◌&&◌, ◌||◌, List, [], ◌∷◌, map, filter, any,
  Option, none, some, Text, codes, text_eq, is_empty, leb, ltb, ◌==◌, if◌then◌else◌, Outcome, threw,
  returned,
}
use dmtool.Api.{show}
use dmtool.Projects.{LocalStorage, Project, project_key, find, or_else, last, or_none, or_zero}
use dmtool.Insights.{or_text, Toast, success, failure}

-- A task of the API; what may be missing is an option.
pub record Task : Type 0 where
  pub id : ℕ
  pub due_date : Option Text
  pub year : Option ℕ
  pub month : Option ℕ
  pub day : Option ℕ
  pub created_at : Option Text
  pub title : Text
  pub platform : Option Text
  pub source : Text
  pub content_type : Option Text
  pub asset_name : Option Text
  pub asset_url : Option Text
  pub thumbnail_url : Option Text
  pub caption : Option Text
  pub location : Option Text
  pub music : Option Text
  pub tags : Option Text
  pub publish_status : Option Text
  pub publish_error : Option Text
  pub completed : Bool
  pub is_done : Bool

pub record Post : Type 0 where
  pub id : ℕ
  pub day : ℕ
  pub month : ℕ
  pub year : ℕ
  pub title : Text
  pub platform : Text
  pub content_type : Text
  pub asset_name : Text
  pub asset_url : Text
  pub thumbnail_url : Text
  pub caption : Text
  pub location : Text
  pub music : Text
  pub tags : Text
  pub due_date : Option Text
  pub publish_status : Text
  pub publish_error : Text
  pub is_done : Bool
  pub time : Text

-- `Date`: reading a text, which may say no date; a date of a year (else of the text of the
-- creation), a month and a day; and what a date says.
pub record Dates : Type 1 where
  pub Date : Type 0
  pub parse : Text → Option Date
  pub build : Option ℕ → Option Text → ℕ → ℕ → Date
  pub get_date : Date → ℕ
  pub get_month : Date → ℕ
  pub get_full_year : Date → ℕ
  pub to_time : Date → Text

abbrev pub parse_filled {ℓ} : {A : Type ℓ} → (Text → Option A) → Option Text → Option A
parse_filled parse none = none
parse_filled parse (some t) = if is_empty t then none else parse t

-- `t.n ? t.n : d`.
abbrev pub or_number : Option ℕ → ℕ → ℕ
or_number none d = d
or_number (some n) d = if n == 0 then d else n

-- `t.month ? t.month - 1 : d`.
abbrev pub month_or : Option ℕ → ℕ → ℕ
month_or none d = d
month_or (some n) d = if n == 0 then d else n - 1

abbrev pub is_published : Post → Bool
is_published p = text_eq p.publish_status (codes "published")

abbrev pub says_published : Option Text → Bool
says_published none = false
says_published (some t) = text_eq t (codes "published")

module _ (dates : Dates) where
  abbrev pub post_on : ℕ → ℕ → ℕ → dates.Date → Task → Post
  post_on day month year date t = record {
    id = t.id;
    day = day;
    month = month;
    year = year;
    title = t.title;
    platform =
        or_text t.platform
          (if text_eq t.source (codes "ai") then codes "instagram" else codes "facebook");
    content_type = or_text t.content_type (codes "post");
    asset_name = or_text t.asset_name [];
    asset_url = or_text t.asset_url [];
    thumbnail_url = or_text t.thumbnail_url [];
    caption = or_text t.caption [];
    location = or_text t.location [];
    music = or_text t.music [];
    tags = or_text t.tags [];
    due_date = t.due_date;
    publish_status = or_text t.publish_status (codes "scheduled");
    publish_error = or_text t.publish_error [];
    is_done = t.completed || t.is_done || says_published t.publish_status;
    time = dates.to_time date;
  }

  -- A due date that is a date gives the day; else the fields of the task do, each by itself.
  abbrev pub dated : Option dates.Date → Task → Post
  dated (some d) t = post_on (dates.get_date d) (dates.get_month d) (dates.get_full_year d) d t
  dated none t =
      let d = dates.build t.year t.created_at (month_or t.month 0) (or_number t.day 1) in
      post_on (or_number t.day (dates.get_date d)) (month_or t.month (dates.get_month d))
        (or_number t.year (dates.get_full_year d)) d t

  unfoldable pub to_post : Task → Post
  to_post t = dated (parse_filled dates.parse t.due_date) t

-- The page, as far as its posts go.
pub record Board : Type 0 where
  pub projects : List Project
  pub project : Option Project
  pub posts : List Post
  pub loading : Bool
  pub post_filter : Text
  pub show_day_details : Bool

-- The project: the one asked for, else the one of the storage, else the last. A number 0 asks for
-- none.
abbrev pub asked : Option ℕ → List Project → Option Project
asked none ps = none
asked (some i) ps = if i == 0 then none else find (λ p. p.id == i) ps

abbrev pub or_saved : Option Project → Option ℕ → List Project → Option Project
or_saved (some p) saved ps = some p
or_saved none saved ps = asked saved ps

unfoldable pub select_project : Option ℕ → Option ℕ → Project → List Project → Project
unfolding find last
select_project target saved p ps =
    or_else (or_saved (asked target (p ∷ ps)) saved (p ∷ ps)) (last p ps)

module _ (dates : Dates) (to_number : Text → Option ℕ) (store : LocalStorage)
    (get_calendar : ℕ → Outcome (Option (List Task))) where
  abbrev pub calendar_answered : Outcome (Option (List Task)) → Board → Board
  calendar_answered threw b = b
  calendar_answered (returned ts) b = record b { posts = map (to_post dates) (or_none ts) }

  abbrev pub kept : Project → Outcome store.State → store.State × Board → store.State × Board
  kept q threw (s, b) = (s, b)
  kept q (returned t) (s, b) = (t, calendar_answered (get_calendar q.id) b)

  -- Here a read of the storage that throws ends it, as a write does.
  abbrev pub chosen :
      Option ℕ
      → Project
      → List Project
      → Outcome (Option Text)
      → store.State × Board
      → store.State × Board
  chosen target p ps threw (s, b) = (s, b)
  chosen target p ps (returned saved) (s, b) =
      let q = select_project target (to_number (or_zero saved)) p ps in
      kept q (store.set_item project_key (show q.id) s) (s, record b { project = some q })

  abbrev pub with_projects : Option ℕ → List Project → store.State × Board → store.State × Board
  with_projects target [] (s, b) = (s, b)
  with_projects target (p ∷ ps) (s, b) = chosen target p ps (store.get_item project_key s) (s, b)

  abbrev pub listed :
      Option ℕ → Outcome (Option (List Project)) → store.State × Board → store.State × Board
  listed target threw (s, b) = (s, b)
  listed target (returned ps) (s, b) =
      with_projects target (or_none ps) (s, record b { projects = or_none ps })

  abbrev pub loaded : store.State × Board → store.State × Board
  loaded (s, b) = (s, record b { loading = false })

  unfoldable pub fetch_data :
      Option ℕ → Outcome (Option (List Project)) → store.State × Board → store.State × Board
  unfolding select_project to_post
  fetch_data target reply w = loaded (listed target reply w)

  abbrev pub details_shown : store.State × Board → store.State × Board
  details_shown (s, b) = (s, record b { show_day_details = true })

  -- `deleteTask`: the answer to the deletion, which only follows where the user agrees, with the
  -- answer to the read behind it; the last component is what an alert says.
  unfoldable pub on_deleted :
      Outcome (Unit {0})
      → Outcome (Option (List Project))
      → store.State × Board
      → (store.State × Board) × Option Text
  unfolding fetch_data
  on_deleted threw again w = (w, some (codes "Failed to delete scheduled content."))
  on_deleted (returned _) again w = (details_shown (fetch_data none again w), none)

  -- `retryTask`: the answer to the update.
  unfoldable pub on_retried :
      Outcome (Unit {0})
      → Outcome (Option (List Project))
      → store.State × Board
      → (store.State × Board) × Toast
  unfolding fetch_data
  on_retried threw again w = (w, failure (codes "Failed to retry post"))
  on_retried (returned _) again w =
      (fetch_data none again w, success (codes "Post rescheduled — will retry in 2 minutes"))

-- What `retryTask` sends at a time: the post, two minutes later.
pub record Retry : Type 0 where
  pub id : ℕ
  pub project_id : Option ℕ
  pub title : Text
  pub platform : Text
  pub content_type : Text
  pub caption : Text
  pub tags : Text
  pub due_date : ℕ

unfoldable pub retry_task : ℕ → Option ℕ → Post → Retry
retry_task now project_id p = record {
  id = p.id;
  project_id = project_id;
  title = p.title;
  platform = p.platform;
  content_type = p.content_type;
  caption = p.caption;
  tags = p.tags;
  due_date = now + 120000;
}
