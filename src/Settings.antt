-- ===== src/Settings.antt =====
-- The settings of a project: frontend/app/(dashboard)/projects/settings/page.tsx. The question of
-- the browser and the parameters of the address are parameters of the model.
pub mod Cards
pub mod Saving
pub mod Opening
mod Tests
use dmtool.Base.{
  ℕ, ◌≡◌, ◌≢◌, Bool, true, false, List, [], ◌∷◌, ◌++◌, Option, none, some, Text, codes, text_eq,
  is_empty, All, if◌then◌else◌, Outcome, threw, returned,
}
use dmtool.Api.{show}
use dmtool.Uri.{is_unreserved}
use dmtool.Projects.{or_none}
use dmtool.Insights.{or_text, Toast, success, failure}

-- A project of the API; a text may be missing.
pub record Site : Type 0 where
  pub id : ℕ
  pub name : Option Text
  pub url : Option Text
  pub goal : Option Text
  pub ig_handle : Option Text
  pub twitter_handle : Option Text
  pub linkedin_handle : Option Text
  pub fb_handle : Option Text

pub record Form : Type 0 where
  pub name : Text
  pub url : Text
  pub goal : Text
  pub ig_handle : Text
  pub twitter_handle : Text
  pub linkedin_handle : Text
  pub fb_handle : Text

unfoldable pub form_of : Site → Form
form_of p = record {
  name = or_text p.name [];
  url = or_text p.url [];
  goal = or_text p.goal (codes "both");
  ig_handle = or_text p.ig_handle [];
  twitter_handle = or_text p.twitter_handle [];
  linkedin_handle = or_text p.linkedin_handle [];
  fb_handle = or_text p.fb_handle [];
}

-- `{ ...project, ...formData }`.
unfoldable pub merged : Site → Form → Site
merged p f = record {
  id = p.id;
  name = some f.name;
  url = some f.url;
  goal = some f.goal;
  ig_handle = some f.ig_handle;
  twitter_handle = some f.twitter_handle;
  linkedin_handle = some f.linkedin_handle;
  fb_handle = some f.fb_handle;
}

pub record Settings : Type 0 where
  pub project : Option Site
  pub form_data : Form
  pub loading : Bool
  pub saving : Bool
  pub save_success : Bool

-- `searchParams.get(name)`, and what it says of a path with no `?` and no `#` in it, a
-- `?` and one parameter whose value needs no percent-encoding.
pub record SearchParams : Type 0 where
  pub get : Text → Text → Option Text
  pub get-param :
      (path name v : Text)
      → All (λ c. (c ≢ 63) × (c ≢ 35)) path
      → All (λ c. is_unreserved c ≡ true) name
      → All (λ c. is_unreserved c ≡ true) v
      → get name (path ++ (codes "?" ++ (name ++ (codes "=" ++ v)))) ≡ some v

unfoldable pub find_site : Text → List Site → Option Site
find_site q [] = none
find_site q (x ∷ xs) = if text_eq (show x.id) q then some x else find_site q xs

-- A number that is asked for: the text must not be empty.
abbrev pub queried : Option Text → List Site → Option Site
queried none ps = none
queried (some q) ps = if is_empty q then none else find_site q ps

unfoldable pub last_site : List Site → Option Site
last_site [] = none
last_site (p ∷ []) = some p
last_site (p ∷ q ∷ ps) = last_site (q ∷ ps)

abbrev pub or_last : Option Site → List Site → Option Site
or_last none ps = last_site ps
or_last (some p) ps = some p

abbrev pub pick_site : Option Text → List Site → Option Site
pick_site query ps = or_last (queried query ps) ps

abbrev pub picked : Option Site → Settings → Settings
picked none s = s
picked (some p) s = record s { project = some p; form_data = form_of p }

abbrev pub sites_answered : Option Text → Outcome (Option (List Site)) → Settings → Settings
sites_answered query threw s = s
sites_answered query (returned ps) s = picked (pick_site query (or_none ps)) s

-- `loadProject`, for the parameter `project_id` and the answer; one that is no list is none.
unfoldable pub load_project : Option Text → Outcome (Option (List Site)) → Settings → Settings
unfolding find_site last_site form_of
load_project query reply s = record (sites_answered query reply s) { loading = false }

-- `handleSave`: what is sent, with the page until the answer, and the answer.
abbrev pub started : Settings → Settings
started s = record s { saving = true; save_success = false }

abbrev pub save_for : Option Site → Settings → Option (ℕ × Form) × Settings
save_for none s = (none, s)
save_for (some p) s = (some (p.id, s.form_data), started s)

unfoldable pub handle_save : Settings → Option (ℕ × Form) × Settings
handle_save s = save_for s.project s

abbrev pub merged_onto : Option Site → Form → Option Site
merged_onto none f = none
merged_onto (some p) f = some (merged p f)

-- The project and the form are those of the click.
unfoldable pub on_saved : Option Site → Form → Outcome (Unit {0}) → Settings → Settings × Toast
unfolding merged
on_saved p f threw s =
    (record s { saving = false }, failure (codes "Failed to save settings. Please try again."))
on_saved p f (returned _) s = (
  record s { project = merged_onto p f; save_success = true; saving = false },
  success (codes "Settings saved successfully."),
)

-- The timer that is set where the save goes through.
abbrev pub forget_success : Settings → Settings
forget_success s = record s { save_success = false }

-- `handleDelete`: the number that is deleted, where the user agrees, and the answer with the page
-- that opens next.
abbrev pub delete_for : Bool → Option Site → Option ℕ
delete_for agreed none = none
delete_for agreed (some p) = if agreed then some p.id else none

unfoldable pub handle_delete : Bool → Settings → Option ℕ
handle_delete agreed s = delete_for agreed s.project

unfoldable pub on_deleted : Outcome (Unit {0}) → Toast × Option Text
on_deleted threw = (failure (codes "Failed to delete project."), none)
on_deleted (returned _) =
    (success (codes "Project deleted successfully."), some (codes "/projects"))

-- What the user types.
pub data Field : Type 0 where
  name url goal ig_handle twitter_handle linkedin_handle fb_handle : Field

abbrev pub write_field : Field → Text → Form → Form
write_field Field.name t f = record f { name = t }
write_field Field.url t f = record f { url = t }
write_field Field.goal t f = record f { goal = t }
write_field Field.ig_handle t f = record f { ig_handle = t }
write_field Field.twitter_handle t f = record f { twitter_handle = t }
write_field Field.linkedin_handle t f = record f { linkedin_handle = t }
write_field Field.fb_handle t f = record f { fb_handle = t }

abbrev pub type_field : Field → Text → Settings → Settings
type_field k t s = record s { form_data = write_field k t s.form_data }

-- The preferences of the notifications, which the page keeps to itself.
pub record NotifPrefs : Type 0 where
  pub seo_alerts : Bool
  pub social_alerts : Bool
  pub weekly_report : Bool
  pub task_reminders : Bool
  pub competitor_updates : Bool

abbrev pub default_prefs : NotifPrefs
default_prefs = record {
  seo_alerts = true;
  social_alerts = true;
  weekly_report = true;
  task_reminders = false;
  competitor_updates = false;
}
