-- ===== src/Settings/Cards.antt =====
-- The list of the projects: frontend/app/(dashboard)/projects/page.tsx. `JSON.stringify` is a
-- parameter.
use dmtool.Base.{
  ℕ, Bool, true, false, not, ◌&&◌, List, [], ◌∷◌, ◌++◌, filter, Option, none, some, Text, codes,
  if◌then◌else◌, Outcome, threw, returned,
}
use dmtool.Api.{show}
use dmtool.Calendar.{is_filled}
use dmtool.Projects.{LocalStorage, Project, or_none}

pub record ProjectList : Type 0 where
  pub projects : List Project
  pub loading : Bool

abbrev pub projects_of : Outcome (Option (List Project)) → List Project
projects_of threw = []
projects_of (returned ps) = or_none ps

-- `fetchProjects`: an answer that is no list, or none at all, leaves no project.
unfoldable pub fetch_projects : Outcome (Option (List Project)) → ProjectList → ProjectList
fetch_projects reply s = record s { projects = projects_of reply; loading = false }

-- `handleDelete`: the number that is deleted, and the answer with that of the read behind it. The
-- second component says that the other parts of the page hear of it, the third that the user does.
abbrev pub delete_project : Bool → ℕ → Option ℕ
delete_project agreed i = if agreed then some i else none

unfoldable pub on_deleted :
    Outcome (Unit {0})
    → Outcome (Option (List Project))
    → ProjectList
    → ProjectList × Bool × Option Text
unfolding fetch_projects
on_deleted threw again s = (s, false, some (codes "Failed to delete project"))
on_deleted (returned _) again s = (fetch_projects again s, true, none)

-- The link to the settings of a project.
unfoldable pub settings_link : ℕ → Text
settings_link i =
    codes "/projects/settings" ++ (codes "?" ++ (codes "project_id" ++ (codes "=" ++ show i)))

abbrev pub selected_key : Text
selected_key = codes "dmtool_selected_project"

module _ (store : LocalStorage) (stringify : Project → Text) where
  abbrev pub opened_card : Outcome store.State → store.State → store.State × Option Text
  opened_card threw s = (s, none)
  opened_card (returned t) s = (t, some (codes "/dashboard"))

  -- A click on a card: the page that opens, unless the storage takes no write.
  unfoldable pub open_card : Project → store.State → store.State × Option Text
  open_card p s = opened_card (store.set_item selected_key (stringify p) s) s

-- The networks that a card shows, and whether it says that there are none.
abbrev pub handles : Project → List (Option Text)
handles p = p.ig_handle ∷ p.twitter_handle ∷ p.facebook_handle ∷ p.linkedin_handle ∷ []

unfoldable pub shown_handles : Project → List (Option Text)
shown_handles p = filter is_filled (handles p)

unfoldable pub no_connections : Project → Bool
no_connections p =
    not (is_filled p.ig_handle)
    && not (is_filled p.twitter_handle)
    && not (is_filled p.facebook_handle)
    && not (is_filled p.linkedin_handle)
