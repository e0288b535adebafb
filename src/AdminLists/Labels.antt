-- ===== src/AdminLists/Labels.antt =====
-- The two lists: their filters, their events and their loads, and the words and colours of the list
-- of projects.
use dmtool.Base.{
  ℕ, Option, some, true, Outcome, Bool, false, not, ◌||◌, List, [], ◌∷◌, filter, length, Text,
  codes, text_eq, is_empty, if◌then◌else◌,
}
use dmtool.AdminLists.{
  UserFilter, role, mode, status, plan, ProjectFilter, goal, health, ListPage, Query, Reply, Event,
  fetch, handle,
}

unfoldable pub has_active_filters : {F : Type 0} {A : Type 0} → List F → ListPage F A → Bool
has_active_filters [] s = false
has_active_filters (f ∷ fs) s =
    let rest = has_active_filters fs s in not (is_empty (s.filters f)) || rest

abbrev pub user_filters : List UserFilter
user_filters = role ∷ mode ∷ status ∷ plan ∷ []

abbrev pub project_filters : List ProjectFilter
project_filters = goal ∷ health ∷ []

-- The number on the button of the filters.
unfoldable pub active_filters : {F : Type 0} {A : Type 0} → List F → ListPage F A → ℕ
active_filters fs s = length (filter (λ f. not (is_empty (s.filters f))) fs)

pub data Colors : Type 0 where
  emerald amber blue slate : Colors

unfoldable pub health_color : Text → Colors
health_color h =
    if text_eq h (codes "healthy")
    then emerald
    else if text_eq h (codes "issues")
    then amber
    else if text_eq h (codes "scanning")
    then blue
    else slate

unfoldable pub goal_label : Text → Text
goal_label g =
    if text_eq g (codes "seo")
    then codes "SEO"
    else if text_eq g (codes "social")
    then codes "Social"
    else if text_eq g (codes "both")
    then codes "SEO + Social"
    else g

abbrev pub same_user_filter : UserFilter → UserFilter → Bool
same_user_filter role role = true
same_user_filter mode mode = true
same_user_filter status status = true
same_user_filter plan plan = true
same_user_filter _ _ = false

abbrev pub same_project_filter : ProjectFilter → ProjectFilter → Bool
same_project_filter goal goal = true
same_project_filter health health = true
same_project_filter _ _ = false

module _ {A : Type 0} where
  abbrev pub fetch_users :
      (Query UserFilter → Outcome (Reply A)) → ListPage UserFilter A → ListPage UserFilter A
  fetch_users = fetch

  abbrev pub handle_users : Event UserFilter → ListPage UserFilter A → ListPage UserFilter A
  handle_users = handle same_user_filter

  abbrev pub fetch_projects :
      (Query ProjectFilter → Outcome (Reply A))
      → ListPage ProjectFilter A
      → ListPage ProjectFilter A
  fetch_projects = fetch

  abbrev pub handle_projects :
      Event ProjectFilter → ListPage ProjectFilter A → ListPage ProjectFilter A
  handle_projects = handle same_project_filter

-- The list of projects opens with the goal of the address, where it names one.
abbrev pub initial_filters : Option Text → ProjectFilter → Text
initial_filters (some g) goal = g
initial_filters _ _ = []
