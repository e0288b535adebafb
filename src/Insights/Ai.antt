-- ===== src/Insights/Ai.antt =====
-- frontend/app/(dashboard)/ai-insights/page.tsx. `toLowerCase` is a parameter.
use dmtool.Base.{
  ℕ, Bool, true, false, List, [], ◌∷◌, ◌++◌, map, filter, Option, none, some, Text, codes, text_eq,
  length, ◌==◌, if◌then◌else◌, Outcome, threw, returned,
}
use dmtool.Projects.{LocalStorage, Project, Load, or_none, fetch_data}
use dmtool.Projects.Own.{Fetch}
use dmtool.ActionCenter.Figures.{take}
use dmtool.Insights.{or_text, Toast, success, failure}

-- What the API answers; a kind may be missing.
pub record Raw : Type 0 where
  pub kind : Option Text
  pub title : Text
  pub description : Option Text
  pub body : Option Text

pub data Color : Type 0 where
  rose emerald amber brand : Color

pub record Card : Type 0 where
  pub kind : Option Text
  pub title : Text
  pub body : Option Text
  pub description : Option Text
  pub color : Color
  pub action_text : Text

abbrev pub is_kind : Text → Option Text → Bool
is_kind t none = false
is_kind t (some k) = text_eq k t

unfoldable pub color_of : Option Text → Color
color_of k =
    if is_kind (codes "critical") k
    then rose
    else if is_kind (codes "opportunity") k
    then emerald
    else if is_kind (codes "warning") k
    then amber
    else brand

unfoldable pub action_of : Option Text → Text
action_of k =
    if is_kind (codes "critical") k
    then codes "Fix Issue"
    else if is_kind (codes "opportunity") k
    then codes "Capitalize"
    else codes "Learn More"

-- `i.body || i.description`.
abbrev pub text_or : Option Text → Option Text → Option Text
text_or none d = d
text_or (some []) d = d
text_or (some (c ∷ t)) d = some (c ∷ t)

unfoldable pub to_card : Raw → Card
to_card i = record {
  kind = i.kind;
  title = i.title;
  body = i.body;
  description = text_or i.body i.description;
  color = color_of i.kind;
  action_text = action_of i.kind;
}

pub record Ai : Type 0 where
  pub insights : List Card
  pub refreshing : Bool
  pub filter_on : Text

abbrev pub cards_answered : Outcome (Option (List Raw)) → Ai → Ai
cards_answered threw d = d
cards_answered (returned raw) d = record d { insights = map to_card (or_none raw) }

module _ (store : LocalStorage) (get_insights : ℕ → Outcome (Option (List Raw))) where
  unfoldable pub load_ai : Load store Ai
  unfolding to_card
  load_ai p (s, d) = (s, cards_answered (get_insights p.id) d)

  -- `fetchData` here does not say that the page loads: only a change of the project does.
  abbrev pub fetch_ai : Fetch store Ai
  fetch_ai = fetch_data store load_ai

-- `handleRefresh`, for the answer of the API.
abbrev pub refresh_toast : Outcome (Option (List Raw)) → Toast
refresh_toast threw = failure (codes "Failed to refresh insights.")
refresh_toast (returned raw) = success (codes "Insights refreshed successfully.")

unfoldable pub handle_refresh :
    Option Project → (ℕ → Outcome (Option (List Raw))) → Ai → Ai × Option Toast
unfolding to_card
handle_refresh none get_insights d = (d, none)
handle_refresh (some p) get_insights d = if p.id == 0 then (d, none) else (
  record (cards_answered (get_insights p.id) (record d { refreshing = true })) {
    refreshing = false;
  },
  some (refresh_toast (get_insights p.id)),
)

abbrev pub of_kind : Text → List Card → List Card
of_kind t is = filter (λ i. is_kind t i.kind) is

-- The three kinds of cards, with what stands for a text that is missing.
pub record Prediction : Type 0 where
  pub title : Text
  pub desc : Text
  pub color : Color
  pub kind : Text

abbrev pub prediction : Color → Text → Text → Card → Prediction
prediction c t d i = record {
  title = i.title;
  desc = or_text i.body (or_text i.description d);
  color = c;
  kind = t;
}

abbrev pub opportunities : List Card → List Prediction
opportunities is =
    map
      (prediction emerald (codes "opportunity")
        (codes "Capitalize on this opportunity to boost growth."))
      (take 3 (of_kind (codes "opportunity") is))

abbrev pub warnings : List Card → List Prediction
warnings is =
    map (prediction amber (codes "warning") (codes "Monitor this signal closely."))
      (take 1 (of_kind (codes "warning") is))

abbrev pub criticals : List Card → List Prediction
criticals is =
    map (prediction rose (codes "critical") (codes "Address this critical issue."))
      (take 1 (of_kind (codes "critical") is))

unfoldable pub predictive_cards : List Card → List Prediction
predictive_cards is = take 3 (opportunities is ++ (warnings is ++ criticals is))

module _ (to_lower : Text → Text) where
  -- `i.type?.toLowerCase() === filter.toLowerCase()`.
  abbrev pub kind_passes : Text → Option Text → Bool
  kind_passes f none = false
  kind_passes f (some k) = text_eq (to_lower k) (to_lower f)

  unfoldable pub filtered_cards : Ai → List Card
  filtered_cards d =
      if text_eq d.filter_on (codes "all")
      then d.insights
      else filter (λ i. kind_passes d.filter_on i.kind) d.insights

-- The number on the button of a filter.
unfoldable pub count_by_type : Text → Ai → ℕ
count_by_type f d =
    if text_eq f (codes "all") then length d.insights else length (of_kind f d.insights)
