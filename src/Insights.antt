-- ===== src/Insights.antt =====
-- The insights of a project: frontend/app/(dashboard)/social/insights/page.tsx and
-- ai-insights/page.tsx. `toUpperCase` and `toLowerCase` are parameters.
pub mod Ai
pub mod Counting
pub mod Kinds
mod Tests
use dmtool.Base.{
  ℕ, Bool, true, false, not, ◌&&◌, ◌||◌, List, [], ◌∷◌, ◌++◌, map, filter, any, Option, none, some,
  Text, codes, text_eq, is_empty, length, ◌==◌, if◌then◌else◌, Outcome, threw, returned,
}
use dmtool.Projects.{LocalStorage, Project, Page, Load, or_none, or_else, fetch_data}
use dmtool.Projects.Networks.{includes}
use dmtool.Projects.Own.{Fetch}

-- What the API answers; the page reads the text under one of three names.
pub record Raw : Type 0 where
  pub id : ℕ
  pub kind : Option Text
  pub title : Option Text
  pub description : Option Text
  pub body : Option Text
  pub capital_body : Option Text

pub record Insight : Type 0 where
  pub id : ℕ
  pub kind : Text
  pub title : Option Text
  pub description : Text

-- `a || b`, for texts that may be missing.
abbrev pub or_text : Option Text → Text → Text
or_text none d = d
or_text (some t) d = if is_empty t then d else t

-- What may stand in for a social metric: whether it is simulated.
pub record Simulated : Type 0 where
  pub is_simulated : Bool
  pub capital_simulated : Bool

pub record Social : Type 0 where
  pub insights : List Insight
  pub generating : Bool
  pub filter_on : Text
  pub dismissed : List ℕ
  pub is_simulated : Bool

abbrev pub social_keywords : List Text
social_keywords =
    codes "Engagement"
    ∷ codes "Meta"
    ∷ codes "Instagram"
    ∷ codes "Followers"
    ∷ codes "Reach"
    ∷ codes "Social"
    ∷ codes "Audience"
    ∷ []

pub data Toast : Type 0 where
  success failure : Text → Toast

module _ (to_upper : Text → Text) (store : LocalStorage) where
  abbrev pub normalize : Raw → Insight
  normalize i = record {
    id = i.id;
    kind = to_upper (or_text i.kind (codes "INFO"));
    title = i.title;
    description = or_text i.description (or_text i.body (or_text i.capital_body []));
  }

  abbrev pub simulated_answered : Outcome (Option (List Simulated)) → Social → Social
  simulated_answered threw d = d
  simulated_answered (returned ms) d = record d {
    is_simulated = any (λ m. m.is_simulated || m.capital_simulated) (or_none ms);
  }

  -- The second answer is asked for once the first has been shown.
  abbrev pub social_answered :
      Outcome (Option (List Raw)) → Outcome (Option (List Simulated)) → Social → Social
  social_answered threw ms d = d
  social_answered (returned raw) ms d =
      simulated_answered ms (record d { insights = map normalize (or_none raw) })

  unfoldable pub load_social :
      (ℕ → Outcome (Option (List Raw)))
      → (ℕ → Outcome (Option (List Simulated)))
      → Load store Social
  load_social get_insights get_social p (s, d) =
      (s, social_answered (get_insights p.id) (get_social p.id) d)

module _ (store : LocalStorage) (load : Load store Social) where
  abbrev pub with_generating : Bool → Page Social → Page Social
  with_generating b w = record w { content = record (w.content) { generating = b } }

  -- `fetchData` catches what throws in it, so what follows it runs either way.
  abbrev pub generated :
      ℕ
      → Outcome (Unit {0})
      → Outcome (Option (List Project))
      → store.State × Page Social
      → (store.State × Page Social) × Toast
  generated i threw again w = (w, failure (codes "Could not generate insights. Please try again."))
  generated i (returned _) again w = (
    fetch_data store load (some i) again w,
    success (codes "AI insights refreshed with latest data!"),
  )

  abbrev pub stop_generating :
      (store.State × Page Social) × Toast → (store.State × Page Social) × Option Toast
  stop_generating ((s, w), t) = ((s, with_generating false w), some t)

  unfoldable pub handle_generate_new :
      Option Project
      → Outcome (Unit {0})
      → Outcome (Option (List Project))
      → store.State × Page Social
      → (store.State × Page Social) × Option Toast
  unfolding fetch_data
  handle_generate_new none reply again w = (w, none)
  handle_generate_new (some p) reply again (s, w) =
      if p.id == 0
      then ((s, w), none)
      else stop_generating (generated p.id reply again (s, with_generating true w))

-- What the page lists and counts.
module _ (to_lower : Text → Text) where
  -- `text?.toLowerCase().includes(k.toLowerCase())`.
  abbrev pub mentions : Text → Text → Bool
  mentions k t = includes (to_lower t) (to_lower k)

  abbrev pub title_mentions : Text → Option Text → Bool
  title_mentions k none = false
  title_mentions k (some t) = mentions k t

  unfoldable pub is_social_insight : Insight → Bool
  unfolding includes
  is_social_insight i =
      any (λ k. title_mentions k i.title || mentions k i.description) social_keywords

  abbrev pub is_dismissed : Social → Insight → Bool
  is_dismissed d i = any (λ n. n == i.id) d.dismissed

  abbrev pub passes : Text → Insight → Bool
  passes f i = text_eq f (codes "all") || text_eq i.kind f

  unfoldable pub filtered_insights : Social → List Insight
  unfolding is_social_insight
  filtered_insights d =
      filter (passes d.filter_on)
        (filter (λ i. not (is_dismissed d i)) (filter is_social_insight d.insights))

  abbrev pub social_insights_only : Social → List Insight
  social_insights_only d = filter is_social_insight d.insights

  abbrev pub count_of : Text → Social → ℕ
  count_of t d =
      length (filter (λ i. text_eq i.kind t && not (is_dismissed d i)) (social_insights_only d))

  unfoldable pub critical_count : Social → ℕ
  unfolding is_social_insight
  critical_count d = count_of (codes "CRITICAL") d

  unfoldable pub opp_count : Social → ℕ
  unfolding is_social_insight
  opp_count d = count_of (codes "OPPORTUNITY") d

-- A click on Dismiss: the set keeps each number once.
unfoldable pub dismiss : ℕ → Social → Social
dismiss i d =
    if any (λ n. n == i) d.dismissed then d else record d { dismissed = d.dismissed ++ i ∷ [] }

abbrev pub set_filter : Text → Social → Social
set_filter f d = record d { filter_on = f }
