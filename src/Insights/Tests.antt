-- ===== src/Insights/Tests.antt =====
-- Concrete inputs for the theorems on the insights.
use dmtool.Base.{
  length, filter, strip_prefix, ◌≡◌, refl, [], ◌∷◌, map, none, some, Text, codes, All, text_eq, ◌+◌,
  ◌&&◌, leb, if◌then◌else◌, false, not, ◌==◌,
}
use dmtool.Projects.Networks.{includes}
use dmtool.Insights.{
  filtered_insights, critical_count, opp_count, set_filter, is_dismissed, dismiss,
  is_social_insight, social_insights_only, Social,
}
use dmtool.Insights.Ai.{
  Raw, Ai, brand, to_card, of_kind, count_by_type, predictive_cards, filtered_cards,
}
use dmtool.Insights.Kinds.{LowersKinds, cards_unread}
use dmtool.Insights.Counting.{filtered_insights-counts, filtered_insights-dismiss}

-- `toLowerCase` on the texts that the tests read.
abbrev to_small : Text → Text
to_small t = map (λ c. if leb 65 c && leb c 90 then c + 32 else c) t

small-LowersKinds : LowersKinds to_small
small-LowersKinds = record {
  of_critical = refl;
  of_opportunity = refl;
  of_info = refl;
  of_filter = refl;
}

abbrev urgent : Raw
urgent = record {
  kind = some (codes "CRITICAL");
  title = codes "Slow pages";
  description = none;
  body = some (codes "Three pages are slow.");
}

abbrev shown : Ai
shown = record { insights = map to_card (urgent ∷ []); refreshing = false; filter_on = codes "all" }

cards_unread_example :
    (count_by_type (codes "critical") shown ≡ 0)
    × (count_by_type (codes "opportunity") shown ≡ 0)
    × All (λ c. c.color ≡ brand) shown.insights
    × (predictive_cards shown.insights ≡ [])
    × (filtered_cards to_small (record shown { filter_on = codes "critical" })
        ≡ of_kind (codes "CRITICAL") shown.insights)
cards_unread_example =
    cards_unread to_small (urgent ∷ []) shown small-LowersKinds (unfold text_eq in (refl, tt)) refl

-- A page with two insights of which one is dismissed.
abbrev two_insights : Social
two_insights = record {
  insights =
      record { id = 1; kind = codes "CRITICAL"; title = none; description = codes "Reach fell" }
      ∷ record { id = 2; kind = codes "CRITICAL"; title = none; description = codes "Social reach" }
      ∷ [];
  generating = false;
  filter_on = codes "all";
  dismissed = 2 ∷ [];
  is_simulated = false;
}

one_is_left : length (filtered_insights to_small two_insights) ≡ 1
unfolding filtered_insights is_social_insight includes strip_prefix text_eq
one_is_left = refl

filtered_insights_example :
    (length (filtered_insights to_small (set_filter (codes "CRITICAL") two_insights))
      ≡ critical_count to_small two_insights)
    × (length (filtered_insights to_small (set_filter (codes "OPPORTUNITY") two_insights))
        ≡ opp_count to_small two_insights)
    × (length (filtered_insights to_small (set_filter (codes "all") two_insights))
          + length (
              filter
                (is_dismissed to_small two_insights)
                (social_insights_only to_small two_insights))
        ≡ length (social_insights_only to_small two_insights))
filtered_insights_example = filtered_insights-counts to_small two_insights

filtered_insights-dismiss_example :
    filtered_insights to_small (dismiss 1 two_insights)
    ≡ filter (λ i. not (i.id == 1)) (filtered_insights to_small two_insights)
filtered_insights-dismiss_example = filtered_insights-dismiss to_small 1 two_insights
