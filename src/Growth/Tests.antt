-- ===== src/Growth/Tests.antt =====
-- Concrete inputs for the growth index.
use dmtool.Base.{◌≡◌, refl, true, false, List, [], ◌∷◌, none, some, codes, Text, text_eq, map, All}
use dmtool.Growth.{
  Stat, other, parse_display_number, parse_change_value, honest_combined_stats,
  has_underlying_growth_signal,
}
use dmtool.Growth.Signals.{IsHonest, honest_combined_stats_lem}

abbrev tile : Text → Text → Stat
tile l v = record { label = l; value = some v; change = some (codes "—"); trend = other }

abbrev tiles : List Stat
tiles =
    tile (codes "Growth Index") (codes "20") ∷ tile (codes "Engagement Rate") (codes "0.0%") ∷ []

growth_example :
    (has_underlying_growth_signal 0 [] tiles ≡ false
      → All IsHonest (honest_combined_stats tiles 0 [] tiles))
    × (has_underlying_growth_signal 0 [] tiles ≡ true
        → honest_combined_stats tiles 0 [] tiles ≡ tiles)
    × (map (λ s. s.label) (honest_combined_stats tiles 0 [] tiles) ≡ map (λ s. s.label) tiles)
growth_example = honest_combined_stats_lem tiles 0 [] tiles

display_run :
    parse_display_number (some (codes " 1.2k"))
    ≡ some (record { negative = false; digits = 12000; decimals = 1 })
unfolding parse_display_number text_eq
display_run = refl

change_run : parse_change_value (some (codes "Live")) ≡ none
unfolding parse_change_value
change_run = refl

no_signal_run : has_underlying_growth_signal 0 [] tiles ≡ false
unfolding has_underlying_growth_signal text_eq
no_signal_run = refl
