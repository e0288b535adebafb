-- ===== src/Growth/Signals.antt =====
-- A growth index without a signal shows no number.
use dmtool.Base.{
  ℕ, ◌≡◌, refl, sym, ap, ◌∙◌, Bool, true, false, ◌||◌, List, [], ◌∷◌, map, some, codes, text_eq,
  All, Bool-cases, inl, inr, if◌then◌else◌, trim,
}
use mathlib.Core.Path.{subst}
use dmtool.Growth.{
  Stat, flat, is_signal, blanked, tile_has_signal, has_underlying_growth_signal,
  honest_combined_stats, parse_display_number, parse_change_value,
}

-- A tile of the growth index without a number, or another tile.
abbrev pub IsHonest : Stat → Type 0
IsHonest s = text_eq s.label (codes "Growth Index") ≡ true → tile_has_signal s ≡ false

no_number :
    is_signal (parse_display_number (some (codes "—")))
      || is_signal (parse_change_value (some (codes "—")))
    ≡ false
unfolding parse_display_number parse_change_value trim text_eq
no_number = refl

-- The tile without its number, or the tile.
abbrev blank_if : Bool → Stat → Stat
blank_if b s =
    if b then record s { value = some (codes "—"); change = some (codes "—"); trend = flat } else s

blanked-IsHonest : (s : Stat) → IsHonest (blanked s)
unfolding tile_has_signal
blanked-IsHonest s = elim (Bool-cases (text_eq s.label (codes "Growth Index"))) [
  | inl y ↦ subst (λ b. IsHonest (blank_if b s)) (sym y) (λ h. no_number)
  | inr n ↦ subst (λ b. IsHonest (blank_if b s)) (sym n) (λ h. absurd (cc (n, h)))
]

blanked-All : (stats : List Stat) → All IsHonest (map blanked stats)
blanked-All [] = tt
blanked-All (s ∷ stats) = (blanked-IsHonest s, blanked-All stats)

blanked-label : (s : Stat) → (blanked s).label ≡ s.label
blanked-label s = elim (Bool-cases (text_eq s.label (codes "Growth Index"))) [
  | inl y ↦ subst (λ b. (blank_if b s).label ≡ s.label) (sym y) refl
  | inr n ↦ subst (λ b. (blank_if b s).label ≡ s.label) (sym n) refl
]

-- Without a signal behind it no tile of the growth index shows a number other than 0; with one, the
-- tiles are shown as they are. The tiles keep their labels and their order.
pub honest_combined_stats_lem :
    (stats : List Stat) (health : ℕ) (website social : List Stat)
    → (has_underlying_growth_signal health website social ≡ false
        → All IsHonest (honest_combined_stats stats health website social))
      × (has_underlying_growth_signal health website social ≡ true
          → honest_combined_stats stats health website social ≡ stats)
      × (map (λ s. s.label) (honest_combined_stats stats health website social)
          ≡ map (λ s. s.label) stats)
unfolding honest_combined_stats
honest_combined_stats_lem stats health website social = (
  λ h.
      subst (λ b. All IsHonest (if b then stats else map blanked stats)) (sym h)
        (blanked-All stats),
  λ h. ap (λ b. if b then stats else map blanked stats) h,
  elim (Bool-cases (has_underlying_growth_signal health website social)) [
    | inl y ↦ ap (λ b. map (λ s. s.label) (if b then stats else map blanked stats)) y
    | inr n ↦ ap (λ b. map (λ s. s.label) (if b then stats else map blanked stats)) n ∙ labels stats
  ],
)
  where
    labels : (xs : List Stat) → map (λ s. s.label) (map blanked xs) ≡ map (λ s. s.label) xs
    labels [] = refl
    labels (x ∷ xs) =
        ap (λ t. t ∷ map (λ s. s.label) (map blanked xs)) (blanked-label x)
        ∙ ap (λ ts. x.label ∷ ts) (labels xs)
