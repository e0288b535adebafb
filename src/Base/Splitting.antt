-- ===== src/Base/Splitting.antt =====
-- Splitting at a separator, and joining.
use Prim.Native.Nat.{ℕ}
use mathlib.Core.Path.{◌≡◌, refl, ap, ◌∙◌}
use mathlib.Core.Logic.{◌≢◌, inl, inr}
use mathlib.Core.List.{List, [], ◌∷◌, ◌++◌}
use native.Mathlib.Omega.{arith}
use dmtool.Base.Tests.{◌==◌, Bool-cases}
use dmtool.Base.Lists.{All}
use dmtool.Base.Strings.{Text, split, split_onto, join}

-- A list with no separator is one part.
pub split-single : (sep : ℕ) (w : Text) → All (λ c. c ≢ sep) w → split sep w ≡ w ∷ []
unfolding split
split-single sep [] h = refl
split-single sep (c ∷ w) (p, h) = ground (arith, split-single sep w h)

pub split-append :
    (sep : ℕ) (w s : Text) → All (λ c. c ≢ sep) w → split sep (w ++ sep ∷ s) ≡ w ∷ split sep s
unfolding split
split-append sep [] s h = ground arith
split-append sep (c ∷ w) s (p, h) = ground (arith, split-append sep w s h)

split_onto-All :
    (sep c : ℕ) (ws : List Text)
    → c ≢ sep
    → All (All (λ d. d ≢ sep)) ws
    → All (All (λ d. d ≢ sep)) (split_onto c ws)
split_onto-All sep c [] n h = ((n, tt), tt)
split_onto-All sep c (w ∷ ws) n (p, h) = ((n, p), h)

-- The parts hold no separator.
pub split-All : (sep : ℕ) (s : Text) → All (All (λ c. c ≢ sep)) (split sep s)
unfolding split
split-All sep [] = (tt, tt)
split-All sep (c ∷ s) = elim (Bool-cases (c == sep)) [
  | inl same ↦ rw same (tt, split-All sep s)
  | inr other ↦ rw other (split_onto-All sep c (split sep s) (ground arith) (split-All sep s))
]

join-split_onto :
    (sep c : ℕ) (ws : List Text) → join (sep ∷ []) (split_onto c ws) ≡ c ∷ join (sep ∷ []) ws
unfolding join
join-split_onto sep c [] = refl
join-split_onto sep c (w ∷ []) = refl
join-split_onto sep c (w ∷ v ∷ ws) = refl

-- There is always a first part.
split-uncons : (sep : ℕ) (s : Text) → (w : Text) × (ws : List Text) × (split sep s ≡ w ∷ ws)
unfolding split
split-uncons sep [] = ([], [], refl)
split-uncons sep (c ∷ s) =
    let (w, ws, e) = split-uncons sep s in
    elim (Bool-cases (c == sep)) [
      | inl same ↦ ([], split sep s, rw same)
      | inr other ↦ (c ∷ w, ws, rw (other, e))
    ]

join-nil :
    (sep : ℕ) (s : Text) → join (sep ∷ []) ([] ∷ split sep s) ≡ sep ∷ join (sep ∷ []) (split sep s)
unfolding join
join-nil sep s = let (w, ws, e) = split-uncons sep s in rw e

pub join-split : (sep : ℕ) (s : Text) → join (sep ∷ []) (split sep s) ≡ s
unfolding split
join-split sep [] = unfold join in refl
join-split sep (c ∷ s) = elim (Bool-cases (c == sep)) [
  | inl same ↦
      let here : c ≡ sep = ground arith in rw same (join-nil sep s ∙ cc (here, join-split sep s))
  | inr other ↦ rw other (join-split_onto sep c (split sep s) ∙ ap (λ t. c ∷ t) (join-split sep s))
]

-- Joining clean parts and splitting gives them back.
pub split-join :
    (sep : ℕ) (w : Text) (ws : List Text)
    → All (All (λ c. c ≢ sep)) (w ∷ ws)
    → split sep (join (sep ∷ []) (w ∷ ws)) ≡ w ∷ ws
unfolding join
split-join sep w [] (p, h) = split-single sep w p
split-join sep w (v ∷ ws) (p, h) =
    split-append sep w (join (sep ∷ []) (v ∷ ws)) p ∙ ap (λ t. w ∷ t) (split-join sep v ws h)
