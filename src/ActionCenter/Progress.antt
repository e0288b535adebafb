-- ===== src/ActionCenter/Progress.antt =====
-- The figures of the action center.
use dmtool.Base.{
  ℕ, ◌+◌, ◌*◌, ◌≤◌, ◌<◌, Bool, List, [], ◌∷◌, filter, length, ltb, arith, Bool-cases, inl, inr,
}
use native.Mathlib.Nat.{mul-div-le}
use dmtool.Billing.{round_div}
use dmtool.ActionCenter.{Task}
use dmtool.ActionCenter.Figures.{
  Percent, done_count, ai_tasks_done, ai_total, progress_percent, velocity_pct,
}

length-filter {ℓ} : {A : Type ℓ} (p : A → Bool) (xs : List A) → length (filter p xs) ≤ length xs
length-filter p [] = omega arith
length-filter p (x ∷ xs) = ground (arith, length-filter p xs)

ai_tasks_done-ai_total : (ts : List Task) → ai_tasks_done ts ≤ ai_total ts
unfolding ai_tasks_done ai_total
ai_tasks_done-ai_total [] = omega arith
ai_tasks_done-ai_total (t ∷ ts) = ground (arith, ai_tasks_done-ai_total ts)

round_div_bound : (a b : ℕ) → 0 < b → a ≤ b → round_div (100 * a) b ≤ 100
round_div_bound a b h k = let q = mul-div-le (2 * (100 * a) + b) (2 * b) in grind (arith, q)

-- A share of at most 100 percent, of something.
abbrev pub IsShare : Percent → Type 0
IsShare p = (p.part ≤ 100 * p.whole) × (1 ≤ p.whole)

progress_percent-IsShare : (ts : List Task) → IsShare (progress_percent ts)
unfolding progress_percent done_count
progress_percent-IsShare ts = ground (arith, length-filter (λ t. t.is_done) ts)

velocity_pct-IsShare : (ts : List Task) → IsShare (velocity_pct ts)
unfolding velocity_pct
velocity_pct-IsShare ts = elim (Bool-cases (ltb 0 (ai_total ts))) [
  | inl y ↦ rw y (
    omega (
      arith,
      round_div_bound (ai_tasks_done ts) (ai_total ts) (ground (arith, y))
          (ai_tasks_done-ai_total ts),
    ),
    omega arith,
  )
  | inr n ↦ rw n (progress_percent-IsShare ts)
]

-- The bar and the pace of the action center never leave their scale, whatever the tasks: each is at
-- most 100 percent, with a divisor that is not zero, also without tasks and without tasks of the AI.
pub percent_bounds : (ts : List Task) → IsShare (progress_percent ts) × IsShare (velocity_pct ts)
percent_bounds ts = (progress_percent-IsShare ts, velocity_pct-IsShare ts)
