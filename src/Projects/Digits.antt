-- ===== src/Projects/Digits.antt =====
-- A number that a template string prints is the number that `parseInt` reads back.
use dmtool.Base.{
  ℕ, suc, ◌+◌, ◌-◌, ◌*◌, ◌/◌, ◌%◌, ◌≤◌, ◌<◌, ◌≡◌, refl, sym, ap, ◌∙◌, zero, true, false, [], ◌∷◌,
  Text, All, ltb, ◌==◌, trim_start, is_space, arith, Bool-cases, inl, inr,
}
use dmtool.Api.{digits, show}
use dmtool.Calendar.Numbers.{is_digit, digits_from, plus, parse_int}

digits_from-digits :
    (fuel n : ℕ) (rest : Text) → n < fuel → digits_from 0 (digits fuel n rest) ≡ digits_from n rest
unfolding digits digits_from
digits_from-digits zero n rest h = absurd (omega arith)
digits_from-digits (suc fuel) n rest h = elim (Bool-cases (ltb n 10)) [
  | inl small ↦
      let d : is_digit (48 + n) ≡ true = ground arith in
      let e : 10 * 0 + ((48 + n) - 48) ≡ n = omega arith in rw (small, d, e) refl
  | inr large ↦
      let b : 10 ≤ n = ground arith in
      let d : is_digit (48 + n % 10) ≡ true = ground arith in
      let e : 10 * (n / 10) + ((48 + n % 10) - 48) ≡ n = omega (arith, b) in
      rw large
        (digits_from-digits fuel (n / 10) ((48 + n % 10) ∷ rest) (omega arith) ∙ rw (d, e) refl)
]

-- What is printed starts with a digit.
digits-cons :
    (fuel n : ℕ) (rest : Text)
    → n < fuel
    → (c : ℕ) × (s : Text) × (is_digit c ≡ true) × (digits fuel n rest ≡ c ∷ s)
unfolding digits
digits-cons zero n rest h = absurd (omega arith)
digits-cons (suc fuel) n rest h = elim (Bool-cases (ltb n 10)) [
  | inl small ↦ (48 + n, rest, ground arith, rw small refl)
  | inr large ↦
      let b : 10 ≤ n = ground arith in
      let (c, s, p, e) = digits-cons fuel (n / 10) ((48 + n % 10) ∷ rest) (omega arith) in
      (c, s, p, rw large e)
]

pub parse_int-digit :
    (c : ℕ) (s : Text) → is_digit c ≡ true → parse_int (c ∷ s) ≡ plus (digits_from 0 (c ∷ s))
unfolding parse_int trim_start
parse_int-digit c s h =
    let n : is_space c ≡ false = ground arith in
    let p : (c == 43) ≡ false = ground arith in
    let m : (c == 45) ≡ false = ground arith in rw (n, p, m, h) refl

pub parse_int-show : (n : ℕ) → parse_int (show n) ≡ plus n
unfolding show digits_from
parse_int-show n =
    let (c, s, d, e) = digits-cons (suc n) n [] (omega arith) in
    ap parse_int e
    ∙ parse_int-digit c s d
    ∙ ap (λ t. plus (digits_from 0 t)) (sym e)
    ∙ ap plus (digits_from-digits (suc n) n [] (omega arith))

pub show-cons : (n : ℕ) → (c : ℕ) × (s : Text) × (show n ≡ c ∷ s)
unfolding show
show-cons n = let (c, s, d, e) = digits-cons (suc n) n [] (omega arith) in (c, s, e)

-- What holds of each digit holds of all that is printed.
digits-All :
    (P : ℕ → Type 0)
    → ((d : ℕ) → d < 10 → P (48 + d))
    → (fuel n : ℕ) (rest : Text) → All P rest
    → All P (digits fuel n rest)
unfolding digits
digits-All P f zero n rest h = h
digits-All P f (suc fuel) n rest h = elim (Bool-cases (ltb n 10)) [
  | inl small ↦ rw small (f n (ground arith), h)
  | inr large ↦
      rw large (digits-All P f fuel _ ((48 + n % 10) ∷ rest) (f (n % 10) (omega arith), h))
]

pub show-All : (P : ℕ → Type 0) → ((d : ℕ) → d < 10 → P (48 + d)) → (n : ℕ) → All P (show n)
unfolding show
show-All P f n = digits-All P f (suc n) n [] tt

pub show-injective : (m n : ℕ) → show m ≡ show n → m ≡ n
show-injective m n h = plus_eq (sym (parse_int-show m) ∙ ap parse_int h ∙ parse_int-show n)
  where
    plus_eq : plus m ≡ plus n → m ≡ n
    plus_eq e = cc e
