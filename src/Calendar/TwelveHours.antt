-- ===== src/Calendar/TwelveHours.antt =====
-- The twelve hours of the menus and the twenty-four of a draft are the same times.
use dmtool.Base.{
  ℕ, ◌%◌, ◌+◌, ◌<◌, ◌≤◌, ◌≡◌, ◌≢◌, refl, sym, ap, ◌∙◌, true, false, [], ◌∷◌, ◌++◌, Text, codes, All,
  split, leb, ◌==◌, if◌then◌else◌, arith, Bool-cases, inl, inr, is_empty,
}
use mathlib.Core.Path.{subst}
use dmtool.Base.Splitting.{split-append, split-single}
use dmtool.Api.{show}
use dmtool.Api.Query.{IsDigit, show-IsDigit}
use dmtool.Calendar.Numbers.{Parsed, plus, parse_int, digits_from, is_digit}
use dmtool.Projects.Digits.{parse_int-show, parse_int-digit, show-cons}
use dmtool.Calendar.Clock.{
  pad_start, HalfDay, am, pm, Clock, hour_on_face, is_pm, clock_of, parse_time_str, print,
  hour_of_day, build_time_str,
}

digit_test : (c : ℕ) → IsDigit c → is_digit c ≡ true
digit_test c h = ground arith

parse_int-pad_cons :
    (c : ℕ) (s : Text) → IsDigit c → parse_int (pad_start (c ∷ s)) ≡ parse_int (c ∷ s)
unfolding digits_from
parse_int-pad_cons c [] h =
    parse_int-digit 48 (c ∷ []) refl ∙ sym (parse_int-digit c [] (digit_test c h))
parse_int-pad_cons c (d ∷ s) h = refl

parse_int-pad_start : (n : ℕ) → parse_int (pad_start (show n)) ≡ plus n
parse_int-pad_start n =
    let (c, s, e) = show-cons n in
    ap (λ t. parse_int (pad_start t)) e
    ∙ parse_int-pad_cons c s (subst (All IsDigit) e (show-IsDigit n)).0
    ∙ ap parse_int (sym e)
    ∙ parse_int-show n

digits_no_colon : (s : Text) → All IsDigit s → All (λ c. c ≢ 58) s
digits_no_colon [] h = tt
digits_no_colon (c ∷ s) (p, h) = (omega (arith, p), digits_no_colon s h)

pad_start-no_colon : (s : Text) → All (λ c. c ≢ 58) s → All (λ c. c ≢ 58) (pad_start s)
pad_start-no_colon [] h = omega arith
pad_start-no_colon (c ∷ []) (p, h) = (omega arith, (p, tt))
pad_start-no_colon (c ∷ d ∷ s) h = h

-- The hour on the face and the half of the day.
abbrev pub face : ℕ → ℕ
face n = if n % 12 == 0 then 12 else n % 12

abbrev pub half : ℕ → HalfDay
half n = if leb 12 n then pm else am

hour_of_day-face : (n : ℕ) → n < 24 → hour_of_day (half n) (plus (face n)) ≡ plus n
hour_of_day-face n h = elim (Bool-cases (leb 12 n)) [
  | inl y ↦ let b : 12 ≤ n = ground arith in rw y (ground arith)
  | inr x ↦ let b : n < 12 = ground arith in rw x (ground arith)
]

-- A minute as the menus write it.
abbrev pub IsMinute : Text → Type 0
IsMinute m = (pad_start m ≡ m) × All (λ c. c ≢ 58) m

abbrev pub time_text : ℕ → Text → Text
time_text n m = pad_start (show n) ++ 58 ∷ m

not_empty : (t u : Text) → is_empty (t ++ 58 ∷ u) ≡ false
not_empty [] u = refl
not_empty (c ∷ t) u = refl

split-time :
    (n : ℕ) (m : Text) → IsMinute m → split 58 (time_text n m) ≡ pad_start (show n) ∷ m ∷ []
split-time n m (p, q) =
    split-append 58 (pad_start (show n)) m
      (pad_start-no_colon (show n) (digits_no_colon (show n) (show-IsDigit n)))
    ∙ ap (λ ws. pad_start (show n) ∷ ws) (split-single 58 m q)

abbrev clock_at : Parsed → Text → Clock
clock_at h m = record { h12 = pad_start (hour_on_face h); m = m; ampm = if is_pm h then pm else am }

parse_time_str-time :
    (n : ℕ) (m : Text)
    → IsMinute m
    → parse_time_str (time_text n m)
      ≡ record { h12 = pad_start (show (face n)); m = m; ampm = half n }
unfolding parse_time_str
parse_time_str-time n m h =
    ap (λ b. clock_of (split 58 (if b then codes "10:00" else time_text n m)))
      (not_empty (pad_start (show n)) m)
    ∙ ap clock_of (split-time n m h)
    ∙ ap (λ k. clock_at k (pad_start m)) (parse_int-pad_start n)
    ∙ ap (clock_at (plus n)) h.0

abbrev shown_at : Text → Text → HalfDay → Clock
shown_at h m a = record { h12 = pad_start h; m = m; ampm = a }

build_time_str-face :
    (r : ℕ) (n : ℕ) (m : Text) (a : HalfDay)
    → pad_start m ≡ m
    → hour_of_day a (plus r) ≡ plus n
    → build_time_str (pad_start (show r)) m a ≡ time_text n m
unfolding build_time_str
build_time_str-face r n m a p e =
    ap (λ h. pad_start (print (hour_of_day a h)) ++ 58 ∷ pad_start m) (parse_int-pad_start r)
    ∙ ap (λ h. pad_start (print h) ++ 58 ∷ pad_start m) e
    ∙ ap (λ t. time_text n t) p

-- The hour of the day that the menus mean.
abbrev pick : HalfDay → ℕ → ℕ
pick pm r = if r == 12 then r else r + 12
pick am r = if r == 12 then 0 else r

hour_of_day-pick : (a : HalfDay) (r : ℕ) → hour_of_day a (plus r) ≡ plus (pick a r)
hour_of_day-pick pm r = elim (Bool-cases (r == 12)) [ inl y ↦ rw y refl | inr n ↦ rw n refl ]
hour_of_day-pick am r = elim (Bool-cases (r == 12)) [ inl y ↦ rw y refl | inr n ↦ rw n refl ]

face-pick : (a : HalfDay) (r : ℕ) → 1 ≤ r → r ≤ 12 → face (pick a r) ≡ r
face-pick pm r h k = ground arith
face-pick am r h k = ground arith

half-pick : (a : HalfDay) (r : ℕ) → 1 ≤ r → r ≤ 12 → half (pick a r) ≡ a
half-pick pm r h k = ground arith
half-pick am r h k = ground arith

-- The menus and the text of a draft name the same times. A text of an hour below 24 and a minute of
-- at least two characters, taken apart for the menus and put together again, is the same text; and an
-- hour from 1 to 12, such a minute and a half of the day, put together, are taken apart as they were.
pub build_time_str-parse_time_str :
    (n r : ℕ) (m : Text) (a : HalfDay)
    → n < 24
    → 1 ≤ r
    → r ≤ 12
    → IsMinute m
    → (let c = parse_time_str (time_text n m) in build_time_str c.h12 c.m c.ampm ≡ time_text n m)
      × (parse_time_str (build_time_str (pad_start (show r)) m a)
          ≡ record { h12 = pad_start (show r); m = m; ampm = a })
build_time_str-parse_time_str n r m a h i j k = (
  ap (λ c. build_time_str c.h12 c.m c.ampm) (parse_time_str-time n m k)
      ∙ build_time_str-face (face n) n m (half n) k.0 (hour_of_day-face n h),
  ap parse_time_str (build_time_str-face r (pick a r) m a k.0 (hour_of_day-pick a r))
      ∙ parse_time_str-time (pick a r) m k
      ∙ ap (λ x. shown_at (show x) m (half (pick a r))) (face-pick a r i j)
      ∙ ap (shown_at (show r) m) (half-pick a r i j),
)
