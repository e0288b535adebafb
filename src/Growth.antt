-- ===== src/Growth.antt =====
-- frontend/components/dashboard/growth-snapshot.tsx: what a tile's texts say as numbers, and when the
-- growth index is shown. A number is a decimal fraction; that a float of more than 308 digits is
-- infinite is left out. `toLowerCase` is only used on the letters k and m.
pub mod Signals
mod Tests
use dmtool.Base.{
  ℕ, zero, suc, ◌+◌, ◌*◌, Bool, true, false, not, ◌&&◌, ◌||◌, List, [], ◌∷◌, map, any, all, filter,
  length, Option, none, some, Text, codes, text_eq, is_empty, is_space, trim, ltb, ◌==◌,
  if◌then◌else◌,
}
use dmtool.Calendar.Numbers.{is_digit, digits_from}

-- The sign, the digits as a number, and how many of them stand behind the point.
pub record Decimal : Type 0 where
  pub negative : Bool
  pub digits : ℕ
  pub decimals : ℕ

abbrev pub is_zero : Decimal → Bool
is_zero d = d.digits == 0

-- The leading digits and the rest.
abbrev pub onto : ℕ → Text × Text → Text × Text
onto c (ds, rest) = (c ∷ ds, rest)

unfoldable pub span_digits : Text → Text × Text
span_digits [] = ([], [])
span_digits (c ∷ s) = let more = onto c (span_digits s) in if is_digit c then more else ([], c ∷ s)

-- `\d*\.?\d+`, with what follows.
abbrev pub fraction : Bool → Text → Text × Text → Option (Decimal × Text)
fraction neg whole ([], rest) = none
fraction neg whole (d ∷ ds, rest) = some (
  record {
    negative = neg;
    digits = digits_from (digits_from 0 whole) (d ∷ ds);
    decimals = length (d ∷ ds);
  },
  rest,
)

abbrev pub whole_number : Bool → Text → Text → Option (Decimal × Text)
whole_number neg [] rest = none
whole_number neg (d ∷ ds) rest =
    some (record { negative = neg; digits = digits_from 0 (d ∷ ds); decimals = 0 }, rest)

-- A point that no digit follows is not part of the number.
abbrev pub or_whole : Option (Decimal × Text) → Option (Decimal × Text) → Option (Decimal × Text)
or_whole none w = w
or_whole (some r) w = some r

abbrev pub after_whole : Bool → Text × Text → Option (Decimal × Text)
after_whole neg (whole, []) = whole_number neg whole []
after_whole neg (whole, c ∷ rest) =
    if c == 46
    then or_whole (fraction neg whole (span_digits rest)) (whole_number neg whole (c ∷ rest))
    else whole_number neg whole (c ∷ rest)

unfoldable pub read_number : Text → Option (Decimal × Text)
unfolding span_digits digits_from
read_number [] = none
read_number (c ∷ s) =
    if c == 45 then after_whole true (span_digits s) else after_whole false (span_digits (c ∷ s))

abbrev pub if_all_read : Option (Decimal × Text) → Option Decimal
if_all_read none = none
if_all_read (some (d, [])) = some d
if_all_read (some (d, c ∷ rest)) = none

-- `parseChangeValue`; a value that is not a text is none.
unfoldable pub parse_change_value : Option Text → Option Decimal
unfolding read_number
parse_change_value none = none
parse_change_value (some change) =
    if_all_read
      (read_number (filter (λ c. not (c == 43 || c == 37 || is_space c || c == 44)) change))

abbrev pub times : ℕ → Decimal → Decimal
times k d = record d { digits = k * d.digits }

-- Behind the number may stand a k or an m, small or capital.
abbrev pub with_suffix : Option (Decimal × Text) → Option Decimal
with_suffix none = none
with_suffix (some (d, [])) = some d
with_suffix (some (d, c ∷ [])) =
    if c == 107 || c == 75
    then some (times 1000 d)
    else if c == 109 || c == 77
    then some (times 1000000 d)
    else none
with_suffix (some (d, c ∷ e ∷ rest)) = none

unfoldable pub parse_display_number : Option Text → Option Decimal
unfolding read_number trim
parse_display_number none = none
parse_display_number (some value) =
    if is_empty (trim value) || text_eq (trim value) (codes "—")
    then none
    else with_suffix
        (read_number (filter (λ c. not (c == 37 || c == 44 || is_space c)) (trim value)))

pub data Trend : Type 0 where
  flat other : Trend

pub record Stat : Type 0 where
  pub label : Text
  pub value : Option Text
  pub change : Option Text
  pub trend : Trend

abbrev pub is_signal : Option Decimal → Bool
is_signal none = false
is_signal (some d) = not (is_zero d)

unfoldable pub tile_has_signal : Stat → Bool
unfolding parse_display_number parse_change_value
tile_has_signal s =
    is_signal (parse_display_number s.value) || is_signal (parse_change_value s.change)

abbrev pub traffic_signal_labels : List Text
traffic_signal_labels = codes "Organic Traffic" ∷ codes "Search Impressions" ∷ []

abbrev pub social_signal_labels : List Text
social_signal_labels =
    codes "Engagement Rate" ∷ codes "Total Followers" ∷ codes "Audience Reach" ∷ []

abbrev pub has_labelled_signal : List Text → List Stat → Bool
has_labelled_signal labels stats =
    any (λ s. any (text_eq s.label) labels && tile_has_signal s) stats

-- The health score of the project, and the tiles of the website and of the networks.
unfoldable pub has_underlying_growth_signal : ℕ → List Stat → List Stat → Bool
unfolding tile_has_signal
has_underlying_growth_signal health website social =
    ltb 0 health
    || has_labelled_signal traffic_signal_labels website
    || has_labelled_signal social_signal_labels social

abbrev pub blanked : Stat → Stat
blanked s =
    if text_eq s.label (codes "Growth Index")
    then record s { value = some (codes "—"); change = some (codes "—"); trend = flat }
    else s

unfoldable pub honest_combined_stats : List Stat → ℕ → List Stat → List Stat → List Stat
unfolding has_underlying_growth_signal
honest_combined_stats stats health website social =
    if has_underlying_growth_signal health website social then stats else map blanked stats
