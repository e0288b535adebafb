-- ===== src/Calendar/Numbers.antt =====
-- `parseInt(s, 10)`.
use dmtool.Base.{ℕ, ◌+◌, ◌-◌, ◌*◌, Bool, ◌&&◌, [], ◌∷◌, Text, leb, ◌==◌, trim_start, if◌then◌else◌}

pub data Parsed : Type 0 where
  nan : Parsed
  plus minus : ℕ → Parsed

abbrev pub is_digit : ℕ → Bool
is_digit c = leb 48 c && leb c 57

-- The number of the leading digits, behind those already read.
unfoldable pub digits_from : ℕ → Text → ℕ
digits_from n [] = n
digits_from n (c ∷ s) =
    let more = digits_from (10 * n + (c - 48)) s in if is_digit c then more else n

abbrev pub signed : (ℕ → Parsed) → Text → Parsed
signed sign [] = nan
signed sign (c ∷ s) = if is_digit c then sign (digits_from 0 (c ∷ s)) else nan

abbrev pub after_space : Text → Parsed
after_space [] = nan
after_space (c ∷ s) =
    if c == 43 then signed plus s else if c == 45 then signed minus s else signed plus (c ∷ s)

unfoldable pub parse_int : Text → Parsed
unfolding trim_start
parse_int s = after_space (trim_start s)
