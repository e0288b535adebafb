-- ===== src/Calendar/Clock.antt =====
-- `parseTimeStr` and `buildTimeStr` of frontend/app/(dashboard)/system/calendar/page.tsx: the time of
-- a draft as the menus show it, and back.
use dmtool.Base.{
  ◌+◌, ◌-◌, ◌%◌, Bool, false, List, [], ◌∷◌, ◌++◌, Text, codes, is_empty, split, leb, ◌==◌,
  if◌then◌else◌,
}
use dmtool.Api.{show}
use dmtool.Calendar.Numbers.{Parsed, nan, plus, minus, parse_int}

-- `t.padStart(2, "0")`.
abbrev pub pad_start : Text → Text
pad_start [] = codes "00"
pad_start (c ∷ []) = 48 ∷ c ∷ []
pad_start t = t

pub data HalfDay : Type 0 where
  am pm : HalfDay

pub record Clock : Type 0 where
  pub h12 : Text
  pub m : Text
  pub ampm : HalfDay

-- `h % 12 || 12`; the remainder has the sign of the number.
abbrev pub hour_on_face : Parsed → Text
hour_on_face nan = show 12
hour_on_face (plus n) = show (if n % 12 == 0 then 12 else n % 12)
hour_on_face (minus n) = if n % 12 == 0 then show 12 else codes "-" ++ show (n % 12)

abbrev pub is_pm : Parsed → Bool
is_pm (plus n) = leb 12 n
is_pm _ = false

abbrev pub first_part : List Text → Text
first_part [] = []
first_part (w ∷ ws) = w

-- `mStr?.padStart(2, "0") || "00"`.
abbrev pub minute_part : List Text → Text
minute_part (h ∷ m ∷ ws) = pad_start m
minute_part _ = codes "00"

abbrev pub clock_of : List Text → Clock
clock_of ws =
    let h = parse_int (first_part ws) in
    record {
      h12 = pad_start (hour_on_face h);
      m = minute_part ws;
      ampm = if is_pm h then pm else am;
    }

unfoldable pub parse_time_str : Text → Clock
unfolding parse_int split
parse_time_str time = clock_of (split 58 (if is_empty time then codes "10:00" else time))

abbrev pub print : Parsed → Text
print nan = codes "NaN"
print (plus n) = show n
print (minus n) = if n == 0 then show n else codes "-" ++ show n

abbrev pub add_twelve : Parsed → Parsed
add_twelve nan = nan
add_twelve (plus n) = plus (n + 12)
add_twelve (minus n) = if leb n 12 then plus (12 - n) else minus (n - 12)

abbrev pub is_twelve : Parsed → Bool
is_twelve (plus n) = n == 12
is_twelve _ = false

abbrev pub hour_of_day : HalfDay → Parsed → Parsed
hour_of_day pm h = if is_twelve h then h else add_twelve h
hour_of_day am h = if is_twelve h then plus 0 else h

unfoldable pub build_time_str : Text → Text → HalfDay → Text
unfolding parse_int
build_time_str h12 m ampm =
    pad_start (print (hour_of_day ampm (parse_int h12))) ++ (codes ":" ++ pad_start m)
