-- ===== src/Posts/Editing.antt =====
-- `openEditTask` of frontend/app/(dashboard)/system/calendar/page.tsx, and the hour that a save of
-- the post then sends. The text of `toLocaleTimeString` is a parameter.
use dmtool.Base.{
  ℕ, ◌+◌, ◌-◌, ◌/◌, ◌%◌, ◌≤◌, ◌<◌, ◌≡◌, ◌≢◌, ap, ◌∙◌, false, [], ◌∷◌, ◌++◌, Option, none, some,
  Text, codes, All, split, arith,
}
use dmtool.Base.Splitting.{split-append, split-single}
use dmtool.Calendar.{
  Project, ScheduledDraft, Calendar, Env, blank_draft, get_project_platform, due, hours_of,
  minutes_of, or_number,
}
use dmtool.Calendar.Numbers.{plus, is_digit, digits_from, parse_int}
use dmtool.Projects.Digits.{parse_int-digit}
use dmtool.Posts.{Post}

unfoldable pub edit_draft : Option Project → Text → Post → ScheduledDraft
edit_draft project time p = record {
  title = p.title;
  platform = get_project_platform project;
  content_type = p.content_type;
  time = time;
  caption = p.caption;
  location = p.location;
  music = p.music;
  music_preview_url = [];
  tags = p.tags;
  asset_name = p.asset_name;
  file = none;
  thumbnail = none;
  thumbnail_name = [];
  thumbnail_url = some p.thumbnail_url;
  asset_url = some p.asset_url;
  preview_url = none;
}

module _ (Date : Type 0) where
  unfoldable pub open_edit_task : Date → Text → Post → Calendar Date → Calendar Date
  unfolding edit_draft
  open_edit_task date time p s = record s {
    editing_task = some p.id;
    selected_date = some date;
    selected_day = date;
    drafts = edit_draft s.project time p ∷ [];
  }

  unfoldable pub close_edit : Calendar Date → Calendar Date
  unfolding blank_draft
  close_edit s = record s { editing_task = none; drafts = blank_draft (codes "instagram") ∷ [] }

-- The two digits of a number below a hundred.
abbrev pub two_digits : ℕ → Text
two_digits n = (48 + n / 10) ∷ (48 + n % 10) ∷ []

-- A time on a clock of twelve hours, as `toLocaleTimeString` gives it where that is the custom: the
-- hour on the face, a colon, the minute, and a mark of the half of the day.
abbrev pub twelve_hour_text : ℕ → ℕ → Text → Text
twelve_hour_text face m half = two_digits face ++ (58 ∷ (two_digits m ++ half))

-- A mark of the half of the day: it starts with no digit and holds no colon.
abbrev pub IsHalf : Text → Type 0
IsHalf [] = Unit
IsHalf (c ∷ half) = (is_digit c ≡ false) × All (λ d. d ≢ 58) (c ∷ half)

digits_from-two :
    (n : ℕ) (half : Text) → n < 100 → IsHalf half → digits_from 0 (two_digits n ++ half) ≡ n
unfolding digits_from
digits_from-two n [] h k = ground (arith, h)
digits_from-two n (c ∷ half) h (d, k) = ground (arith, h, d)

parse_int-two :
    (n : ℕ) (half : Text) → n < 100 → IsHalf half → parse_int (two_digits n ++ half) ≡ plus n
parse_int-two n half h k =
    parse_int-digit (48 + n / 10) ((48 + n % 10) ∷ half) (ground (arith, h))
    ∙ ap plus (digits_from-two n half h k)

no_colon : (half : Text) → IsHalf half → All (λ d. d ≢ 58) half
no_colon [] h = tt
no_colon (c ∷ half) (d, h) = h

split-twelve :
    (face m : ℕ) (half : Text)
    → face < 100
    → m < 100
    → IsHalf half
    → split 58 (twelve_hour_text face m half) ≡ two_digits face ∷ (two_digits m ++ half) ∷ []
split-twelve face m half f h k =
    split-append 58 (two_digits face) (two_digits m ++ half) (ground (arith, f))
    ∙ ap (λ ws. two_digits face ∷ ws)
        (split-single 58 (two_digits m ++ half)
          (ground (arith, h), (ground (arith, h), no_colon half k)))

-- Where the browser writes times on a clock of twelve hours: a post that is due after one in the
-- afternoon and is opened for a change is saved for the same hour of the morning, if the user
-- leaves the time as it is. The minutes stay.
pub due-edit_draft :
    (Date : Type 0) (env : Env Date) (date : Date) (project : Option Project) (p : Post)
    → (h m : ℕ) (half : Text) → 13 ≤ h
    → h < 24
    → m < 60
    → IsHalf half
    → (due Date env date (edit_draft project (twelve_hour_text (h - 12) m half) p)
        ≡ env.set_hours date (plus (h - 12)) (plus m))
      × (h - 12 ≢ h)
unfolding edit_draft
due-edit_draft Date env date project p h m half a b c k =
    let e = split-twelve (h - 12) m half (omega (arith, a, b)) (omega (arith, c)) k in
    (
      ap (λ ws. env.set_hours date (hours_of ws) (minutes_of ws)) e
          ∙ ap
              (λ n.
                env.set_hours date (or_number n 10)
                  (minutes_of (two_digits (h - 12) ∷ (two_digits m ++ half) ∷ [])))
              (parse_int-two (h - 12) [] (omega (arith, b)) tt)
          ∙ ap (λ n. env.set_hours date (plus (h - 12)) (or_number n 0))
              (parse_int-two m half (omega (arith, c)) k),
      λ q. omega (arith, q, a),
    )
