-- ===== src/Calendar/Tests.antt =====
-- The calendar at concrete inputs.
use dmtool.Base.{
  ℕ, ◌+◌, ◌*◌, ◌≤◌, ◌<◌, ◌≡◌, refl, true, List, [], ◌∷◌, none, some, Text, codes, text_eq, length,
  filter, arith,
}
use dmtool.Calendar.{
  File, ScheduledDraft, Project, Env, Calendar, blank_draft, remove_draft_row,
  save_scheduled_content, is_valid, has_suffix, is_video_url, title,
}
use dmtool.Api.{show}
use dmtool.Calendar.Clock.{pad_start, am, pm, parse_time_str, build_time_str}
use dmtool.Calendar.TwelveHours.{time_text, IsMinute, build_time_str-parse_time_str}
use dmtool.Calendar.Numbers.{plus, parse_int, digits_from}
use dmtool.Calendar.Drafts.{Edit, added, removed, updated, run, run_positive, remove_draft_row_lem}
use dmtool.Calendar.Saving.{IsSaved, save_scheduled_content_lem}

parse_hours : parse_int (codes " 09x") ≡ plus 9
unfolding parse_int digits_from
parse_hours = refl

video : is_video_url (codes "/a/b.MP4") ≡ true
unfolding has_suffix text_eq
video = refl

abbrev object_url : File → Text
object_url f = f.name

abbrev drafts : List ScheduledDraft
drafts = blank_draft (codes "instagram") ∷ []

abbrev edits : List Edit
edits = added ∷ updated 1 title (codes "x") ∷ removed 0 ∷ removed 0 ∷ []

run_positive_example : 1 ≤ length (run object_url none drafts edits)
run_positive_example = run_positive object_url none drafts edits (omega arith)

remove_draft_row_example :
    (length drafts ≡ 1 → remove_draft_row 0 drafts ≡ drafts)
    × (2 ≤ length drafts
        → 0 < length drafts
        → length (remove_draft_row 0 drafts) + 1 ≡ length drafts)
    × (length drafts ≤ 0 → remove_draft_row 0 drafts ≡ drafts)
remove_draft_row_example = remove_draft_row_lem 0 drafts

abbrev shop : Project
shop = record {
  id = 3;
  ig_handles = none ∷ some (codes "shop") ∷ [];
  fb_handles = [];
  twitter_handle = none;
  linkedin_handle = none;
}

-- The 7th of a month, as a number of days; every upload succeeds.
abbrev clock : Env ℕ
clock = record { set_hours = λ d h m. d * 86400000; now = λ n. 5; succeeds = λ n u. true }

abbrev planned : Calendar ℕ
planned = record {
  project = some shop;
  selected_date = some 7;
  selected_day = 7;
  editing_task = none;
  drafts =
      record (blank_draft (codes "instagram")) {
        file = some (record { name = codes "a.png"; mime = codes "image/png" });
      }
      ∷ [];
  uploads = [];
}

save_scheduled_content_example :
    IsSaved clock shop 7 planned
      (filter is_valid planned.drafts)
      (save_scheduled_content ℕ clock planned)
save_scheduled_content_example = save_scheduled_content_lem clock shop 7 planned refl refl

five_past : IsMinute (codes "05")
five_past = (refl, omega arith)

build_time_str_example :
    (let c = parse_time_str (time_text 14 (codes "05")) in
      build_time_str c.h12 c.m c.ampm ≡ time_text 14 (codes "05"))
    × (parse_time_str (build_time_str (pad_start (show 3)) (codes "05") pm)
        ≡ record { h12 = pad_start (show 3); m = codes "05"; ampm = pm })
build_time_str_example =
    build_time_str-parse_time_str 14 3 (codes "05") pm (omega arith) (omega arith) (omega arith)
      five_past

midnight : build_time_str (codes "12") (codes "5") am ≡ codes "00:05"
unfolding build_time_str digits_from show
midnight = refl
