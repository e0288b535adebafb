-- ===== src/Posts/Tests.antt =====
-- Concrete inputs for the theorems on the posts of the calendar.
use dmtool.Base.{
  ℕ, ◌+◌, ◌*◌, ◌≤◌, ◌≡◌, ◌≢◌, refl, ap, true, false, List, [], ◌∷◌, Option, none, some, Text, codes,
  text_eq, arith, returned, threw, ◌-◌,
}
use mathlib.Core.List.{Memᴰ}
use dmtool.Api.{show}
use dmtool.Calendar.{Env, due}
use dmtool.Calendar.Numbers.{Parsed, plus, parse_int}
use dmtool.Projects
use dmtool.Projects.{Project, Page}
use dmtool.Projects.Digits.{parse_int-show}
use dmtool.Projects.Memory.{memory, memory-IsWritable}
use dmtool.Projects.Pages.{load_ranks}
use dmtool.Posts.{Dates, Post, Board, fetch_data}
use dmtool.Posts.Effects.{find_post, announced}
use dmtool.Posts.Choosing.{fetch_data-calendar}
use dmtool.Posts.Announcing.{announcements, count, announcements_once}
use dmtool.Posts.Editing.{edit_draft, twelve_hour_text, due-edit_draft}

-- `Number` on the texts that the pages write.
abbrev number_of : Parsed → Option ℕ
number_of (plus n) = some n
number_of _ = none

abbrev to_number : Text → Option ℕ
to_number t = number_of (parse_int t)

reads_numbers : (n : ℕ) → to_number (show n) ≡ some n
reads_numbers n = ap number_of (parse_int-show n)

-- Dates that are the number of a day.
abbrev days : Dates
days = record {
  Date = ℕ;
  parse = λ t. some 1;
  build = λ y c m d. d;
  get_date = λ d. d;
  get_month = λ d. 0;
  get_full_year = λ d. 2026;
  to_time = λ d. codes "10:00 AM";
}

abbrev site : ℕ → Project
site i = record {
  id = i;
  ig_handle = none;
  fb_handle = none;
  facebook_handle = none;
  twitter_handle = none;
  linkedin_handle = none;
}

abbrev page : Page (Option ℕ)
page = record { projects = []; project = none; content = none; loading = false; syncing = false }

abbrev board : Board
board = record {
  projects = [];
  project = none;
  posts = [];
  loading = true;
  post_filter = codes "All";
  show_day_details = true;
}

fetch_calendar_example :
    (let load = load_ranks memory (λ i. returned (some i)) in
      let a =
        Projects.fetch_data memory load
          (some 4)
          (returned (some (site 2 ∷ site 4 ∷ site 9 ∷ [])))
          ([], page) in
      let c =
        fetch_data days to_number memory
          (λ i. threw)
          none
          (returned (some (site 9 ∷ site 4 ∷ [])))
          (a.0, board) in
      (r : Project) × (a.1.project ≡ some (site 4))
      × (c.1.project ≡ some r)
      × (r.id ≡ 4)
      × (c.1.loading ≡ false))
unfolding Projects.choose Projects.default_project Projects.find
fetch_calendar_example =
    fetch_data-calendar days to_number memory (λ i. threw) memory-IsWritable reads_numbers
      (load_ranks memory (λ i. returned (some i))) (λ p s d. unfold load_ranks in refl) (some 4)
      (site 2) (site 9) (site 4 ∷ site 9 ∷ []) (site 4 ∷ []) [] page board four
      (Memᴰ.tail (Memᴰ.head refl))
  where
    four : (site 4).id ≢ 0
    four h = omega (arith, h)

abbrev post : Text → Post
post status = record {
  id = 3;
  day = 1;
  month = 0;
  year = 2026;
  title = codes "Sale";
  platform = codes "instagram";
  content_type = codes "post";
  asset_name = [];
  asset_url = [];
  thumbnail_url = [];
  caption = [];
  location = [];
  music = [];
  tags = [];
  due_date = none;
  publish_status = status;
  publish_error = [];
  is_done = false;
  time = [];
}

abbrev waiting : List Post
waiting = post (codes "scheduled") ∷ []

abbrev out : List Post
out = post (codes "published") ∷ []

told_once : announcements waiting (waiting ∷ out ∷ out ∷ []) ≡ out
unfolding announcements announced find_post text_eq
told_once = refl

-- The page opens with no posts, and shows the posts of another project in between.
announcements_example :
    count 3 (announcements [] (waiting ∷ [] ∷ waiting ∷ out ∷ [] ∷ out ∷ [])) ≤ 1
unfolding text_eq
announcements_example =
    announcements_once 3 [] (waiting ∷ [] ∷ waiting ∷ out ∷ [] ∷ out ∷ []) (ground arith) (
      (λ h. cc h),
      (
        (λ h. cc h),
        ((λ h. cc h), ((λ h. cc h), ((λ h. (tt, (((λ e. refl), tt), tt))), ((λ h. cc h), tt)))),
      ),
    )

abbrev value : Parsed → ℕ
value (plus n) = n
value _ = 0

abbrev clock : Env ℕ
clock = record {
  set_hours = λ d h m. d * 86400000 + (value h * 3600000 + value m * 60000);
  now = λ n. 0;
  succeeds = λ n u. true;
}

due_example :
    (due ℕ clock 1 (edit_draft none (twelve_hour_text (14 - 12) 30 (codes " PM")) (post []))
      ≡ clock.set_hours 1 (plus (14 - 12)) (plus 30))
    × (14 - 12 ≢ 14)
due_example =
    due-edit_draft ℕ clock 1 none (post []) 14 30 (codes " PM") (omega arith) (omega arith)
      (omega arith) (refl, ground arith)
