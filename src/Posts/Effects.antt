-- ===== src/Posts/Effects.antt =====
-- What frontend/app/(dashboard)/system/calendar/page.tsx lists of its posts, and its effects behind a
-- change of the posts and a tick of the clock.
use dmtool.Base.{
  ℕ, ◌+◌, Bool, true, false, not, ◌&&◌, List, [], ◌∷◌, filter, any, Option, none, some, Text, codes,
  text_eq, leb, ltb, ◌==◌, if◌then◌else◌,
}
use dmtool.Posts.{Post, Board, is_published, parse_filled}

-- What is listed: under the filter, and of a day.
module _ (to_lower : Text → Text) where
  unfoldable pub filtered_posts : Text → List Post → List Post
  filtered_posts f ps =
      if text_eq f (codes "All") then ps else filter (λ p. text_eq p.publish_status (to_lower f)) ps

abbrev pub is_on : ℕ → ℕ → ℕ → Post → Bool
is_on y m d p = p.year == y && p.month == m && p.day == d

unfoldable pub task_list_for : ℕ → ℕ → ℕ → List Post → List Post
task_list_for y m d ps = filter (is_on y m d) ps

-- The effect behind each change of the posts: which posts it announces.
unfoldable pub find_post : ℕ → List Post → Option Post
find_post i [] = none
find_post i (p ∷ ps) = if p.id == i then some p else find_post i ps

abbrev pub was_unpublished : Option Post → Bool
was_unpublished none = false
was_unpublished (some p) = not (is_published p)

abbrev pub has_any : List Post → Bool
has_any [] = false
has_any (p ∷ ps) = true

unfoldable pub announced : List Post → List Post → List Post
unfolding find_post
announced previous posts =
    if has_any previous && has_any posts
    then filter (λ p. was_unpublished (find_post p.id previous) && is_published p) posts
    else []

-- Whether a post is due within the second before `now`.
abbrev pub has_come : ℕ → ℕ → Bool
has_come now due = leb due now && ltb now (due + 1000)

abbrev pub is_due_now : (Text → Option ℕ) → ℕ → Post → Bool
is_due_now get_time now p = not p.is_done && due_at (parse_filled get_time p.due_date)
  where
    due_at : Option ℕ → Bool
    due_at none = false
    due_at (some due) = has_come now due

-- The effect of each tick of the clock, while a day is shown.
unfoldable pub needs_refresh : (Text → Option ℕ) → ℕ → Board → Bool
needs_refresh get_time now b = b.show_day_details && any (is_due_now get_time now) b.posts
