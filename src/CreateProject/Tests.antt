-- ===== src/CreateProject/Tests.antt =====
-- The form of a new project at concrete inputs.
use dmtool.Base.{
  ◌≤◌, ◌≡◌, refl, true, false, List, [], ◌∷◌, none, some, codes, text_eq, strip_prefix, returned,
  threw, length,
}
use dmtool.CreateProject.{
  CreatePage, opened, is_disabled, needs_social_login, body_of, handle_submit, on_address,
  on_window_closed, on_success_message, format_url, Event, submitted, success_message, answered,
  goal_chosen, name_typed, run,
}
use dmtool.CreateProject.Posting.{posts_bounded, count_submits, submit_posts}
use dmtool.CreateProject.Waiting.{closed_window_blocks}

plain_address : format_url (codes "shop.com") ≡ codes "https://shop.com"
unfolding format_url strip_prefix
plain_address = refl

abbrev social_form : CreatePage
social_form = record opened {
  name = codes "Shop";
  goal = codes "social";
  active_socials = codes "instagram" ∷ [];
}

login_needed : needs_social_login (codes "social") (codes "instagram" ∷ []) ≡ true
unfolding text_eq
login_needed = refl

abbrev later : List Event
later = submitted true ∷ success_message ∷ answered threw ∷ []

closed_window_example :
    (is_disabled (
        run
          (on_window_closed
            (on_address (returned (some (codes "https://x"))) (handle_submit true social_form)))
          later)
      ≡ true)
    × (is_disabled (run (on_address (returned none) (handle_submit false social_form)) later)
        ≡ true)
closed_window_example =
    closed_window_blocks social_form refl login_needed b'h' (codes "ttps://x") none later

abbrev history : List Event
history =
    goal_chosen (codes "seo")
    ∷ submitted true
    ∷ submitted true
    ∷ answered threw
    ∷ submitted true
    ∷ []

posts_bounded_example : length (run opened history).posts ≤ count_submits history
posts_bounded_example = posts_bounded history

abbrev renamed : List Event
renamed = name_typed (codes "Other") ∷ []

submit_posts_example :
    (needs_social_login (codes "social") (codes "instagram" ∷ []) ≡ false
      → (handle_submit true social_form).posts ≡ body_of social_form ∷ [])
    × (needs_social_login (codes "social") (codes "instagram" ∷ []) ≡ true
        → let waiting =
            run
              (on_address (returned (some (codes "https://x"))) (handle_submit true social_form))
              renamed in
          (waiting.posts ≡ [])
          × ((on_success_message waiting).posts ≡ body_of social_form ∷ [])
          × ((on_success_message waiting).auth_waiting ≡ false))
submit_posts_example = submit_posts social_form true b'h' (codes "ttps://x") renamed refl (tt, tt)
