-- ===== src/Onboarding/Tests.antt =====
-- The onboarding at concrete inputs.
use dmtool.Base.{
  ℕ, List, ◌+◌, ◌≡◌, refl, true, [], ◌∷◌, some, Text, codes, text_eq, returned, length,
}
use dmtool.Cookie.{cookie_mode, read_cookie}
use dmtool.CreateProject.{needs_social_login}
use dmtool.DashboardMode.{initial_mode}
use dmtool.Onboarding.{
  Onboarding, filling, analyzing, mode_of_goal, body_of, on_posted, on_success_message, created,
  handle_analyze, foreign,
}
use dmtool.Onboarding.Finish.{on_posted-mode}
use dmtool.Onboarding.Repeated.{submit_times, answer_all, submit_times-posts}
use dmtool.Samples.{browser, blank}

abbrev form : Onboarding browser
form = record {
  page = blank;
  step = filling;
  goal = codes "social";
  url = [];
  handles = record { instagram = codes "shop"; twitter = []; linkedin = []; facebook = [] };
  active_socials = codes "instagram" ∷ [];
  error = [];
  asking = [];
  listening = [];
  posting = [];
  finishing = 0;
  posts = [];
}

login_needed : needs_social_login (codes "social") (codes "instagram" ∷ []) ≡ true
unfolding text_eq
login_needed = refl

-- Two submits, and the address twice.
abbrev addresses : List (ℕ × Text)
addresses = (b'h', codes "ttps://x") ∷ (b'h', codes "ttps://x") ∷ []

submit_times_example :
    length
      (on_success_message browser
        (answer_all browser addresses (submit_times browser 2 7 form))).posts
    ≡ 2 + 0
submit_times_example = submit_times-posts browser addresses 7 form login_needed refl

-- A submit after the window has gone to the provider asks for nothing.
submit_late : handle_analyze browser foreign 7 form ≡ form
unfolding handle_analyze text_eq
submit_late = refl

abbrev asked_for : Onboarding browser
asked_for = record form { step = analyzing; posting = body_of browser 7 form ∷ [] }

on_posted_example :
    (raw : Text) × (read_cookie browser cookie_mode (on_posted browser 5 0 (created) asked_for).page
      ≡ returned (some raw))
    × (initial_mode (some raw) ≡ mode_of_goal (codes "social"))
on_posted_example = on_posted-mode browser 5 asked_for refl (body_of browser 7 form) [] refl
