-- ===== src/Onboarding/Finish.antt =====
-- What the answer to an onboarding does.
use dmtool.Base.{ℕ, ◌≡◌, refl, ap, ◌∙◌, List, ◌∷◌, some, Text, text_eq, returned}
use dmtool.Cookie.{
  Mode, search, social, combined, mode_text, cookie_mode, days, set_mode, read_cookie,
}
use dmtool.Cookie.Store.{CookieStore}
use dmtool.Cookie.Writing.{read_cookie-set_self}
use dmtool.DashboardMode.{initial_mode, mode_of_text}
use dmtool.DashboardMode.Agreement.{mode-IsName, mode_scalars, month_ahead}
use dmtool.Onboarding.{Onboarding, Body, mode_of_goal, on_posted, settled, take_at, created}

initial_mode-text : (m : Mode) → initial_mode (some (mode_text m)) ≡ m
unfolding initial_mode mode_of_text text_eq
initial_mode-text search = refl
initial_mode-text social = refl
initial_mode-text combined = refl

module _ (b : CookieStore) (now : ℕ) (s : Onboarding b) {j : b.Jar} (browser : s.page.jar ≡ some j)
    (body : Body) (rest : List Body) (first : s.posting ≡ body ∷ rest) where
  -- In the browser, when the API has created the project: the cookie holds the mode that belongs to
  -- the goal it was created for, and the layout of the dashboard starts in this mode.
  pub on_posted-mode :
      (raw : Text) × (read_cookie b cookie_mode (on_posted b now 0 created s).page
        ≡ returned (some raw))
      × (initial_mode (some raw) ≡ mode_of_goal body.goal)
  unfolding on_posted set_mode
  on_posted-mode =
      let m = mode_of_goal body.goal in
      (
        mode_text m,
        ap (λ l. read_cookie b cookie_mode (settled b now created (take_at 0 l) s).page) first
            ∙ read_cookie-set_self b now cookie_mode mode-IsName s.page (mode_text m) (days 30)
                browser (mode_scalars m) (month_ahead now),
        initial_mode-text m,
      )
