-- ===== src/DashboardMode/Agreement.antt =====
-- The cookie and the mode that is shown agree.
use dmtool.Base.{
  ℕ, ◌<◌, ◌≡◌, refl, ap, ◌∙◌, Bool, true, false, List, [], ◌∷◌, Option, none, some, arith, All,
  Bool-cases, inl, inr, returned, if◌then◌else◌,
}
use dmtool.Cookie.{
  Mode, search, social, combined, mode_text, cookie_mode, cookie_options, days, Page,
  set_auth_cookie, read_cookie,
}
use dmtool.Cookie.Store.{CookieStore}
use dmtool.Cookie.Writing.{IsName, read_cookie-set_self, set_auth_cookie-jar}
use dmtool.Uri.{IsScalar, is_unreserved, encode_uri_component, encode_char}
use dmtool.Nav.{same_mode}
use dmtool.DashboardMode.{
  Provider, write_cookie_mode, show_mode, set_mode, server_wins, mode_of_answer, me_landed, unmount,
  Event, chosen, landed, unmounted, step, run,
}

pub mode-IsName : IsName cookie_mode
unfolding is_unreserved
mode-IsName = ground arith

pub mode_scalars : (m : Mode) → All IsScalar (mode_text m)
mode_scalars search = omega arith
mode_scalars social = omega arith
mode_scalars combined = omega arith

pub month_ahead : (now : ℕ) → now < cookie_options now (days 30)
unfolding cookie_options
month_ahead now = omega arith

module _ (b : CookieStore) where
  -- The provider's own way to write the cookie is that of auth-cookie.ts, which encodes the mode.
  pub write_cookie_mode-set_mode :
      (now : ℕ) (m : Mode) (p : Page b)
      → write_cookie_mode b now m p ≡ set_auth_cookie b now cookie_mode (mode_text m) (days 30) p
  unfolding write_cookie_mode set_auth_cookie encode_uri_component encode_char is_unreserved
  write_cookie_mode-set_mode now search p = refl
  write_cookie_mode-set_mode now social p = refl
  write_cookie_mode-set_mode now combined p = refl

  -- The page is in a browser, and a read of the cookie gives the mode that is shown.
  pub record DoAgree (s : Provider b) : Type 0 where
    pub jar : b.Jar
    pub in_page : s.page.jar ≡ some jar
    pub same : read_cookie b cookie_mode s.page ≡ returned (some (mode_text s.mode))

  show_mode-DoAgree :
      (now : ℕ) (m : Mode) (s : Provider b) → DoAgree s → DoAgree (show_mode b now m s)
  show_mode-DoAgree now m s a =
      let e = write_cookie_mode-set_mode now m s.page in
      record {
        jar = _;
        in_page =
            ap (λ p. p.jar) e
            ∙ set_auth_cookie-jar b now cookie_mode s.page (mode_text m) (days 30) a.in_page;
        same =
            ap (read_cookie b cookie_mode) e
            ∙ read_cookie-set_self b now cookie_mode mode-IsName s.page (mode_text m) (days 30)
                a.in_page (mode_scalars m) (month_ahead now);
      }

  server_wins-DoAgree :
      (now : ℕ) (o : Option Mode) (s : Provider b) → DoAgree s → DoAgree (server_wins b now o s)
  server_wins-DoAgree now none s a = a
  server_wins-DoAgree now (some m) s a = elim (Bool-cases (same_mode m s.mounted_mode)) [
    | inl y ↦ rw y a
    | inr n ↦ rw n (show_mode-DoAgree now m s a)
  ]

  either-DoAgree :
      (c : Bool) (s t : Provider b) → DoAgree s → DoAgree t → DoAgree (if c then s else t)
  either-DoAgree true s t h k = h
  either-DoAgree false s t h k = k

  step-DoAgree : (s : Provider b) (e : Event b) → DoAgree s → DoAgree (step b s e)
  unfolding set_mode me_landed unmount
  step-DoAgree s (chosen now m) a =
      let h = show_mode-DoAgree now m s a in
      record { jar = h.jar; in_page = h.in_page; same = h.same }
  step-DoAgree s (landed now me) a =
      let h = server_wins-DoAgree now (mode_of_answer b me) s a in
      either-DoAgree s.cancelled _ _ a (record { jar = h.jar; in_page = h.in_page; same = h.same })
  step-DoAgree s unmounted a = record { jar = a.jar; in_page = a.in_page; same = a.same }

  -- In the browser: when the cookie agrees with the mode that is shown, it still does after any
  -- sequence of choices of the user, answers of the server, failures and unmounts.
  pub run-DoAgree : (s : Provider b) (es : List (Event b)) → DoAgree s → DoAgree (run b s es)
  unfolding run
  run-DoAgree s [] a = a
  run-DoAgree s (e ∷ es) a = run-DoAgree (step b s e) es (step-DoAgree s e a)
