-- ===== src/SignIn/Ends.antt =====
-- What is left after a logout, and what a failed login changes.
use dmtool.Base.{◌≡◌, sym, ap, ◌∙◌, Bool, none, some, Text, codes, if◌then◌else◌, arith, returned}
use dmtool.Cookie.{
  read_cookie, cookie_token, cookie_user, cookie_impersonation_token, cookie_impersonation_target,
  clear_auth, clear_impersonation, clear_auth_cookie,
}
use dmtool.Cookie.Impersonation.{
  clear_impersonation_lem, clear_impersonation-jar, token-IsName, target-IsName,
  session_token-IsName, session_ne_token, session_ne_target,
}
use dmtool.Cookie.Store.{CookieStore}
use dmtool.Cookie.Writing.{clear_auth_cookie-jar, read_cookie-clear_self, read_cookie-clear_other}
use dmtool.Session.{Env, Session, stop_session_keep_alive}
use dmtool.Session.Logout.{user-IsName, user_ne_session, user_ne_token, user_ne_target}
use dmtool.SignIn.{handle_logout}

module _ (b : CookieStore) (env : Env) (s : Session b) (answered : Bool) {j : b.Jar}
    (browser : s.page.jar ≡ some j) where
  -- In the browser, a logout leaves none of the session's cookies and no timer, whether or not the
  -- server answered; the window goes to the login page when it did, and stays when it did not.
  pub handle_logout_lem :
      let out = handle_logout b env answered s in
      (read_cookie b cookie_token out.page ≡ returned none)
      × (read_cookie b cookie_user out.page ≡ returned none)
      × (read_cookie b cookie_impersonation_token out.page ≡ returned none)
      × (read_cookie b cookie_impersonation_target out.page ≡ returned none)
      × (out.timer ≡ none)
      × (out.path ≡ (if answered then codes "/login" else s.path))
  unfolding handle_logout stop_session_keep_alive clear_auth
  handle_logout_lem =
      let p0 = clear_impersonation b env.now s.page in
      let p1 = clear_auth_cookie b env.now cookie_token p0 in
      let p2 = clear_auth_cookie b env.now cookie_user p1 in
      let e0 = (clear_impersonation-jar b env.now s.page browser).1 in
      let e1 = clear_auth_cookie-jar b env.now cookie_token p0 e0 in
      let c = clear_impersonation_lem b env.now s.page browser in
      let final : (handle_logout b env answered s).page ≡ p2 = ground arith in
      let at = λ (k : Text). ap (λ p. read_cookie b k p) final in
      (
        at cookie_token
            ∙ read_cookie-clear_other b env.now cookie_user user-IsName p1 cookie_token
                session_token-IsName (λ e. user_ne_session (sym e)) e1
            ∙ read_cookie-clear_self b env.now cookie_token session_token-IsName p0 e0,
        at cookie_user ∙ read_cookie-clear_self b env.now cookie_user user-IsName p1 e1,
        at cookie_impersonation_token
            ∙ read_cookie-clear_other b env.now cookie_user user-IsName p1
                cookie_impersonation_token token-IsName (λ e. user_ne_token (sym e)) e1
            ∙ read_cookie-clear_other b env.now cookie_token session_token-IsName p0
                cookie_impersonation_token token-IsName (λ e. session_ne_token (sym e)) e0
            ∙ c.0,
        at cookie_impersonation_target
            ∙ read_cookie-clear_other b env.now cookie_user user-IsName p1
                cookie_impersonation_target target-IsName (λ e. user_ne_target (sym e)) e1
            ∙ read_cookie-clear_other b env.now cookie_token session_token-IsName p0
                cookie_impersonation_target target-IsName (λ e. session_ne_target (sym e)) e0
            ∙ c.1,
        ground arith,
        ground arith,
      )
