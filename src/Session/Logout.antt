-- ===== src/Session/Logout.antt =====
-- When the session ends, and when it does not.
use dmtool.Base.{
  ℕ, ◌≡◌, ◌≢◌, refl, sym, ap, ◌∙◌, ◌⊎◌, inl, inr, false, not, ◌∷◌, Option, none, some, Text, codes,
  text_eq, text_eq_iff, text_ne, if◌then◌else◌, returned, arith, Bool-cases,
}
use dmtool.Cookie.{
  read_cookie, cookie_token, cookie_user, cookie_impersonation_token, cookie_impersonation_target,
  clear_auth, clear_impersonation, clear_auth_cookie,
}
use dmtool.Cookie.Impersonation.{
  clear_impersonation_lem, session_token-IsName, session_ne_token, session_ne_target,
  clear_impersonation-jar,
}
use dmtool.Cookie.Store.{CookieStore}
use dmtool.Cookie.Writing.{
  IsName, clear_auth_cookie-jar, read_cookie-clear_self, read_cookie-clear_other,
}
use dmtool.Session.{
  Config, Env, Session, RefreshReply, refused, lost, attach, force_logout, refresh_and_retry,
  refresh_access_token, on_401, on_401_with, again, give_up, is_entry,
}
use dmtool.Session.Requests.{chosen, attach-chosen}
use dmtool.Uri.{is_unreserved}

pub user-IsName : IsName cookie_user
unfolding is_unreserved
user-IsName = ground arith

pub user_ne_session : cookie_user ≢ cookie_token
unfolding text_eq
user_ne_session = text_ne _ _ refl

pub user_ne_token : cookie_user ≢ cookie_impersonation_token
unfolding text_eq
user_ne_token = text_ne _ _ refl

pub user_ne_target : cookie_user ≢ cookie_impersonation_target
unfolding text_eq
user_ne_target = text_ne _ _ refl

-- A forced logout leaves the window where a visitor can sign in.
entry_path :
    (path : Text)
    → ((if is_entry path then path else codes "/login") ≡ codes "/login")
      ⊎ ((if is_entry path then path else codes "/login") ≡ codes "/register")
entry_path path = elim (Bool-cases (text_eq path (codes "/login"))) [
  | inl x ↦ rw x (inl ((text_eq_iff _ _).0 x))
  | inr x ↦ elim (Bool-cases (text_eq path (codes "/register"))) [
    | inl y ↦ rw (x, y) (inr ((text_eq_iff _ _).0 y))
    | inr y ↦ rw (x, y) (inl refl)
  ]
]

module _ (b : CookieStore) (env : Env) (s : Session b) {j : b.Jar}
    (browser : s.page.jar ≡ some j) where
  -- In the browser, a forced logout leaves none of the session's cookies (token, user,
  -- impersonation token and target all read as `null`), no timer, and a window that stands on the
  -- login or the register page.
  pub force_logout_lem :
      (read_cookie b cookie_token (force_logout b env s).page ≡ returned none)
      × (read_cookie b cookie_user (force_logout b env s).page ≡ returned none)
      × (read_cookie b cookie_impersonation_token (force_logout b env s).page ≡ returned none)
      × (read_cookie b cookie_impersonation_target (force_logout b env s).page ≡ returned none)
      × ((force_logout b env s).timer ≡ none)
      × (((force_logout b env s).path ≡ codes "/login")
          ⊎ ((force_logout b env s).path ≡ codes "/register"))
  unfolding force_logout clear_auth
  force_logout_lem =
      let p1 = clear_auth_cookie b env.now cookie_token s.page in
      let p2 = clear_auth_cookie b env.now cookie_user p1 in
      let e1 = clear_auth_cookie-jar b env.now cookie_token s.page browser in
      let e2 = clear_auth_cookie-jar b env.now cookie_user p1 e1 in
      let c = clear_impersonation_lem b env.now p2 e2 in
      let final : (force_logout b env s).page ≡ clear_impersonation b env.now p2 = ground arith in
      let landed : (force_logout b env s).path
          ≡ (if is_entry s.path then s.path else codes "/login") =
        ground arith in
      let at = λ (k : Text). ap (λ p. read_cookie b k p) final in
      (
        at cookie_token
            ∙ c.2 cookie_token session_token-IsName session_ne_token session_ne_target
            ∙ read_cookie-clear_other b env.now cookie_user user-IsName p1 cookie_token
                session_token-IsName (λ e. user_ne_session (sym e)) e1
            ∙ read_cookie-clear_self b env.now cookie_token session_token-IsName s.page browser,
        at cookie_user
            ∙ c.2 cookie_user user-IsName user_ne_token user_ne_target
            ∙ read_cookie-clear_self b env.now cookie_user user-IsName p1 e1,
        at cookie_impersonation_token ∙ c.0,
        at cookie_impersonation_target ∙ c.1,
        ground arith,
        rw landed (entry_path s.path),
      )

module _ (b : CookieStore) (env : Env) (c : Config) (s : Session b) (first : c.retry ≡ false) where
  -- A refresh that fails for another reason than a 401 (no connection, a server error) keeps the
  -- session: the request is rejected, the cookies and the window stay as they were.
  pub refresh_failed_keeps :
      (r : RefreshReply)
      → env.refresh s.refreshes ≡ r
      → (r ≡ lost) ⊎ ((status : ℕ) × (r ≡ refused status) × (status ≢ 401))
      → ((refresh_and_retry b env c s).1 ≡ give_up)
        × ((refresh_and_retry b env c s).0.page ≡ s.page)
        × ((refresh_and_retry b env c s).0.path ≡ s.path)
  unfolding refresh_and_retry refresh_access_token
  refresh_failed_keeps r e h = ground arith

module _ (b : CookieStore) (env : Env) (c : Config) (s : Session b) {j : b.Jar}
    (browser : s.page.jar ≡ some j) (first : c.retry ≡ false) (x : ℕ) (t : Text)
    (acting : read_cookie b cookie_impersonation_token s.page ≡ returned (some (x ∷ t)))
    (own : Option Text) (session : read_cookie b cookie_token s.page ≡ returned own) where
  -- In the browser, a 401 under impersonation on a request that was not yet repeated: the request
  -- is sent again, without a refresh, and then carries the admin's own token.
  pub impersonation_expired :
      let after = on_401 b env c s in
      (c' : Config) × (after.1 ≡ again c')
      × (after.0.refreshes ≡ s.refreshes)
      × ((attach b env c' after.0).1
          ≡ returned (record c' { authorization = chosen none own none }))
  unfolding on_401
  impersonation_expired =
      let p = clear_impersonation b env.now s.page in
      let s' : Session b = record s { page = p } in
      let c' : Config = record c { authorization = none } in
      let run : on_401 b env c s ≡ (s', again c') =
        ap (λ o. on_401_with b env c o s) acting
        ∙ ap (λ r. if not r then (s', again c') else refresh_and_retry b env c s) first in
      let (_, cleared) = clear_impersonation-jar b env.now s.page browser in
      let clear = clear_impersonation_lem b env.now s.page browser in
      let kept =
        clear.2 cookie_token session_token-IsName session_ne_token session_ne_target ∙ session in
      (
        c',
        ap (λ r. r.1) run,
        ap (λ r. r.0.refreshes) run,
        ap (λ r. (attach b env c' r.0).1) run
            ∙ (attach-chosen b env c' s' cleared none own clear.0 kept).0,
      )
