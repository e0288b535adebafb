-- ===== src/Session/KeepAlive.antt =====
-- When the keep-alive timer fires.
use dmtool.Base.{ℕ, ◌+◌, ◌-◌, ◌≤◌, ◌≡◌, ap, ◌∙◌, ◌∷◌, none, some, Text, returned, arith}
use dmtool.Cookie.{read_cookie, cookie_token}
use dmtool.Cookie.Store.{CookieStore}
use dmtool.Session.{
  Env, Session, start_session_keep_alive, stop_session_keep_alive, keep_alive_with, in_browser,
}
use dmtool.Session.Token.{access_token_expires_at_ms}

module _ (b : CookieStore) (env : Env) (s : Session b) {j : b.Jar} (browser : s.page.jar ≡ some j)
    (c : ℕ) (t : Text) (stored : read_cookie b cookie_token s.page ≡ returned (some (c ∷ t))) where
  -- In the browser, with a session token whose expiry can be read, starting the keep-alive sets
  -- the one timer, not in the past, and a minute before the token expires when there is still a
  -- minute; what a former timer was does not matter.
  pub start_session_keep_alive_timer :
      (exp : ℕ)
      → access_token_expires_at_ms env.platform (c ∷ t) ≡ some exp
      → (fires : ℕ) × ((start_session_keep_alive b env s).0.timer ≡ some fires)
        × (env.now ≤ fires)
        × (env.now + 60000 ≤ exp → fires + 60000 ≡ exp)
  unfolding start_session_keep_alive stop_session_keep_alive
  start_session_keep_alive_timer exp e =
      let stopped : Session b = record s { timer = none } in
      let run : start_session_keep_alive b env s
          ≡ keep_alive_with b env (returned (some (c ∷ t))) stopped =
        ap
          (λ o.
            in_browser o (s, returned tt)
              (keep_alive_with b env (read_cookie b cookie_token s.page) stopped))
          browser
        ∙ ap (λ r. keep_alive_with b env r stopped) stored in
      (env.now + (exp - env.now - 60000), rw run (rw e), omega arith, λ h. omega arith)
