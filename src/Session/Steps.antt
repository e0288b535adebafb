-- ===== src/Session/Steps.antt =====
-- What each part of a request leaves of the page, the requests sent and the refreshes asked for.
use dmtool.Base.{
  ℕ, suc, ◌+◌, ◌≤◌, ◌≡◌, true, false, none, some, Text, ◌==◌, Outcome, threw, returned, arith,
  Bool-cases, inl, inr,
}
use dmtool.Cookie.Store.{CookieStore}
use dmtool.Session.{
  Config, Env, Session, start_session_keep_alive, attach, force_logout, refresh_access_token,
  Decision, again, give_up, refresh_and_retry, resume, after_refresh, new_token, no_token, failed,
  Refreshed,
}

module _ (b : CookieStore) (env : Env) where
  pub start-page : (s : Session b) → (start_session_keep_alive b env s).0.page ≡ s.page
  unfolding start_session_keep_alive
  start-page s = ground arith

  pub start-sent : (s : Session b) → (start_session_keep_alive b env s).0.sent ≡ s.sent
  unfolding start_session_keep_alive
  start-sent s = ground arith

  pub start-refreshes :
      (s : Session b) → (start_session_keep_alive b env s).0.refreshes ≡ s.refreshes
  unfolding start_session_keep_alive
  start-refreshes s = ground arith

  pub attach-page : (c : Config) (s : Session b) → (attach b env c s).0.page ≡ s.page
  unfolding attach
  attach-page c s = ground (arith, start-page s)

  pub attach-sent : (c : Config) (s : Session b) → (attach b env c s).0.sent ≡ s.sent
  unfolding attach
  attach-sent c s = ground (arith, start-sent s)

  pub attach-refreshes : (c : Config) (s : Session b) → (attach b env c s).0.refreshes ≡ s.refreshes
  unfolding attach
  attach-refreshes c s = ground (arith, start-refreshes s)

  pub attach-retry :
      (c : Config) (s : Session b) (c' : Config)
      → (attach b env c s).1 ≡ returned c'
      → c'.retry ≡ c.retry
  unfolding attach
  attach-retry c s c' e = ground arith

  pub force_logout-sent : (s : Session b) → (force_logout b env s).sent ≡ s.sent
  unfolding force_logout
  force_logout-sent s = ground arith

  pub force_logout-refreshes : (s : Session b) → (force_logout b env s).refreshes ≡ s.refreshes
  unfolding force_logout
  force_logout-refreshes s = ground arith

  -- What a decision has done, and what it asks for.
  pub record Decides (m : ℕ) (s : Session b) (r : Session b × Decision) : Type 0 where
    pub sends_nothing : r.0.sent ≡ s.sent
    pub refreshes_once : r.0.refreshes ≤ s.refreshes + m

  pub resume-Decides :
      (t : Text) (c : Config) (s : Session b)
      → Decides 0 s (resume b t c (start_session_keep_alive b env s))
  resume-Decides t c s = ground (arith, start-sent s, start-refreshes s)

  pub logout-Decides : (s : Session b) → Decides 0 s (force_logout b env s, give_up)
  logout-Decides s = ground (arith, force_logout-sent s, force_logout-refreshes s)

  pub after_refresh-Decides :
      (c : Config) (s : Session b) (r : Refreshed) → Decides 0 s (after_refresh b env c (s, r))
  after_refresh-Decides c s (new_token t) = resume-Decides t c s
  after_refresh-Decides c s no_token = logout-Decides s
  after_refresh-Decides c s (failed none) = ground arith
  after_refresh-Decides c s (failed (some status)) = elim (Bool-cases (status == 401)) [
    | inl dead ↦ rw dead (logout-Decides s)
    | inr alive ↦ rw alive (ground arith)
  ]

  pub refresh-sent : (s : Session b) → (refresh_access_token b env s).0.sent ≡ s.sent
  unfolding refresh_access_token
  refresh-sent s = ground arith

  pub refresh-refreshes :
      (s : Session b) → (refresh_access_token b env s).0.refreshes ≡ suc s.refreshes
  unfolding refresh_access_token
  refresh-refreshes s = ground arith

  pub refresh_and_retry-Decides :
      (c : Config) (s : Session b) → Decides 1 s (refresh_and_retry b env c s)
  unfolding refresh_and_retry
  refresh_and_retry-Decides c s =
      let r = refresh_access_token b env s in
      let d = after_refresh-Decides (record c { retry = true }) r.0 r.1 in
      elim (Bool-cases c.retry) [
        | inl twice ↦ let l = logout-Decides s in rw (twice, refresh_and_retry) (ground arith)
        | inr once ↦
            rw (once, refresh_and_retry) (ground (arith, refresh-sent s, refresh-refreshes s))
      ]

  pub resume-again :
      (t : Text) (c : Config) (r : Session b × Outcome (Unit {0})) {c' : Config}
      → (resume b t c r).1 ≡ again c'
      → c'.retry ≡ c.retry
  resume-again t c (s, threw) e = cc
  resume-again t c (s, returned _) e = ground arith

  pub after_refresh-again :
      (c : Config) (s : Session b) (r : Refreshed) {c' : Config}
      → (after_refresh b env c (s, r)).1 ≡ again c'
      → c'.retry ≡ c.retry
  after_refresh-again c s (new_token t) e = resume-again t c (start_session_keep_alive b env s) e
  after_refresh-again c s no_token e = cc
  after_refresh-again c s (failed status) e = cc

  -- What is sent again after a refresh carries the mark, and came without it.
  pub refresh_and_retry-again :
      (c : Config) (s : Session b) {c' : Config}
      → (refresh_and_retry b env c s).1 ≡ again c'
      → (c.retry ≡ false) × (c'.retry ≡ true)
  unfolding refresh_and_retry
  refresh_and_retry-again c s {c'} e = elim (Bool-cases c.retry) [
    | inl twice ↦ ground arith
    | inr once ↦
        let r = refresh_access_token b env s in
        (once, after_refresh-again (record c { retry = true }) r.0 r.1 {c' = c'} (ground arith))
  ]
