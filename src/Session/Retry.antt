-- ===== src/Session/Retry.antt =====
-- How often a request is sent.
use dmtool.Base.{
  ℕ, suc, ◌+◌, ◌≤◌, ◌≡◌, ◌≢◌, refl, ap, ◌∙◌, true, not, ◌&&◌, ◌∷◌, Option, none, some, Text,
  is_empty, length, ◌==◌, Outcome, threw, returned, arith, Bool-cases, Option-cases, inl, inr,
}
use dmtool.Cookie.{
  Page, read_cookie, clear_impersonation, clear_auth_cookie, notify_impersonation_change,
  cookie_impersonation_token,
}
use dmtool.Cookie.Impersonation.{clear_impersonation_lem}
use dmtool.Cookie.Store.{CookieStore}
use dmtool.Session.{
  Config, Reply, success, failure, unreachable, Result, resolved, rejected, unfinished, Env,
  Session, attach, Decision, again, give_up, break, refresh_and_retry, on_401_with, on_401,
  after_decision, on_reply, send, request, is_present,
}
use dmtool.Session.Steps.{
  attach-page, attach-sent, attach-refreshes, attach-retry, Decides, logout-Decides,
  refresh_and_retry-Decides, refresh_and_retry-again,
}

cleared_on_server :
    (b : CookieStore) (now : ℕ) (p : Page b)
    → p.jar ≡ none
    → read_cookie b cookie_impersonation_token (clear_impersonation b now p) ≡ returned none
unfolding read_cookie clear_impersonation clear_auth_cookie notify_impersonation_change
cleared_on_server b now p e = ground arith

module _ (b : CookieStore) (env : Env) where
  -- The request has ended, and how often the server was asked has grown by at most `k` and `m`.
  pub record Within (k m : ℕ) (s : Session b) (r : Session b × Result) : Type 0 where
    pub ended : r.1 ≢ unfinished
    pub sent_at_most : length r.0.sent ≤ length s.sent + k
    pub refreshed_at_most : r.0.refreshes ≤ s.refreshes + m

  after_decision-Within :
      (k m n : ℕ) (resend : Config → Session b → Session b × Result) (s : Session b) (r : Reply)
      (x : Session b × Decision)
      → Decides b env m s x
      → ((c : Config) → x.1 ≡ again c → Within k n x.0 (resend c x.0))
      → Within k (m + n) s (after_decision b resend r x)
  after_decision-Within k m n resend s r (s', again c) d h =
      let w = h c refl in
      let e = ap length d.sends_nothing in
      record {
        ended = w.ended;
        sent_at_most = omega (arith, w.sent_at_most, e);
        refreshed_at_most = omega (arith, w.refreshed_at_most, d.refreshes_once);
      }
  after_decision-Within k m n resend s r (s', give_up) d h =
      let e = ap length d.sends_nothing in
      record {
        ended = λ x. cc;
        sent_at_most = omega (arith, e);
        refreshed_at_most = omega (arith, d.refreshes_once);
      }
  after_decision-Within k m n resend s r (s', break) d h =
      let e = ap length d.sends_nothing in
      record {
        ended = λ x. cc;
        sent_at_most = omega (arith, e);
        refreshed_at_most = omega (arith, d.refreshes_once);
      }

  -- A state in which the request was just logged.
  record Logged (s0 s : Session b) : Type 0 where
    one_more : length s.sent ≡ suc (length s0.sent)
    no_refresh : s.refreshes ≡ s0.refreshes

  settled-Within :
      (k m : ℕ) (s0 s : Session b) (r : Result)
      → Logged s0 s
      → r ≢ unfinished
      → Within (suc k) m s0 (s, r)
  settled-Within k m s0 s r l n = record {
    ended = n;
    sent_at_most = omega (arith, l.one_more);
    refreshed_at_most = omega (arith, l.no_refresh);
  }

  later-Within :
      (k m : ℕ) (s0 s : Session b) (r : Session b × Result)
      → Logged s0 s
      → Within k m s r
      → Within (suc k) m s0 r
  later-Within k m s0 s r l w = record {
    ended = w.ended;
    sent_at_most = omega (arith, l.one_more, w.sent_at_most);
    refreshed_at_most = omega (arith, l.no_refresh, w.refreshed_at_most);
  }

  -- One round: what holds of the requests that are sent again holds of this one.
  on_reply-Within :
      (k m : ℕ) (resend : Config → Session b → Session b × Result) (c : Config) (s0 s : Session b)
      (r : Reply)
      → Logged s0 s
      → ((e : Reply) → Within k m s (after_decision b resend e (on_401 b env c s)))
      → Within (suc k) m s0 (on_reply b env resend c s r)
  on_reply-Within k m resend c s0 s (success body) l h =
      settled-Within k m s0 s (resolved body) l (λ e. cc)
  on_reply-Within k m resend c s0 s unreachable l h =
      settled-Within k m s0 s (rejected unreachable) l (λ e. cc)
  on_reply-Within k m resend c s0 s (failure status) l h = elim (Bool-cases (status == 401)) [
    | inl dead ↦ rw dead (later-Within k m s0 s _ l (h (failure status)))
    | inr alive ↦ rw alive (settled-Within k m s0 s (rejected (failure status)) l (λ e. cc))
  ]

  abbrev logged : Session b → Config → Session b
  logged s c = record s { sent = c ∷ s.sent }

  -- The same for a request from its start, before the interceptor has added the token.
  send-Within :
      (k m : ℕ) (resend : Config → Session b → Session b × Result) (c : Config) (s : Session b)
      → ((c' : Config) (s' : Session b) (e : Reply)
          → c'.retry ≡ c.retry
          → s'.page ≡ s.page
          → Within k m s' (after_decision b resend e (on_401 b env c' s')))
      → Within (suc k) m s (send b env resend (attach b env c s))
  send-Within k m resend c s h =
      go (attach b env c s) (attach-retry b env c s) (attach-page b env c s) (attach-sent b env c s)
        (attach-refreshes b env c s)
    where
      go :
          (x : Session b × Outcome Config)
          → ((c' : Config) → x.1 ≡ returned c' → c'.retry ≡ c.retry)
          → x.0.page ≡ s.page
          → x.0.sent ≡ s.sent
          → x.0.refreshes ≡ s.refreshes
          → Within (suc k) m s (send b env resend x)
      go (s', threw) r p e f =
          let l = ap length e in
          record {
            ended = λ x. cc;
            sent_at_most = omega (arith, l);
            refreshed_at_most = omega (arith, f);
          }
      go (s', returned c') r p e f =
          let l = ap length e in
          on_reply-Within k m resend c' s (logged s' c') (env.answer (length s'.sent) c')
            (record { one_more = omega (arith, l); no_refresh = f })
            (λ r'. h c' (logged s' c') r' (r c' refl) p)

  retried-Decides :
      (o : Outcome (Option Text)) (c : Config) (s : Session b)
      → c.retry ≡ true
      → Decides b env 0 s (on_401_with b env c o s)
        × ((d : Config) → (on_401_with b env c o s).1 ≡ again d → ⊥)
  unfolding refresh_and_retry
  retried-Decides threw c s h = (ground arith, λ d e. cc)
  retried-Decides (returned none) c s h =
      let l = logout-Decides b env s in rw (h, refresh_and_retry) (l, λ d e. cc)
  retried-Decides (returned (some t)) c s h =
      let l = logout-Decides b env s in
      elim (Bool-cases (is_empty t)) [
        | inl empty ↦ rw (empty, h, refresh_and_retry) (l, λ d e. cc)
        | inr full ↦ rw (full, h, refresh_and_retry) (l, λ d e. cc)
      ]

  -- A request that was already sent again ends here.
  request_retried :
      (f : ℕ) (c : Config) (s : Session b)
      → c.retry ≡ true
      → Within 1 0 s (request b (suc f) env c s)
  unfolding request on_401
  request_retried f c s h = send-Within 0 0 (request b f env) c s (λ c' s' e r p.
      let (d, g) =
        retried-Decides (read_cookie b cookie_impersonation_token s'.page) c' s' (r ∙ h) in
      after_decision-Within 0 0 0 (request b f env) s' e (on_401 b env c' s') d
        (λ c2 a. absurd (g c2 a)))

  -- Outside an impersonation.
  abbrev NotImpersonating : Page b → Type 0
  NotImpersonating p = read_cookie b cookie_impersonation_token p ≡ returned none

  own_token :
      (f : ℕ) (c : Config) (s : Session b) (e : Reply)
      → Within 1 1 s (after_decision b (request b (suc f) env) e (refresh_and_retry b env c s))
  own_token f c s e =
      after_decision-Within 1 1 0 (request b (suc f) env) s e (refresh_and_retry b env c s)
        (refresh_and_retry-Decides b env c s)
        (λ d a.
          request_retried f d (refresh_and_retry b env c s).0
            (refresh_and_retry-again b env c s {c' = d} a).1)

  request_own :
      (f : ℕ) (c : Config) (s : Session b)
      → NotImpersonating s.page
      → Within 2 1 s (request b (suc (suc f)) env c s)
  unfolding request on_401
  request_own f c s h = send-Within 1 1 (request b (suc f) env) c s (λ c' s' e r p.
      let own = ap (λ q. read_cookie b cookie_impersonation_token q) p ∙ h in
      rw own (own_token f c' s' e))

  cleared-NotImpersonating : (p : Page b) → NotImpersonating (clear_impersonation b env.now p)
  cleared-NotImpersonating p = elim (Option-cases p.jar) [
    | inl server ↦ cleared_on_server b env.now p server
    | inr (j, e) ↦ (clear_impersonation_lem b env.now p e).0
  ]

  weaken : (s : Session b) (r : Session b × Result) → Within 1 1 s r → Within 2 1 s r
  weaken s r w = record {
    ended = w.ended;
    sent_at_most = omega (arith, w.sent_at_most);
    refreshed_at_most = w.refreshed_at_most;
  }

  any_decision :
      (c : Config) (s : Session b) (e : Reply) (o : Outcome (Option Text))
      → Within 2 1 s (after_decision b (request b 2 env) e (on_401_with b env c o s))
  any_decision c s e threw = record {
    ended = λ x. cc;
    sent_at_most = omega arith;
    refreshed_at_most = omega arith;
  }
  any_decision c s e (returned imp) = elim (Bool-cases (is_present imp && not c.retry)) [
    | inl acting ↦ rw acting (
        let out : Session b = record s { page = clear_impersonation b env.now s.page } in
        let w =
          request_own 0 (record c { authorization = none }) out (cleared-NotImpersonating s.page) in
        record {
          ended = w.ended;
          sent_at_most = w.sent_at_most;
          refreshed_at_most = w.refreshed_at_most;
        })
    | inr own ↦ rw own (weaken s _ (own_token 1 c s e))
  ]

  -- Whatever the server answers, a request that meets the interceptors ends after at most three
  -- sends and at most one refresh of the access token; so three rounds of fuel always suffice.
  pub request_bounded : (c : Config) (s : Session b) → Within 3 1 s (request b 3 env c s)
  unfolding request on_401
  request_bounded c s =
      send-Within 2 1 (request b 2 env) c s
        (λ c' s' e r p. any_decision c' s' e (read_cookie b cookie_impersonation_token s'.page))
