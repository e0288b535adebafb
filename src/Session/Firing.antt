-- ===== src/Session/Firing.antt =====
-- The call back of the keep-alive timer in `startSessionKeepAlive` of frontend/lib/api-client.ts. The
-- variable `keepAliveTimer` keeps the handle of a timer that has fired; what is still to fire is told
-- apart from it here.
use dmtool.Base.{
  ℕ, suc, ◌≡◌, refl, ap, ◌∙◌, List, [], ◌∷◌, Option, none, some, returned, Bool, true, false, not,
  is_empty, ltb, ◌&&◌, All, arith,
}
use dmtool.Cookie.Store.{CookieStore}
use dmtool.Session.{
  Config, Env, RefreshReply, refreshed, refused, lost, Session, Refreshed, new_token, no_token,
  failed, attach, in_browser, ensure_keep_alive, after_keep_alive, start_session_keep_alive,
  refresh_access_token, store_token, request,
}
use dmtool.Session.Quiet.{IsQuiet, request-Keeps, request-refreshes}

module _ (b : CookieStore) where
  pub record Ticking : Type 0 where
    pub session : Session b
    pub pending : Option ℕ

  -- A token starts the next timer; no token and a failure, which `catch` drops, leave things alone.
  abbrev pub fired : Env → Session b × Refreshed → Ticking
  fired env (s, new_token t) =
      let next = (start_session_keep_alive b env s).0 in
      record { session = next; pending = next.timer }
  fired env (s, no_token) = record { session = s; pending = none }
  fired env (s, failed status) = record { session = s; pending = none }

  -- The timer fires: nothing is to fire any more, and the token is refreshed.
  unfoldable pub fire : Env → Ticking → Ticking
  fire env k = fired env (refresh_access_token b env k.session)

  abbrev pub brings_token : RefreshReply → Bool
  brings_token (refreshed none) = false
  brings_token (refreshed (some t)) = not (is_empty t)
  brings_token (refused status) = false
  brings_token lost = false

  -- Whether the response interceptor has refreshed the token, between two numbers of refreshes.
  abbrev pub renewed : Env → ℕ → ℕ → Bool
  renewed env before after = ltb before after && brings_token (env.refresh before)

  -- What is still to fire after a request. A stop clears the timer with the variable; a refresh that
  -- brought a token, and the request interceptor where the variable was null, start a new one.
  abbrev pub restarted : Option ℕ → Bool → Option ℕ → Option ℕ → Option ℕ
  restarted none is_renewed old pending = none
  restarted (some new) true old pending = some new
  restarted (some new) false none pending = some new
  restarted (some new) false (some old) pending = pending

  -- A request through both interceptors.
  unfoldable pub on_request : Env → Config → Ticking → Ticking
  unfolding request
  on_request env c k =
      let next = (request b 3 env c k.session).0 in
      record {
        session = next;
        pending =
            restarted next.timer (renewed env k.session.refreshes next.refreshes) k.session.timer
              k.pending;
      }

  unfoldable pub on_requests : List (Env × Config) → Ticking → Ticking
  unfolding on_request
  on_requests [] k = k
  on_requests ((env, c) ∷ cs) k = on_requests cs (on_request env c k)

  -- The variable holds the handle of a timer that has fired, and none is to fire.
  abbrev pub IsStuck : Ticking → Type 0
  IsStuck k = (t : ℕ) × (k.session.timer ≡ some t) × (k.pending ≡ none)

  ensured-timer :
      (env : Env) (c : Config) (s : Session b) (t : ℕ) (o : Option b.Jar)
      → s.timer ≡ some t
      → (in_browser o (s, returned c) (after_keep_alive b (ensure_keep_alive b env s.timer s) c)).0
        ≡ s
  ensured-timer env c s t none e = refl
  ensured-timer env c s t (some j) e =
      ap (λ x. (after_keep_alive b (ensure_keep_alive b env x s) c).0) e

  attach-timer :
      (env : Env) (c : Config) (s : Session b) (t : ℕ) → s.timer ≡ some t → (attach b env c s).0 ≡ s
  unfolding attach
  attach-timer env c s t e = ensured-timer env c s t s.page.jar e

  renewed_not : (env : Env) (n m : ℕ) → m ≡ n → renewed env n m ≡ false
  renewed_not env n m e = ground (arith, e)

  on_request-IsStuck :
      (env : Env) (c : Config) (k : Ticking)
      → IsQuiet env
      → IsStuck k
      → IsStuck (on_request env c k)
  unfolding on_request
  on_request-IsStuck env c k q (t, e, p) =
      let next = (request b 3 env c k.session).0 in
      let timer : next.timer ≡ some t =
        (request-Keeps b env 2 c k.session q).timer
        ∙ ap (λ s. s.timer) (attach-timer env c k.session t e)
        ∙ e in
      let old : renewed env k.session.refreshes next.refreshes ≡ false =
        renewed_not env k.session.refreshes next.refreshes
          (request-refreshes b env 2 c k.session q) in
      (
        t,
        timer,
        ap
              (λ o.
                restarted o (renewed env k.session.refreshes next.refreshes) k.session.timer
                  k.pending)
              timer
            ∙ ap (λ r. restarted (some t) r k.session.timer k.pending) old
            ∙ ap (λ o. restarted (some t) false o k.pending) e
            ∙ p,
      )

  on_requests-IsStuck :
      (cs : List (Env × Config)) (k : Ticking)
      → All (λ p. IsQuiet p.0) cs
      → IsStuck k
      → IsStuck (on_requests cs k)
  unfolding on_requests
  on_requests-IsStuck [] k q h = h
  on_requests-IsStuck ((env, c) ∷ cs) k (q, qs) h =
      on_requests-IsStuck cs (on_request env c k) qs (on_request-IsStuck env c k q h)

-- The refresh brings no token.
abbrev pub IsFailure : RefreshReply → Type 0
IsFailure (refreshed none) = Unit
IsFailure (refreshed (some t)) = t ≡ []
IsFailure (refused status) = Unit
IsFailure lost = Unit

module _ (b : CookieStore) (env : Env) where
  failed-IsStuck :
      (s : Session b) (t : ℕ) (r : RefreshReply)
      → s.timer ≡ some t
      → IsFailure r
      → IsStuck b (fired b env (store_token b env r s))
  failed-IsStuck s t (refreshed none) e h = (t, e, refl)
  failed-IsStuck s t (refreshed (some [])) e h = (t, e, refl)
  failed-IsStuck s t (refreshed (some (x ∷ y))) e h = absurd (cc h)
  failed-IsStuck s t (refused status) e h = (t, e, refl)
  failed-IsStuck s t lost e h = (t, e, refl)

-- A keep-alive that fails once is over: after a timer has fired and its refresh brought no token,
-- no timer is to fire, and the requests that are sent next, however many and whenever, start none,
-- as long as none of them is answered by a 401.
pub fire-IsStuck :
    (b : CookieStore) (env : Env) (k : Ticking b) (t : ℕ)
    → k.session.timer ≡ some t
    → IsFailure (env.refresh k.session.refreshes)
    → (cs : List (Env × Config)) → All (λ p. IsQuiet p.0) cs
    → IsStuck b (on_requests b cs (fire b env k))
unfolding fire refresh_access_token
fire-IsStuck b env k t e h cs q = on_requests-IsStuck b cs (fire b env k) q (
    failed-IsStuck b env (record (k.session) { refreshes = suc k.session.refreshes }) t
      (env.refresh k.session.refreshes) e h)
