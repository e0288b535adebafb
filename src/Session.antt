-- ===== src/Session.antt =====
-- frontend/lib/access-token.ts (Session/Token) and the session half of frontend/lib/api-client.ts:
-- the request and response interceptors of `apiClient`, the refresh of the access token and the
-- keep-alive timer. What axios sends and the clock are a parameter, `Env`.
pub mod Token
pub mod Requests
pub mod Firing
pub mod KeepAlive
pub mod Flight
pub mod Logout
pub mod Steps
pub mod Retry
pub mod Quiet
mod Tests
use dmtool.Base.{
  ℕ, zero, suc, ◌+◌, ◌-◌, Bool, true, false, not, ◌&&◌, ◌||◌, List, [], ◌∷◌, ◌++◌, Option, none,
  some, Text, codes, text_eq, is_empty, length, ◌==◌, if◌then◌else◌, Outcome, threw, returned,
}
use dmtool.Cookie.{
  Page, read_cookie, set_token, clear_auth, clear_impersonation, cookie_token,
  cookie_impersonation_token,
}
use dmtool.Cookie.Store.{CookieStore}
use dmtool.Session.Token.{Platform, access_token_expires_at_ms}

-- The request's configuration: its Authorization header and its `_retry` mark beside the rest.
pub record Config : Type 0 where
  pub url : Text
  pub authorization : Option Text
  pub retry : Bool

-- What axios makes of a request: a 2xx answer, another status, or no answer at all.
pub data Reply : Type 0 where
  success : Text → Reply
  failure : ℕ → Reply
  unreachable : Reply

-- What POST /auth/refresh gives: the token of its body, if there is one, or a failure.
pub data RefreshReply : Type 0 where
  refreshed : Option Text → RefreshReply
  refused : ℕ → RefreshReply
  lost : RefreshReply

-- The outcome that the caller of `apiClient` sees. A rejection carries the first failure; an
-- exception of an interceptor rejects too; `unfinished` means that the fuel ran out.
pub data Result : Type 0 where
  resolved : Text → Result
  rejected : Reply → Result
  broken : Result
  unfinished : Result

-- The clock, and the server's answers: they may depend on how often it was asked before.
pub record Env : Type 0 where
  pub now : ℕ
  pub platform : Platform
  pub answer : ℕ → Config → Reply
  pub refresh : ℕ → RefreshReply

abbrev pub bearer : Text → Text
bearer t = codes "Bearer " ++ t

-- A token that is `null` or empty leaves the header alone.
abbrev pub with_token : Outcome (Option Text) → Config → Outcome Config
with_token threw c = threw
with_token (returned none) c = returned c
with_token (returned (some t)) c =
    if is_empty t then returned c else returned (record c { authorization = some (bearer t) })

-- The impersonation token comes before the session's own.
abbrev pub authorize : Outcome (Option Text) → Outcome (Option Text) → Config → Outcome Config
authorize threw own c = threw
authorize (returned none) own c = with_token own c
authorize (returned (some t)) own c =
    if is_empty t then with_token own c else returned (record c { authorization = some (bearer t) })

abbrev pub is_entry : Text → Bool
is_entry path = text_eq path (codes "/login") || text_eq path (codes "/register")

-- What `refreshAccessToken` returns, or the failure that it throws.
pub data Refreshed : Type 0 where
  new_token : Text → Refreshed
  no_token : Refreshed
  failed : Option ℕ → Refreshed

-- The cookie has a token that is not empty.
abbrev pub is_present : Option Text → Bool
is_present none = false
is_present (some t) = not (is_empty t)

-- What the response interceptor decides on a 401: the request is sent again, with what is then
-- known of it, or the failure is handed on.
pub data Decision : Type 0 where
  again : Config → Decision
  give_up : Decision
  break : Decision

abbrev pub is_401 : Option ℕ → Bool
is_401 none = false
is_401 (some status) = status == 401

-- `typeof document` and `typeof window`: what a render on the server does, and what the page does.
abbrev pub in_browser {ℓ κ} : {J : Type ℓ} {A : Type κ} → Option J → A → A → A
in_browser none server page = server
in_browser (some j) server page = page

module _ (b : CookieStore) where
  -- The page's cookies, the timer with the time at which it fires, the path of the window, and
  -- what was sent: the requests, latest first, and how many refreshes.
  pub record Session : Type 0 where
    pub page : Page b
    pub timer : Option ℕ
    pub path : Text
    pub sent : List Config
    pub refreshes : ℕ

  unfoldable pub stop_session_keep_alive : Session → Session
  stop_session_keep_alive s = record s { timer = none }

  -- `Math.max(exp - Date.now() - 60_000, 0)` from now, when the token says when it expires.
  abbrev pub schedule : ℕ → Option ℕ → Session → Session
  schedule now none s = s
  schedule now (some exp) s = record s { timer = some (now + (exp - now - 60000)) }

  -- What follows the read of the token; the exception of a malformed cookie passes through.
  abbrev pub keep_alive_with : Env → Outcome (Option Text) → Session → Session × Outcome (Unit {0})
  keep_alive_with env threw s = (s, threw)
  keep_alive_with env (returned none) s = (s, returned tt)
  keep_alive_with env (returned (some token)) s =
      if is_empty token
      then (s, returned tt)
      else (schedule env.now (access_token_expires_at_ms env.platform token) s, returned tt)

  unfoldable pub start_session_keep_alive : Env → Session → Session × Outcome (Unit {0})
  unfolding stop_session_keep_alive
  start_session_keep_alive env s =
      let stopped = stop_session_keep_alive s in
      in_browser s.page.jar (s, returned tt)
        (keep_alive_with env (read_cookie b cookie_token s.page) stopped)

  -- `if (!keepAliveTimer) startSessionKeepAlive();`
  abbrev pub ensure_keep_alive : Env → Option ℕ → Session → Session × Outcome (Unit {0})
  ensure_keep_alive env none s = start_session_keep_alive env s
  ensure_keep_alive env (some t) s = (s, returned tt)

  abbrev pub after_keep_alive : Session × Outcome (Unit {0}) → Config → Session × Outcome Config
  after_keep_alive (s, threw) c = (s, threw)
  after_keep_alive (s, returned _) c = (
    s,
    authorize (read_cookie b cookie_impersonation_token s.page) (read_cookie b cookie_token s.page)
        c,
  )

  -- The request interceptor.
  unfoldable pub attach : Env → Config → Session → Session × Outcome Config
  attach env c s =
      in_browser s.page.jar (s, returned c) (after_keep_alive (ensure_keep_alive env s.timer s) c)

  unfoldable pub force_logout : Env → Session → Session
  unfolding stop_session_keep_alive
  force_logout env s =
      let stopped = stop_session_keep_alive s in
      let out = record stopped {
        page = clear_impersonation b env.now (clear_auth b env.now stopped.page);
      } in
      in_browser s.page.jar out
        (if is_entry s.path then out else record out { path = codes "/login" })

  abbrev pub store_token : Env → RefreshReply → Session → Session × Refreshed
  store_token env (refreshed none) s = (s, no_token)
  store_token env (refreshed (some t)) s =
      if is_empty t
      then (s, no_token)
      else (record s { page = set_token b env.now t s.page }, new_token t)
  store_token env (refused status) s = (s, failed (some status))
  store_token env lost s = (s, failed none)

  unfoldable pub refresh_access_token : Env → Session → Session × Refreshed
  refresh_access_token env s =
      store_token env (env.refresh s.refreshes) (record s { refreshes = suc s.refreshes })

  -- After the refresh, inside the `try`: an exception of the keep-alive is caught and rejects.
  abbrev pub resume : Text → Config → Session × Outcome (Unit {0}) → Session × Decision
  resume t c (s, threw) = (s, give_up)
  resume t c (s, returned _) = (s, again (record c { authorization = some (bearer t) }))

  abbrev pub after_refresh : Env → Config → Session × Refreshed → Session × Decision
  after_refresh env c (s, new_token t) = resume t c (start_session_keep_alive env s)
  after_refresh env c (s, no_token) = (force_logout env s, give_up)
  after_refresh env c (s, failed status) =
      (if is_401 status then force_logout env s else s, give_up)

  unfoldable pub refresh_and_retry : Env → Config → Session → Session × Decision
  refresh_and_retry env c s =
      if c.retry
      then (force_logout env s, give_up)
      else after_refresh env (record c { retry = true }) (refresh_access_token env s)

  -- A 401 under impersonation ends the impersonation, and the request goes out as the admin.
  abbrev pub on_401_with : Env → Config → Outcome (Option Text) → Session → Session × Decision
  on_401_with env c threw s = (s, break)
  on_401_with env c (returned imp) s =
      if is_present imp && not c.retry
      then (
        record s { page = clear_impersonation b env.now s.page },
        again (record c { authorization = none }),
      )
      else refresh_and_retry env c s

  unfoldable pub on_401 : Env → Config → Session → Session × Decision
  on_401 env c s = on_401_with env c (read_cookie b cookie_impersonation_token s.page) s

  -- What follows the decision: `resend` is the call of `apiClient(original)`.
  abbrev pub after_decision :
      (Config → Session → Session × Result) → Reply → Session × Decision → Session × Result
  after_decision resend e (s, again c) = resend c s
  after_decision resend e (s, give_up) = (s, rejected e)
  after_decision resend e (s, break) = (s, broken)

  -- The response interceptor.
  abbrev pub on_reply :
      Env → (Config → Session → Session × Result) → Config → Session → Reply → Session × Result
  on_reply env resend c s (success body) = (s, resolved body)
  on_reply env resend c s unreachable = (s, rejected unreachable)
  on_reply env resend c s (failure status) =
      if status == 401
      then after_decision resend (failure status) (on_401 env c s)
      else (s, rejected (failure status))

  abbrev pub send :
      Env → (Config → Session → Session × Result) → Session × Outcome Config → Session × Result
  send env resend (s, threw) = (s, broken)
  send env resend (s, returned c) =
      on_reply env resend c (record s { sent = c ∷ s.sent }) (env.answer (length s.sent) c)

  -- One request through both interceptors, as long as the fuel lasts.
  unfoldable pub request : ℕ → Env → Config → Session → Session × Result
  request zero env c s = (s, unfinished)
  request (suc fuel) env c s = send env (request fuel env) (attach env c s)
