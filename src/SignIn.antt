-- ===== src/SignIn.antt =====
-- How a session begins and ends by hand: `handleLogin` of frontend/app/(auth)/login/page.tsx,
-- `handleRegister` of frontend/app/(auth)/register/page.tsx and `handleLogout` of
-- frontend/components/dashboard/topbar.tsx.
pub mod Ends
mod Tests
use dmtool.Base.{
  ℕ, Bool, true, false, [], Option, none, some, Text, codes, is_empty, if◌then◌else◌, Outcome,
  threw, returned,
}
use dmtool.Cookie.{Page, set_token, set_user, clear_auth, clear_impersonation}
use dmtool.Cookie.Store.{CookieStore, JsonCodec, Json}
use dmtool.Session.{Env, Session, start_session_keep_alive, stop_session_keep_alive}

-- What the server answers to a login or a registration: the token and the user, or an error with
-- the message that the page finds in it, if it finds one.
pub data EntryReply : Type 0 where
  accepted : Text → Json → EntryReply
  denied : Option Text → EntryReply

abbrev pub message_or : Text → Option Text → Text
message_or default none = default
message_or default (some m) = if is_empty m then default else m

abbrev login_failed : Text
login_failed = codes "Login failed. Please check your email and password."

abbrev registration_failed : Text
registration_failed = codes "Registration failed. Please try again."

module _ (b : CookieStore) where
  -- The session, with the window's path, and what the form shows.
  pub record EntryPage : Type 0 where
    pub session : Session b
    pub is_loading : Bool
    pub error : Text

  -- An exception of the keep-alive is caught like a failure of the request, without a message.
  abbrev pub after_start : Text → Text → EntryPage → Session b × Outcome (Unit {0}) → EntryPage
  after_start target default f (s, threw) = record f { session = s; error = default }
  after_start target default f (s, returned _) = record f { session = record s { path = target } }

  abbrev pub enter : Env → JsonCodec → Text → Text → EntryReply → EntryPage → EntryPage
  enter env json target default (denied m) f = record f { error = message_or default m }
  enter env json target default (accepted token user) f =
      let s = f.session in
      let page = set_user b json env.now user (set_token b env.now token s.page) in
      after_start target default f (start_session_keep_alive b env (record s { page = page }))

  abbrev pub submitted : EntryPage → EntryPage
  submitted f = record f { is_loading = true; error = [] }

  abbrev pub done : EntryPage → EntryPage
  done f = record f { is_loading = false }

  unfoldable pub handle_login : Env → JsonCodec → EntryReply → EntryPage → EntryPage
  handle_login env json reply f =
      done (enter env json (codes "/dashboard") login_failed reply (submitted f))

  unfoldable pub handle_register : Env → JsonCodec → EntryReply → EntryPage → EntryPage
  handle_register env json reply f =
      done (enter env json (codes "/onboarding") registration_failed reply (submitted f))

  -- `try { await authApi.logout(); } finally { … }` and, when nothing was thrown, the push.
  unfoldable pub handle_logout : Env → Bool → Session b → Session b
  handle_logout env answered s =
      let stopped = stop_session_keep_alive b s in
      let page = clear_auth b env.now (clear_impersonation b env.now stopped.page) in
      let out = record stopped { page = page } in
      if answered then record out { path = codes "/login" } else out
