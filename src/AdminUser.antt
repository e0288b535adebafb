-- ===== src/AdminUser.antt =====
-- frontend/app/(dashboard)/admin/users/[id]/page.tsx: one user in the administration, and the banner
-- of frontend/components/admin/impersonation-banner.tsx that ends an impersonation. The dialogs of
-- the browser are parameters, and so are the answers of the API but for an impersonation, whose calls
-- pass through the interceptors of the client; `S`, `E` and `V` are the types of the subscription, the
-- entries of the log and the activities.
pub mod Ends
pub mod Impersonating
mod Tests
use dmtool.Base.{
  ℕ, Bool, true, false, not, List, [], Option, none, some, Text, codes, is_empty, text_eq,
  if◌then◌else◌, Outcome, threw, returned, ◌++◌,
}
use dmtool.Api.{show}
use dmtool.Cookie.{Page, set_impersonation, clear_impersonation, read_impersonation_target}
use dmtool.Cookie.Store.{CookieStore, JsonCodec, Json}
use dmtool.Session.{Config, Env, Session, Result, resolved, rejected, broken, unfinished, request}

pub record User : Type 0 where
  pub id : ℕ
  pub email : Text
  pub name : Text
  pub role : Text
  pub disabled_at : Option Text

pub record Edit : Type 0 where
  pub name : Text
  pub email : Text
  pub role : Text

pub record Details (S E : Type 0) : Type 0 where
  pub user : User
  pub subscription : S
  pub audit_log : List E

pub data Tab : Type 0 where
  profile activity subscription : Tab

pub record UserPage (S E V : Type 0) : Type 0 where
  pub user : Option User
  pub sub : Option S
  pub audit : List E
  pub activities : List V
  pub loading : Bool
  pub busy : Bool
  pub editing : Option Edit
  pub active_tab : Tab

-- What an action asks of the API, for the user of the page.
pub data Sent : Type 0 where
  update_user : Edit → Sent
  reset_password unsuspend_user : Sent
  suspend_user : Text → Sent

abbrev pub edit_of : Option User → Option Edit → Option Edit
edit_of none e = e
edit_of (some u) e = some (record { name = u.name; email = u.email; role = u.role })

module _ {S E V : Type 0} where
  abbrev pub opened : UserPage S E V
  opened = record {
    user = none;
    sub = none;
    audit = [];
    activities = [];
    loading = true;
    busy = false;
    editing = none;
    active_tab = profile;
  }

  abbrev pub shown : Outcome (Details S E) → UserPage S E V → UserPage S E V
  shown threw s = s
  shown (returned d) s = record s {
    user = some d.user;
    sub = some d.subscription;
    audit = d.audit_log;
  }

  unfoldable pub refresh : Outcome (Details S E) → UserPage S E V → UserPage S E V
  refresh reply s = record (shown reply (record s { loading = true })) { loading = false }

  unfoldable pub fetch_activity : Outcome (List V) → UserPage S E V → UserPage S E V
  fetch_activity threw s = s
  fetch_activity (returned vs) s = record s { activities = vs }

  abbrev pub handle_edit : UserPage S E V → UserPage S E V
  handle_edit s = record s { editing = edit_of s.user s.editing }

  abbrev pub cancel_edit : UserPage S E V → UserPage S E V
  cancel_edit s = record s { editing = none }

  -- The body of every action: the page is busy during the call; a call that succeeds changes the page
  -- and reads the user again.
  abbrev pub called :
      Outcome (Unit {0})
      → (UserPage S E V → UserPage S E V)
      → Outcome (Details S E)
      → UserPage S E V
      → UserPage S E V
  called threw effect again s = s
  called (returned _) effect again s = refresh again (effect s)

  abbrev pub act :
      Outcome (Unit {0})
      → (UserPage S E V → UserPage S E V)
      → Outcome (Details S E)
      → UserPage S E V
      → UserPage S E V
  act reply effect again s = record (called reply effect again (record s { busy = true })) {
    busy = false;
  }

  abbrev pub save_with :
      Option Edit
      → Outcome (Unit {0})
      → Outcome (Details S E)
      → UserPage S E V
      → Option Sent × UserPage S E V
  save_with none reply again s = (none, s)
  save_with (some e) reply again s = (some (update_user e), act reply cancel_edit again s)

  unfoldable pub save_edit :
      Outcome (Unit {0}) → Outcome (Details S E) → UserPage S E V → Option Sent × UserPage S E V
  unfolding refresh
  save_edit reply again s = save_with s.editing reply again s

  -- The user is asked first.
  abbrev pub confirmed :
      Bool
      → Sent
      → Outcome (Unit {0})
      → Outcome (Details S E)
      → UserPage S E V
      → Option Sent × UserPage S E V
  confirmed false m reply again s = (none, s)
  confirmed true m reply again s = (some m, act reply (λ t. t) again s)

  unfoldable pub handle_reset_password :
      Bool
      → Outcome (Unit {0})
      → Outcome (Details S E)
      → UserPage S E V
      → Option Sent × UserPage S E V
  unfolding refresh
  handle_reset_password yes_clicked reply again s =
      confirmed yes_clicked reset_password reply again s

  unfoldable pub handle_unsuspend :
      Bool
      → Outcome (Unit {0})
      → Outcome (Details S E)
      → UserPage S E V
      → Option Sent × UserPage S E V
  unfolding refresh
  handle_unsuspend yes_clicked reply again s = confirmed yes_clicked unsuspend_user reply again s

  -- A reason may be empty; the dialog that is cancelled gives none.
  unfoldable pub handle_suspend :
      Option Text
      → Outcome (Unit {0})
      → Outcome (Details S E)
      → UserPage S E V
      → Option Sent × UserPage S E V
  unfolding refresh
  handle_suspend none reply again s = (none, s)
  handle_suspend (some reason) reply again s =
      (some (suspend_user reason), act reply (λ t. t) again s)

-- The button beside the name: none for an administrator who is not suspended.
pub data Button : Type 0 where
  reactivate suspend : Button

unfoldable pub account_button : User → Option Button
account_button u = by_mark u.disabled_at
  where
    by_mark : Option Text → Option Button
    by_mark (some t) =
        if is_empty t
        then (if text_eq u.role (codes "admin") then none else some suspend)
        else some reactivate
    by_mark none = if text_eq u.role (codes "admin") then none else some suspend

-- The answer to the start of an impersonation: token, target and minutes.
pub record Started : Type 0 where
  pub token : Text
  pub target : Json
  pub expires_in_minutes : ℕ

-- The banner over the pages.
pub record Banner : Type 0 where
  pub target : Option Json
  pub stopping : Bool

-- What `apiClient` gives the caller: a body, or whatever it rejects with.
abbrev pub body_or_throw : Result → Outcome Text
body_or_throw (resolved body) = returned body
body_or_throw (rejected e) = threw
body_or_throw broken = threw
body_or_throw unfinished = threw

abbrev pub to : Text → Config
to url = record { url = url; authorization = none; retry = false }

abbrev pub impersonate_url : ℕ → Text
impersonate_url i = codes "/admin/users/" ++ (show i ++ codes "/impersonate")

abbrev pub user_url : ℕ → Text
user_url i = codes "/admin/users/" ++ show i

abbrev pub stop_url : ℕ → Text
stop_url i = codes "/admin/users/" ++ (show i ++ codes "/stop-impersonation")

-- What the handlers read of the body of an answer.
abbrev pub read_with {ℓ} : {A : Type ℓ} → (Text → Outcome A) → Outcome Text → Outcome A
read_with read threw = threw
read_with read (returned body) = read body

module _ (b : CookieStore) (env : Env) where
  -- A call of `apiClient`, through both of its interceptors; three rounds of fuel are enough.
  unfoldable pub ask {ℓ} :
      {A : Type ℓ} → (Text → Outcome A) → Text → Session b → Session b × Outcome A
  ask read url s = let (t, r) = request b 3 env (to url) s in (t, read_with read (body_or_throw r))

  module _ {S E V : Type 0} (json : JsonCodec) (read_started : Text → Outcome Started)
      (read_details : Text → Outcome (Details S E)) (id : ℕ) where
    -- The user is read again, with the token of the impersonation.
    abbrev pub read_again :
        Session b × Outcome (Details S E) → UserPage S E V → Session b × UserPage S E V
    read_again (t, again) u = (t, refresh again u)

    abbrev pub started : Session b × Outcome Started → UserPage S E V → Session b × UserPage S E V
    started (t, threw) u = (t, u)
    started (t, returned r) u =
        read_again
          (ask read_details (user_url id) (record t {
            page = set_impersonation b json env.now r.token r.target r.expires_in_minutes t.page;
          }))
          u

    abbrev pub not_busy : Session b × UserPage S E V → Session b × UserPage S E V
    not_busy (t, u) = (t, record u { busy = false })

    -- `handleImpersonate`, once the administrator has been asked.
    unfoldable pub handle_impersonate :
        Bool → Session b × UserPage S E V → Session b × UserPage S E V
    unfolding refresh ask
    handle_impersonate false w = w
    handle_impersonate true (s, u) =
        not_busy (started (ask read_started (impersonate_url id) s) (record u { busy = true }))

-- The banner reads the target when the event comes; a cookie that cannot be decoded throws there.
unfoldable pub sync : (b : CookieStore) → JsonCodec → Page b → Banner → Outcome Banner
sync b json p v = read (read_impersonation_target b json p)
  where
    read : Outcome (Option Json) → Outcome Banner
    read threw = threw
    read (returned t) = returned (record v { target = t })

-- `stop`, where the banner shows a target of this number: whatever the call gives, the cookies of the
-- impersonation are cleared behind it.
unfoldable pub stop : (b : CookieStore) → Env → ℕ → Session b × Banner → Session b × Banner
stop b env id (s, v) =
    let t = (request b 3 env (to (stop_url id)) s).0 in
    (
      record t { page = clear_impersonation b env.now t.page },
      record v { target = none; stopping = false },
    )
