-- ===== src/Session/Tests.antt =====
-- The session's theorems at concrete sessions.
use dmtool.Base.{
  text_eq, ℕ, ◌<◌, ◌∙◌, ◌%◌, List, split, join, trim, strip_prefix, ◌+◌, ◌≤◌, ◌≡◌, ◌⊎◌, inl, refl,
  true, false, Outcome, threw, [], ◌∷◌, none, some, Text, codes, length, returned, arith, suc,
  replicate, ◌++◌, ap,
}
use dmtool.Cookie.{
  days, cookie_token, cookie_user, cookie_impersonation_token, cookie_impersonation_target,
  set_auth_cookie, read_cookie, cookie_options, read_from,
}
use dmtool.Cookie.Store.{JsonCodec, Json, obj, field, end, num}
use dmtool.Cookie.Impersonation.{
  session_token-IsName, token-IsName, session_ne_token, token_ne_session,
}
use dmtool.Cookie.Writing.{read_cookie-set_self, read_cookie-set_other, set_auth_cookie-jar}
use dmtool.Samples.{browser, blank}
use dmtool.AdminUser.{
  UserPage, Details, opened, Started, handle_impersonate, stop, ask, to, impersonate_url, read_with,
  body_or_throw,
}
use dmtool.AdminUser.Impersonating.{impersonate-stop}
use dmtool.Session.{
  Config, Env, Session, success, failure, lost, attach, again, give_up, force_logout,
  refresh_and_retry, on_401, request, send, resolved, start_session_keep_alive, bearer,
}
use dmtool.Session.Token.{Platform, padded, padded_lem, access_token_expires_at_ms}
use dmtool.Session.Firing.{Ticking, IsStuck, on_requests, fire, fire-IsStuck}
use dmtool.Session.Quiet.{IsQuiet}
use dmtool.Session.Flight.{Event, call, settle, run, idle, settles, IsSound, run_refresh_shared}
use dmtool.Session.Requests.{chosen, attach-chosen}
use dmtool.Session.KeepAlive.{start_session_keep_alive_timer}
use dmtool.Session.Logout.{force_logout_lem, refresh_failed_keeps, impersonation_expired}
use dmtool.Session.Retry.{Within, request_bounded}

abbrev claims : Json
claims = obj (field (codes "exp") (num 100) end)

abbrev codec : JsonCodec
codec = record { parse = λ t. some claims; stringify = λ v. codes "{}" }

abbrev platform : Platform
platform = record { atob = λ t. some t; json = codec }

-- A server that refuses every request, and cannot be reached for a refresh.
abbrev env : Env
env = record { now = 5; platform = platform; answer = λ n c. failure 401; refresh = λ n. lost }

abbrev plain : Config
plain = record { url = codes "/projects"; authorization = none; retry = false }

abbrev jwt : Text
jwt = codes "a.b.c"

week_ahead : 5 < cookie_options 5 (days 7)
unfolding cookie_options
week_ahead = omega arith

abbrev here : Session browser
here = record {
  page = set_auth_cookie browser 5 cookie_token jwt (days 7) blank;
  timer = none;
  path = codes "/projects";
  sent = [];
  refreshes = 0;
}

here_token : read_cookie browser cookie_token here.page ≡ returned (some jwt)
here_token =
    read_cookie-set_self browser 5 cookie_token session_token-IsName blank jwt (days 7) refl
      (omega arith) week_ahead

blank_token : read_cookie browser cookie_token blank ≡ returned none
unfolding read_cookie read_from split join trim strip_prefix
blank_token = refl

blank_impersonation : read_cookie browser cookie_impersonation_token blank ≡ returned none
unfolding read_cookie read_from split join trim strip_prefix
blank_impersonation = refl

here_impersonation : read_cookie browser cookie_impersonation_token here.page ≡ returned none
here_impersonation =
    read_cookie-set_other browser 5 cookie_token session_token-IsName blank
      cookie_impersonation_token jwt (days 7) token-IsName token_ne_session refl (omega arith)
    ∙ blank_impersonation

here_browser : (j : browser.Jar) × (here.page.jar ≡ some j)
here_browser = (_, set_auth_cookie-jar browser 5 cookie_token blank jwt (days 7) refl)

-- Acting as somebody else, with no session of one's own.
abbrev acting : Session browser
acting = record here {
  page = set_auth_cookie browser 5 cookie_impersonation_token jwt (days 7) blank;
}

acting_token : read_cookie browser cookie_impersonation_token acting.page ≡ returned (some jwt)
acting_token =
    read_cookie-set_self browser 5 cookie_impersonation_token token-IsName blank jwt (days 7) refl
      (omega arith) week_ahead

acting_session : read_cookie browser cookie_token acting.page ≡ returned none
acting_session =
    read_cookie-set_other browser 5 cookie_impersonation_token token-IsName blank cookie_token jwt
      (days 7) session_token-IsName session_ne_token refl (omega arith)
    ∙ blank_token

acting_browser : (j : browser.Jar) × (acting.page.jar ≡ some j)
acting_browser =
    (_, set_auth_cookie-jar browser 5 cookie_impersonation_token blank jwt (days 7) refl)

request_bounded_example : Within browser env 3 1 here (request browser 3 env plain here)
request_bounded_example = request_bounded browser env plain here

attach-chosen_example :
    ((attach browser env plain here).1
      ≡ returned (record plain { authorization = chosen none (some jwt) none }))
    × ((attach browser env plain here).0.page ≡ here.page)
attach-chosen_example =
    attach-chosen browser env plain here here_browser.1 none (some jwt) here_impersonation
      here_token

force_logout_example :
    (read_cookie browser cookie_token (force_logout browser env here).page ≡ returned none)
    × (read_cookie browser cookie_user (force_logout browser env here).page ≡ returned none)
    × (read_cookie browser cookie_impersonation_token (force_logout browser env here).page
        ≡ returned none)
    × (read_cookie browser cookie_impersonation_target (force_logout browser env here).page
        ≡ returned none)
    × ((force_logout browser env here).timer ≡ none)
    × (((force_logout browser env here).path ≡ codes "/login")
        ⊎ ((force_logout browser env here).path ≡ codes "/register"))
force_logout_example = force_logout_lem browser env here here_browser.1

refresh_failed_keeps_example :
    ((refresh_and_retry browser env plain here).1 ≡ give_up)
    × ((refresh_and_retry browser env plain here).0.page ≡ here.page)
    × ((refresh_and_retry browser env plain here).0.path ≡ here.path)
refresh_failed_keeps_example = refresh_failed_keeps browser env plain here refl lost refl (inl refl)

impersonation_expired_example :
    let after = on_401 browser env plain acting in
    (c' : Config) × (after.1 ≡ again c')
    × (after.0.refreshes ≡ 0)
    × ((attach browser env c' after.0).1
        ≡ returned (record c' { authorization = chosen none none none }))
impersonation_expired_example =
    impersonation_expired browser env plain acting acting_browser.1 refl b'a' (codes ".b.c")
      acting_token none acting_session

jwt_expiry : access_token_expires_at_ms platform jwt ≡ some 100000
unfolding access_token_expires_at_ms split padded text_eq
jwt_expiry = refl

start_session_keep_alive_example :
    (fires : ℕ) × ((start_session_keep_alive browser env here).0.timer ≡ some fires)
    × (5 ≤ fires)
    × (5 + 60000 ≤ 100000 → fires + 60000 ≡ 100000)
start_session_keep_alive_example =
    start_session_keep_alive_timer browser env here here_browser.1 b'a' (codes ".b.c") here_token
      100000 jwt_expiry

padded_example :
    (length (padded (codes "abcde")) % 4 ≡ 0)
    × (5 ≤ length (padded (codes "abcde")))
    × (length (padded (codes "abcde")) ≤ 5 + 3)
padded_example = padded_lem (codes "abcde")

abbrev two_calls : List Event
two_calls = call ∷ call ∷ settle ∷ call ∷ []

run_refresh_example :
    ((run idle two_calls).posts ≤ settles two_calls + 1)
    × IsSound (run idle two_calls)
    × (run (run idle two_calls) (settle ∷ call ∷ call ∷ call ∷ []) ≡ record {
      refresh_in_flight = some (run idle two_calls).posts;
      posts = suc (run idle two_calls).posts;
      handed_out = replicate 3 (run idle two_calls).posts ++ (run idle two_calls).handed_out;
    })
run_refresh_example = run_refresh_shared two_calls 2

nobody : UserPage ℕ ℕ ℕ
nobody = opened

-- A server that answers what it is asked.
abbrev answering : Env
answering = record env { answer = λ n c. success [] }

answering-IsQuiet : IsQuiet answering
answering-IsQuiet n c e = cc e

abbrev grant : Text → Outcome Started
grant body = returned (record { token = jwt; target = claims; expires_in_minutes = 30 })

abbrev unread : Text → Outcome (Details ℕ ℕ)
unread body = threw

-- A request that the interceptor lets through is answered.
request_answered :
    (c c' : Config) (s : Session browser)
    → (attach browser answering c s).1 ≡ returned c'
    → (request browser 3 answering c s).1 ≡ resolved []
unfolding request
request_answered c c' s e =
    ap
      (λ o.
        (send browser answering (request browser 2 answering)
          ((attach browser answering c s).0, o)).1)
      e

granted :
    (ask browser answering grant (impersonate_url 7) here).1
    ≡ returned (record { token = jwt; target = claims; expires_in_minutes = 30 })
unfolding ask
granted =
    ap (λ r. read_with grant (body_or_throw r))
      (request_answered (to (impersonate_url 7)) _ here
        (attach-chosen browser answering (to (impersonate_url 7)) here here_browser.1 none
          (some jwt) here_impersonation here_token).0)

impersonate-stop_example :
    let begun = handle_impersonate browser answering codec grant unread 7 true (here, nobody) in
    let over =
      stop browser answering 7 (begun.0, record { target = some claims; stopping = false }) in
    ((attach browser answering plain begun.0).1
      ≡ returned (record plain { authorization = some (bearer jwt) }))
    × ((attach browser answering plain over.0).1
        ≡ returned (record plain { authorization = chosen none (some jwt) none }))
    × (begun.1.busy ≡ false)
    × (over.1.target ≡ none)
    × (handle_impersonate browser answering codec grant unread 7 false (here, nobody)
        ≡ (here, nobody))
impersonate-stop_example =
    impersonate-stop browser answering codec plain here here_browser.1 b'a' (codes ".b.c") claims 30
      (omega arith) (record { parses = refl; scalars = omega arith; filled = λ e. cc })
      (omega arith) (some jwt) here_token answering-IsQuiet grant unread 7 granted nobody
      (record { target = some claims; stopping = false })

-- A page whose timer fires while the server cannot be reached.
abbrev offline : Env
offline = record env { refresh = λ n. lost }

abbrev ticking : Ticking browser
ticking = record { session = record here { timer = some 5 }; pending = some 5 }

fire_example : IsStuck browser (
    on_requests browser
      ((answering, plain) ∷ (answering, plain) ∷ [])
      (fire browser offline ticking))
fire_example =
    fire-IsStuck browser offline ticking 5 refl tt ((answering, plain) ∷ (answering, plain) ∷ [])
      (answering-IsQuiet, (answering-IsQuiet, tt))
