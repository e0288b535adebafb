-- ===== src/SignIn/Tests.antt =====
-- A logout at a concrete page.
use dmtool.Base.{◌≡◌, refl, [], none, some, codes, false, returned}
use dmtool.Cookie.{
  days, set_auth_cookie, read_cookie, cookie_token, cookie_user, cookie_impersonation_token,
  cookie_impersonation_target,
}
use dmtool.Cookie.Store.{JsonCodec, null}
use dmtool.Cookie.Writing.{set_auth_cookie-jar}
use dmtool.Samples.{browser, blank}
use dmtool.Session.{Env, Session, failure, lost}
use dmtool.SignIn.{handle_logout}
use dmtool.SignIn.Ends.{handle_logout_lem}

abbrev codec : JsonCodec
codec = record { parse = λ t. some null; stringify = λ v. codes "null" }

abbrev env : Env
env = record {
  now = 5;
  platform = record { atob = λ t. some t; json = codec };
  answer = λ n c. failure 401;
  refresh = λ n. lost;
}

abbrev here : Session browser
here = record {
  page = set_auth_cookie browser 5 cookie_token (codes "a.b.c") (days 7) blank;
  timer = some 9;
  path = codes "/projects";
  sent = [];
  refreshes = 0;
}

handle_logout_example :
    let out = handle_logout browser env false here in
    (read_cookie browser cookie_token out.page ≡ returned none)
    × (read_cookie browser cookie_user out.page ≡ returned none)
    × (read_cookie browser cookie_impersonation_token out.page ≡ returned none)
    × (read_cookie browser cookie_impersonation_target out.page ≡ returned none)
    × (out.timer ≡ none)
    × (out.path ≡ codes "/projects")
handle_logout_example =
    handle_logout_lem browser env here false
      (set_auth_cookie-jar browser 5 cookie_token blank (codes "a.b.c") (days 7) refl)
