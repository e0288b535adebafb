-- ===== src/DashboardMode/Tests.antt =====
-- The dashboard's mode at concrete inputs.
use dmtool.Base.{◌≡◌, refl, ◌<◌, List, [], ◌∷◌, some, codes, text_eq, arith, false}
use dmtool.Cookie.{
  search, social, combined, mode_text, cookie_mode, cookie_options, days, set_auth_cookie,
}
use dmtool.Cookie.Writing.{read_cookie-set_self, set_auth_cookie-jar}
use dmtool.Samples.{browser, blank}
use dmtool.DashboardMode.{
  Provider, Event, chosen, landed, unmounted, answered, failed, run, initial_mode, mode_of_text,
  write_cookie_mode,
}
use dmtool.DashboardMode.Agreement.{DoAgree, run-DoAgree, write_cookie_mode-set_mode, mode-IsName}

unknown_mode : initial_mode (some (codes "website")) ≡ combined
unfolding initial_mode mode_of_text text_eq
unknown_mode = refl

write_cookie_mode_example :
    write_cookie_mode browser 5 social blank
    ≡ set_auth_cookie browser 5 cookie_mode (mode_text social) (days 30) blank
write_cookie_mode_example = write_cookie_mode-set_mode browser 5 social blank

abbrev started : Provider browser
started = record {
  page = set_auth_cookie browser 5 cookie_mode (mode_text search) (days 30) blank;
  mounted_mode = search;
  mode = search;
  ready = false;
  cancelled = false;
  patched = [];
}

month_ahead : 5 < cookie_options 5 (days 30)
unfolding cookie_options
month_ahead = omega arith

started-DoAgree : DoAgree browser started
started-DoAgree = record {
  jar = _;
  in_page = set_auth_cookie-jar browser 5 cookie_mode blank (mode_text search) (days 30) refl;
  same =
      read_cookie-set_self browser 5 cookie_mode mode-IsName blank (mode_text search) (days 30) refl
        (omega arith) month_ahead;
}

abbrev events : List (Event browser)
events =
    chosen 6 social
    ∷ landed 7 (answered (some (codes "combined")))
    ∷ landed 8 failed
    ∷ unmounted
    ∷ []

run-DoAgree_example : DoAgree browser (run browser started events)
run-DoAgree_example = run-DoAgree browser started events started-DoAgree
