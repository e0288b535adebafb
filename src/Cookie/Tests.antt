-- ===== src/Cookie/Tests.antt =====
-- The cookie theorems at concrete cookies.
use dmtool.Base.{
  ◌<◌, ◌≡◌, ◌≢◌, refl, [], ◌∷◌, none, some, Text, codes, text_eq, text_ne, returned, arith,
}
use dmtool.Cookie.{
  Page, days, cookie_options, set_auth_cookie, read_cookie, cookie_token, cookie_mode,
  cookie_impersonation_token, cookie_impersonation_target, impersonation_event, set_impersonation,
  clear_impersonation, read_impersonation_token, read_impersonation_target, target_of,
}
use dmtool.Cookie.Store.{JsonCodec, Json, obj, field, end, num, str, IsStorable}
use dmtool.Cookie.Writing.{IsName, read_cookie-set_self, read_cookie-set_other}
use dmtool.Cookie.Impersonation.{set_impersonation_lem, clear_impersonation_lem}
use dmtool.Samples.{browser, blank}
use dmtool.Uri.{is_unreserved, encode_uri_component, encode_char, utf8, percent, hex_digit}

encoded : encode_uri_component (codes "a b;é€") ≡ codes "a%20b%3B%C3%A9%E2%82%AC"
unfolding encode_uri_component is_unreserved encode_char utf8 percent hex_digit
encoded = refl

token-IsName : IsName cookie_token
unfolding is_unreserved
token-IsName = ground arith

mode-IsName : IsName cookie_mode
unfolding is_unreserved
mode-IsName = ground arith

mode_ne_token : cookie_mode ≢ cookie_token
unfolding text_eq
mode_ne_token = text_ne _ _ refl

abbrev odd : Text
odd = codes "a b;é"

week_ahead : 5 < cookie_options 5 (days 7)
unfolding cookie_options
week_ahead = omega arith

read_cookie-set_self_example :
    read_cookie browser cookie_token (set_auth_cookie browser 5 cookie_token odd (days 7) blank)
    ≡ returned (some odd)
read_cookie-set_self_example =
    read_cookie-set_self browser 5 cookie_token token-IsName blank odd (days 7) refl (omega arith)
      week_ahead

read_cookie-set_other_example :
    read_cookie browser cookie_mode (set_auth_cookie browser 5 cookie_token odd (days 7) blank)
    ≡ read_cookie browser cookie_mode blank
read_cookie-set_other_example =
    read_cookie-set_other browser 5 cookie_token token-IsName blank cookie_mode odd (days 7)
      mode-IsName mode_ne_token refl (omega arith)

abbrev signed_in : Page browser
signed_in = set_auth_cookie browser 5 cookie_token odd (days 7) blank

abbrev target : Json
target = obj (
    field (codes "id") (num 7)
      (field (codes "email") (str (codes "a@b.c")) (field (codes "name") (str (codes "Ann")) end)))

abbrev one_target : JsonCodec
one_target = record { parse = λ t. some target; stringify = λ v. codes "{}" }

one_target-IsStorable : IsStorable one_target target
one_target-IsStorable = record { parses = refl; scalars = omega arith; filled = λ e. cc }

set_impersonation_example :
    let q = set_impersonation browser one_target 5 odd target 30 blank in
    (read_impersonation_token browser q ≡ returned (some odd))
    × (read_impersonation_target browser one_target q ≡ returned (target_of (some target)))
    × ((k : Text)
        → IsName k
        → k ≢ cookie_impersonation_token
        → k ≢ cookie_impersonation_target
        → read_cookie browser k q ≡ read_cookie browser k blank)
    × (q.events ≡ impersonation_event ∷ [])
set_impersonation_example =
    set_impersonation_lem browser 5 blank refl one_target odd target 30 (omega arith)
      one_target-IsStorable (omega arith)

clear_impersonation_example :
    let q = clear_impersonation browser 5 blank in
    (read_cookie browser cookie_impersonation_token q ≡ returned none)
    × (read_cookie browser cookie_impersonation_target q ≡ returned none)
    × ((k : Text)
        → IsName k
        → k ≢ cookie_impersonation_token
        → k ≢ cookie_impersonation_target
        → read_cookie browser k q ≡ read_cookie browser k blank)
    × (q.events ≡ impersonation_event ∷ [])
clear_impersonation_example = clear_impersonation_lem browser 5 blank refl
