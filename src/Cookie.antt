-- ===== src/Cookie.antt =====
-- frontend/lib/auth-cookie.ts: the cookies that carry the session, an impersonation and the
-- dashboard mode. The browser's cookie store is a parameter (Cookie/Store); `none` for it is a
-- render on the server, where `document` and `window` are undefined.
pub mod Store
pub mod Reading
pub mod Writing
pub mod Impersonation
mod Tests
use dmtool.Base.{
  ℕ, ◌&&◌, ◌+◌, ◌*◌, ◌/◌, List, [], ◌∷◌, ◌++◌, Option, none, some, Text, codes, strip_prefix, split,
  trim, is_empty, if◌then◌else◌, Outcome, threw, returned,
}
use dmtool.Cookie.Store.{CookieStore, SetCookie, JsonCodec, Json, has_field}
use dmtool.Uri.{encode_uri_component, decode_uri_component}

abbrev pub cookie_token : Text
cookie_token = codes "dmtool_token"

abbrev pub cookie_user : Text
cookie_user = codes "dmtool_user"

abbrev pub cookie_mode : Text
cookie_mode = codes "dmtool_mode"

abbrev pub cookie_impersonation_token : Text
cookie_impersonation_token = codes "dmtool_impersonation_token"

abbrev pub cookie_impersonation_target : Text
cookie_impersonation_target = codes "dmtool_impersonation_target"

abbrev pub impersonation_event : Text
impersonation_event = codes "dmtool:impersonation"

-- A lifetime in days, as the fraction that the callers pass.
pub record Days : Type 0 where
  pub numerator : ℕ
  pub denominator : ℕ

abbrev pub days : ℕ → Days
days n = record { numerator = n; denominator = 1 }

-- `Date.now() + days * 24 * 60 * 60 * 1000`, in milliseconds.
unfoldable pub cookie_options : ℕ → Days → ℕ
cookie_options now d = now + d.numerator * (24 * 60 * 60 * 1000) / d.denominator

pub data Mode : Type 0 where
  search social combined : Mode

abbrev pub mode_text : Mode → Text
mode_text search = codes "search"
mode_text social = codes "social"
mode_text combined = codes "combined"

-- `return decodeURIComponent(…)`, which may throw.
abbrev pub found : Option Text → Outcome (Option Text)
found none = threw
found (some value) = returned (some value)

-- One round of the loop of `readCookie`: the part has the prefix, or the loop goes on.
abbrev pub found_or : Option Text → Outcome (Option Text) → Outcome (Option Text)
found_or none later = later
found_or (some rest) later = found (decode_uri_component rest)

-- That loop over the parts of `document.cookie`.
unfoldable pub read_from : Text → List Text → Outcome (Option Text)
read_from prefix [] = returned none
read_from prefix (c ∷ cs) = found_or (strip_prefix prefix (trim c)) (read_from prefix cs)

-- The checks on what `JSON.parse` returned; a parse error falls through to `null`.
unfoldable pub target_of : Option Json → Option Json
target_of none = none
target_of (some v) =
    if has_field (codes "id") v && has_field (codes "email") v && has_field (codes "name") v
    then some v
    else none

module _ (b : CookieStore) where
  open b use {Jar, document_cookie, assign}

  -- What the page's scripts see: the store, and the events that they dispatch on `window`.
  pub record Page : Type 0 where
    pub jar : Option Jar
    pub events : List Text

  unfoldable pub notify_impersonation_change : Page → Page
  notify_impersonation_change p = elim p.jar [
    | none ↦ p
    | some j ↦ record p { events = impersonation_event ∷ p.events }
  ]

  unfoldable pub set_auth_cookie : ℕ → Text → Text → Days → Page → Page
  unfolding cookie_options
  set_auth_cookie now name value d p = elim p.jar [
    | none ↦ p
    | some j ↦
        let cookie : SetCookie = record {
          name = name;
          value = encode_uri_component value;
          expires = cookie_options now d;
        } in
        record p { jar = some (assign now cookie j) }
  ]

  -- Expires at the epoch.
  unfoldable pub clear_auth_cookie : ℕ → Text → Page → Page
  clear_auth_cookie now name p = elim p.jar [
    | none ↦ p
    | some j ↦
        let cookie : SetCookie = record { name = name; value = []; expires = 0 } in
        record p { jar = some (assign now cookie j) }
  ]

  unfoldable pub set_token : ℕ → Text → Page → Page
  unfolding set_auth_cookie
  set_token now token p = set_auth_cookie now cookie_token token (days 7) p

  unfoldable pub set_mode : ℕ → Mode → Page → Page
  unfolding set_auth_cookie
  set_mode now mode p = set_auth_cookie now cookie_mode (mode_text mode) (days 30) p

  unfoldable pub clear_auth : ℕ → Page → Page
  clear_auth now p = clear_auth_cookie now cookie_user (clear_auth_cookie now cookie_token p)

  unfoldable pub clear_impersonation : ℕ → Page → Page
  clear_impersonation now p = notify_impersonation_change (
      clear_auth_cookie now cookie_impersonation_target
        (clear_auth_cookie now cookie_impersonation_token p))

  unfoldable pub read_cookie : Text → Page → Outcome (Option Text)
  read_cookie name p = elim p.jar [
    | none ↦ returned none
    | some j ↦ read_from (name ++ codes "=") (split 59 (document_cookie j))
  ]

  unfoldable pub read_impersonation_token : Page → Outcome (Option Text)
  read_impersonation_token p = read_cookie cookie_impersonation_token p

  -- What is stored as JSON.
  module _ (json : JsonCodec) where
    open json use {parse, stringify}

    unfoldable pub set_user : ℕ → Json → Page → Page
    set_user now user p = set_auth_cookie now cookie_user (stringify user) (days 30) p

    unfoldable pub set_impersonation : ℕ → Text → Json → ℕ → Page → Page
    set_impersonation now token target minutes p =
        let d : Days = record { numerator = minutes; denominator = 24 * 60 } in
        notify_impersonation_change (
          set_auth_cookie now cookie_impersonation_target (stringify target) d
            (set_auth_cookie now cookie_impersonation_token token d p))

    unfoldable pub read_impersonation_target : Page → Outcome (Option Json)
    unfolding target_of
    read_impersonation_target p = elim (read_cookie cookie_impersonation_target p) [
      | threw ↦ threw
      | returned none ↦ returned none
      | returned (some raw) ↦
          if is_empty raw then returned none else returned (target_of (parse raw))
    ]
