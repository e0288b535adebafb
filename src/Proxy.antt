-- ===== src/Proxy.antt =====
-- frontend/proxy.ts: the gate in front of every page, which checks the origin of state-changing
-- requests and sends visitors without a session to the login page.
pub mod Jwt
pub mod Paths
pub mod Decisions
mod Tests
use dmtool.Base.{
  ℕ, ◌-◌, Bool, true, false, not, ◌&&◌, ◌||◌, List, [], ◌∷◌, ◌++◌, map, Option, none, some, Text,
  codes, strip_prefix, split, trim, text_eq, is_empty, any, all, filter, length, leb, ◌==◌,
  if◌then◌else◌,
}

-- What the proxy reads of a `NextRequest`; a header or a cookie may be absent.
pub record Request : Type 0 where
  pub method : Text
  pub pathname : Text
  pub search : Text
  pub origin : Option Text
  pub token : Option Text
  pub impersonation_token : Option Text

-- The 403 answer, the redirect to /login with its `return_to` parameter, or the page.
pub data Response : Type 0 where
  csrf_blocked : Response
  login : Option Text → Response
  next : Response

abbrev pub protected_prefixes : List Text
protected_prefixes = codes "/dashboard" ∷ codes "/admin" ∷ []

abbrev pub safe_methods : List Text
safe_methods = codes "GET" ∷ codes "HEAD" ∷ codes "OPTIONS" ∷ []

abbrev pub local_origins : List Text
local_origins = codes "http://localhost:3000" ∷ codes "http://127.0.0.1:3000" ∷ []

abbrev pub member : Text → List Text → Bool
member t ts = any (text_eq t) ts

-- `process.env.ALLOWED_ORIGINS ?? ""`.
abbrev pub env_or_empty : Option Text → Text
env_or_empty none = []
env_or_empty (some s) = s

unfoldable pub build_trusted_origins : Option Text → List Text
build_trusted_origins env =
    filter (λ s. not (is_empty s)) (map trim (split 44 (env_or_empty env))) ++ local_origins

abbrev pub are_three : List Text → Bool
are_three parts = length parts == 3 && all (λ p. not (is_empty p)) parts

unfoldable pub looks_like_jwt : Option Text → Bool
looks_like_jwt none = false
looks_like_jwt (some v) = if is_empty v then false else are_three (split 46 v)

-- `pathname.startsWith(p)`.
abbrev pub starts_with : Text → Text → Bool
starts_with p s = elim (strip_prefix p s) [ none ↦ false | some _ ↦ true ]

unfoldable pub is_protected : Text → Bool
is_protected pathname =
    any (λ p. text_eq pathname p || starts_with (p ++ codes "/") pathname) protected_prefixes

-- `toUpperCase`, of a method name in ASCII.
abbrev pub to_upper_char : ℕ → ℕ
to_upper_char c = if leb 97 c && leb c 122 then c - 32 else c

abbrev pub to_upper : Text → Text
to_upper = map to_upper_char

unfoldable pub csrf_fails : List Text → Request → Bool
csrf_fails trusted r =
    if member (to_upper r.method) safe_methods
    then false
    else elim r.origin [ none ↦ false | some o ↦ not (member o trusted) ]

-- `return_to`, unless the path is that of the login or the register page.
unfoldable pub return_to : Request → Option Text
return_to r =
    if text_eq r.pathname (codes "/login") || text_eq r.pathname (codes "/register")
    then none
    else some (r.pathname ++ r.search)

unfoldable pub proxy : List Text → Request → Response
proxy trusted r =
    if csrf_fails trusted r
    then csrf_blocked
    else if is_protected r.pathname
        && not (looks_like_jwt r.token)
        && not (looks_like_jwt r.impersonation_token)
    then login (return_to r)
    else next
