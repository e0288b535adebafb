-- ===== src/Proxy/Tests.antt =====
-- The gate at concrete requests.
use dmtool.Base.{
  ◌≡◌, ◌↔◌, ◌⊎◌, refl, false, true, not, ◌&&◌, ◌||◌, ◌++◌, Option, none, some, Text, List, codes,
  is_empty, map, trim, split, text_eq, strip_prefix, split,
}
use dmtool.Proxy.{
  Request, csrf_blocked, login, next, proxy, build_trusted_origins, csrf_fails, is_protected,
  looks_like_jwt, member, local_origins, env_or_empty, return_to,
}
use dmtool.Proxy.Jwt.{IsJwtShaped, looks_like_jwt_iff}
use dmtool.Proxy.Paths.{IsBelow, is_protected_iff}
use dmtool.Proxy.Decisions.{
  IsForeign, HasNoSession, proxy-csrf_blocked_iff, proxy-login_iff, member-build_trusted_origins,
}

abbrev visit : Request
visit = record {
  method = codes "get";
  pathname = codes "/admin/users";
  search = codes "?page=2";
  origin = none;
  token = some (codes "a..c");
  impersonation_token = none;
}

abbrev env : Option Text
env = some (codes "https://x.io, ,https://y.io")

abbrev trusted : List Text
trusted = build_trusted_origins env

-- A POST without an `Origin` header passes the origin check.
no_origin_passes :
    proxy trusted (record visit { method = codes "POST"; pathname = codes "/x" }) ≡ next
unfolding proxy csrf_fails is_protected text_eq strip_prefix
no_origin_passes = refl

visit_redirected : proxy trusted visit ≡ login (some (codes "/admin/users?page=2"))
unfolding proxy csrf_fails is_protected text_eq strip_prefix looks_like_jwt return_to split
visit_redirected = refl

looks_like_jwt_iff_example :
    (looks_like_jwt (some (codes "a.b.c")) ≡ true) ↔ IsJwtShaped (codes "a.b.c")
looks_like_jwt_iff_example = looks_like_jwt_iff (codes "a.b.c")

is_protected_iff_example :
    (is_protected (codes "/admins") ≡ true)
    ↔ (IsBelow (codes "/dashboard") (codes "/admins") ⊎ IsBelow (codes "/admin") (codes "/admins"))
is_protected_iff_example = is_protected_iff (codes "/admins")

-- A form posted from elsewhere.
abbrev foreign : Request
foreign = record visit { method = codes "Post"; origin = some (codes "https://evil.io") }

proxy-csrf_blocked_iff_example :
    (proxy (build_trusted_origins env) foreign ≡ csrf_blocked) ↔ IsForeign env foreign
proxy-csrf_blocked_iff_example = proxy-csrf_blocked_iff env foreign

foreign_blocked : proxy (build_trusted_origins env) foreign ≡ csrf_blocked
unfolding proxy csrf_fails build_trusted_origins text_eq trim split
foreign_blocked = refl

proxy-login_iff_example : (proxy trusted visit ≡ login (some (codes "/admin/users?page=2"))) ↔ (
    (csrf_fails trusted visit ≡ false)
    × (is_protected (codes "/admin/users") ≡ true)
    × HasNoSession visit
    × (some (codes "/admin/users?page=2") ≡ some (codes "/admin/users" ++ codes "?page=2")))
proxy-login_iff_example = proxy-login_iff trusted visit (some (codes "/admin/users?page=2"))

member-build_trusted_origins_example : member (codes "https://y.io") trusted ≡ (
    not (is_empty (codes "https://y.io"))
      && member (codes "https://y.io") (map trim (split 44 (env_or_empty env)))
    || member (codes "https://y.io") local_origins)
member-build_trusted_origins_example = member-build_trusted_origins env (codes "https://y.io")
