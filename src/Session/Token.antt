-- ===== src/Session/Token.antt =====
-- frontend/lib/access-token.ts. `atob` and `JSON.parse` are the platform's.
use dmtool.Base.{
  ℕ, ◌+◌, ◌-◌, ◌*◌, ◌%◌, ◌≤◌, ◌≡◌, List, [], ◌∷◌, ◌++◌, map, Option, none, some, Text, codes, split,
  length, replicate, length-append, length-replicate, ◌==◌, if◌then◌else◌, arith,
}
use dmtool.Cookie.Store.{JsonCodec, Json, num, obj, get_field}

pub record Platform : Type 0 where
  -- `none` is the exception that `atob` throws.
  pub atob : Text → Option Text
  pub json : JsonCodec

-- `.replace(/-/g, "+").replace(/_/g, "/")`.
abbrev pub from_url_char : ℕ → ℕ
from_url_char c = if c == 45 then 43 else if c == 95 then 47 else c

-- The padding that base64url leaves out.
unfoldable pub padded : Text → Text
padded b64 = b64 ++ replicate ((4 - length b64 % 4) % 4) 61

-- `payload.exp` of the parsed JSON, when it is a number; reading a field of `null` throws, which
-- the function catches.
abbrev pub exp_of : Option Json → Option ℕ
exp_of (some (obj fs)) = elim (get_field (codes "exp") fs) [ some (num n) ↦ some n | _ ↦ none ]
exp_of _ = none

abbrev pub times_1000 : Option ℕ → Option ℕ
times_1000 none = none
times_1000 (some n) = some (n * 1000)

abbrev pub parse_json : Platform → Option Text → Option Json
parse_json p none = none
parse_json p (some t) = p.json.parse t

-- The three parts of the token, or `null`.
unfoldable pub expires_of : Platform → List Text → Option ℕ
unfolding padded
expires_of p (a ∷ b ∷ c ∷ []) =
    times_1000 (exp_of (parse_json p (p.atob (padded (map from_url_char b)))))
expires_of p _ = none

unfoldable pub access_token_expires_at_ms : Platform → Text → Option ℕ
unfolding expires_of
access_token_expires_at_ms p token = expires_of p (split 46 token)

-- The padded text has whole groups of four characters, and what is added to the text is at most
-- three characters.
pub padded_lem :
    (s : Text)
    → (length (padded s) % 4 ≡ 0)
      × (length s ≤ length (padded s))
      × (length (padded s) ≤ length s + 3)
unfolding padded
padded_lem s =
    let missing : ℕ = (4 - length s % 4) % 4 in
    let l = length-append s (replicate missing 61) in
    let r = length-replicate {A = ℕ} missing 61 in
    (omega (arith, l, r), omega (arith, l, r), omega (arith, l, r))
