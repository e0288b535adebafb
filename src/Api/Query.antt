-- ===== src/Api/Query.antt =====
-- What the server reads in the query of an address: no text that a user types can add, end or
-- change another parameter.
use dmtool.Base.{
  ℕ, zero, suc, ◌+◌, ◌/◌, ◌%◌, ◌<◌, ◌≤◌, ◌≡◌, ◌≢◌, refl, ap, ◌∙◌, true, List, [], ◌∷◌, ◌++◌, map,
  Option, none, some, Text, codes, All, join, split, arith, ltb, Bool-cases, inl, inr,
}
use dmtool.Api.{number_param, digits, show, dashboard_request, get_keywords, get_public_profile}
use dmtool.Base.Splitting.{split-join}
use dmtool.Uri.{IsScalar, is_unreserved, encode_uri_component, decode_uri_component, encode_char}
use dmtool.Uri.Bytes.{IsEncoded, encode_uri_component-IsEncoded}
use dmtool.Uri.RoundTrip.{decode-encode, IsScalar-lt}

-- One `key=value`, each percent-decoded.
abbrev pub both : Option Text → Option Text → Option (Text × Text)
both (some k) (some v) = some (k, v)
both _ _ = none

abbrev pub read_pair : List Text → Option (Text × Text)
read_pair (k ∷ v ∷ []) = both (decode_uri_component k) (decode_uri_component v)
read_pair _ = none

abbrev pub onto : Option (Text × Text) → Option (List (Text × Text)) → Option (List (Text × Text))
onto (some kv) (some kvs) = some (kv ∷ kvs)
onto _ _ = none

unfoldable pub read_pairs : List Text → Option (List (Text × Text))
read_pairs [] = some []
read_pairs (w ∷ ws) = onto (read_pair (split 61 w)) (read_pairs ws)

-- The parameters of a query string: the parts between ampersands.
unfoldable pub parse_query : Text → Option (List (Text × Text))
parse_query q = read_pairs (split 38 q)

abbrev pub pair_param : Text × Text → Text
pair_param (k, v) = join (codes "=") (encode_uri_component k ∷ encode_uri_component v ∷ [])

abbrev pub query : List (Text × Text) → Text
query kvs = join (codes "&") (map pair_param kvs)

abbrev pub AreTexts : List (Text × Text) → Type 0
AreTexts kvs = All (λ kv. All IsScalar kv.0 × All IsScalar kv.1) kvs

safe_char : (c : ℕ) → IsEncoded c → (c ≢ 38) × (c ≢ 61)
unfolding is_unreserved
safe_char c h = ground arith

below : (s : Text) → All IsScalar s → All (λ c. c < 0x110000) s
below [] h = tt
below (c ∷ s) (p, h) = (IsScalar-lt c p, below s h)

no_ampersand : (s : Text) → All IsEncoded s → All (λ c. c ≢ 38) s
no_ampersand [] h = tt
no_ampersand (c ∷ s) (p, h) = ((safe_char c p).0, no_ampersand s h)

no_equals : (s : Text) → All IsEncoded s → All (λ c. c ≢ 61) s
no_equals [] h = tt
no_equals (c ∷ s) (p, h) = ((safe_char c p).1, no_equals s h)

joined_no_ampersand :
    (s t : Text)
    → All (λ c. c ≢ 38) s
    → All (λ c. c ≢ 38) t
    → All (λ c. c ≢ 38) (join (codes "=") (s ∷ t ∷ []))
unfolding join
joined_no_ampersand [] t h k = (omega arith, k)
joined_no_ampersand (c ∷ s) t (p, h) k = (p, joined_no_ampersand s t h k)

module _ (k v : Text) (hk : All IsScalar k) (hv : All IsScalar v) where
  pair_no_ampersand : All (λ c. c ≢ 38) (pair_param (k, v))
  pair_no_ampersand =
      joined_no_ampersand (encode_uri_component k) (encode_uri_component v)
        (no_ampersand _ (encode_uri_component-IsEncoded k (below k hk)))
        (no_ampersand _ (encode_uri_component-IsEncoded v (below v hv)))

  read_pair-param : read_pair (split 61 (pair_param (k, v))) ≡ some (k, v)
  read_pair-param =
      rw
        (split-join 61 (encode_uri_component k) (encode_uri_component v ∷ []) (
          no_equals _ (encode_uri_component-IsEncoded k (below k hk)),
          (no_equals _ (encode_uri_component-IsEncoded v (below v hv)), tt),
        ))
        (rw (decode-encode k hk, decode-encode v hv))

pairs_no_ampersand :
    (kvs : List (Text × Text)) → AreTexts kvs → All (All (λ c. c ≢ 38)) (map pair_param kvs)
pairs_no_ampersand [] h = tt
pairs_no_ampersand ((k, v) ∷ kvs) ((p, q), h) =
    (pair_no_ampersand k v p q, pairs_no_ampersand kvs h)

read_pairs-params :
    (kvs : List (Text × Text)) → AreTexts kvs → read_pairs (map pair_param kvs) ≡ some kvs
unfolding read_pairs
read_pairs-params [] h = refl
read_pairs-params ((k, v) ∷ kvs) ((p, q), h) = rw (read_pair-param k v p q, read_pairs-params kvs h)

-- A query of encoded names and values is read back as the names and values themselves.
pub parse_query-query :
    (k v : Text) (kvs : List (Text × Text))
    → AreTexts ((k, v) ∷ kvs)
    → parse_query (query ((k, v) ∷ kvs)) ≡ some ((k, v) ∷ kvs)
unfolding parse_query
parse_query-query k v kvs h =
    ap read_pairs
      (split-join 38 (pair_param (k, v)) (map pair_param kvs) (pairs_no_ampersand ((k, v) ∷ kvs) h))
    ∙ read_pairs-params ((k, v) ∷ kvs) h

-- A digit.
abbrev pub IsDigit : ℕ → Type 0
IsDigit c = (48 ≤ c) × (c ≤ 57)

digits-IsDigit : (fuel n : ℕ) (rest : Text) → All IsDigit rest → All IsDigit (digits fuel n rest)
unfolding digits
digits-IsDigit zero n rest h = h
digits-IsDigit (suc fuel) n rest h = elim (Bool-cases (ltb n 10)) [
  | inl small ↦ rw small ((omega arith, ground arith), h)
  | inr large ↦
      rw large (digits-IsDigit fuel (n / 10) ((48 + n % 10) ∷ rest) ((omega arith, omega arith), h))
]

pub show-IsDigit : (n : ℕ) → All IsDigit (show n)
unfolding show
show-IsDigit n = digits-IsDigit (suc n) n [] tt

digit_unreserved : (c : ℕ) → IsDigit c → is_unreserved c ≡ true
unfolding is_unreserved
digit_unreserved c h = ground arith

digit_char : (c : ℕ) → IsDigit c → encode_char c ≡ c ∷ []
unfolding encode_char
digit_char c h = rw (digit_unreserved c h)

encode-digits : (s : Text) → All IsDigit s → encode_uri_component s ≡ s
unfolding encode_uri_component
encode-digits [] h = refl
encode-digits (c ∷ s) (p, h) = rw (digit_char c p, encode-digits s h)

digits-IsScalar : (s : Text) → All IsDigit s → All IsScalar s
digits-IsScalar [] h = tt
digits-IsScalar (c ∷ s) (p, h) = (inl (omega arith), digits-IsScalar s h)

-- The search for keywords, with any seed but the empty one: the address is the path and a query
-- in which the server reads the project and the seed, and nothing else.
pub get_keywords-query :
    (p c : ℕ) (s : Text)
    → All IsScalar (c ∷ s)
    → (q : Text) × ((dashboard_request (get_keywords p (some (c ∷ s)))).url
        ≡ codes "/seo/keywords?" ++ q)
      × (parse_query q ≡ some ((codes "project_id", show p) ∷ (codes "seed", c ∷ s) ∷ []))
unfolding dashboard_request join encode_uri_component encode_char is_unreserved
get_keywords-query p c s h = (
  query ((codes "project_id", show p) ∷ (codes "seed", c ∷ s) ∷ []),
  rw (encode-digits (show p) (show-IsDigit p)),
  parse_query-query (codes "project_id") (show p) ((codes "seed", c ∷ s) ∷ [])
      ((omega arith, digits-IsScalar (show p) (show-IsDigit p)), ((omega arith, h), tt)),
)

plain_char : (c : ℕ) → is_unreserved c ≡ true → encode_char c ≡ c ∷ []
unfolding encode_char
plain_char c h = rw h

pub encode-plain : (s : Text) → All (λ c. is_unreserved c ≡ true) s → encode_uri_component s ≡ s
unfolding encode_uri_component
encode-plain [] h = refl
encode-plain (c ∷ s) (p, h) = rw (plain_char c p, encode-plain s h)

plain-IsScalar : (c : ℕ) → is_unreserved c ≡ true → IsScalar c
unfolding is_unreserved
plain-IsScalar c h = inl (ground arith)

pub plain_text-scalars : (s : Text) → All (λ c. is_unreserved c ≡ true) s → All IsScalar s
plain_text-scalars [] h = tt
plain_text-scalars (c ∷ s) (p, h) = (plain-IsScalar c p, plain_text-scalars s h)

number_param-suc :
    (n : ℕ) → number_param "&project_id=" (some (suc n)) ≡ codes "&project_id=" ++ show (suc n)
number_param-suc n = ground arith

-- The look-up of a public profile, for any handle, a platform of unreserved characters and a
-- project number other than 0: the server reads the handle, the platform and the project, and
-- nothing else.
pub get_public_profile-query :
    (h f : Text) (n : ℕ)
    → All IsScalar h
    → All (λ c. is_unreserved c ≡ true) f
    → (q : Text) × ((dashboard_request (get_public_profile h f (some (suc n)))).url
        ≡ codes "/social/profile?" ++ q)
      × (parse_query q
          ≡ some (
              (codes "handle", h)
              ∷ (codes "platform", f)
              ∷ (codes "project_id", show (suc n))
              ∷ []))
unfolding dashboard_request join encode_uri_component encode_char is_unreserved
get_public_profile-query h f n k g = (
  query ((codes "handle", h) ∷ (codes "platform", f) ∷ (codes "project_id", show (suc n)) ∷ []),
  rw (encode-digits (show (suc n)) (show-IsDigit (suc n)), encode-plain f g)
      (ap
        (λ t.
          codes "/social/profile?handle="
          ++ (encode_uri_component h ++ (codes "&platform=" ++ (f ++ t))))
        (number_param-suc n)),
  parse_query-query (codes "handle") h
      ((codes "platform", f) ∷ (codes "project_id", show (suc n)) ∷ [])
      (
        (omega arith, k),
        (
          (omega arith, plain_text-scalars f g),
          ((omega arith, digits-IsScalar (show (suc n)) (show-IsDigit (suc n))), tt),
        ),
      ),
)
