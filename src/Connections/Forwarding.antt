-- ===== src/Connections/Forwarding.antt =====
-- What the backend reads in the address that a route forwards.
use dmtool.Base.{
  arith, ◌≡◌, refl, ap, ◌∙◌, true, [], ◌∷◌, ◌++◌, append_assoc, some, Text, codes, All, join,
}
use dmtool.Api.Query.{
  AreTexts, parse_query, query, encode-plain, plain_text-scalars, parse_query-query,
}
use dmtool.Uri.{IsScalar, encode_uri_component, encode_char, is_unreserved}
use dmtool.Connections.{backend_query}

-- A text that needs no encoding.
abbrev pub IsPlain : Text → Type 0
IsPlain s = All (λ c. is_unreserved c ≡ true) s

backend_query-query :
    (c s : Text)
    → IsPlain c
    → IsPlain s
    → backend_query c s ≡ query ((codes "code", c) ∷ (codes "state", s) ∷ [])
unfolding backend_query join encode_uri_component encode_char is_unreserved
backend_query-query c s h k = rw (encode-plain c h, encode-plain s k) refl

-- A code that holds a state of its own.
abbrev pub with_state : Text → Text → Text
with_state c e = c ++ (codes "&state=" ++ e)

backend_query-with_state :
    (c e s : Text)
    → IsPlain c
    → IsPlain e
    → IsPlain s
    → backend_query (with_state c e) s
      ≡ query ((codes "code", c) ∷ (codes "state", e) ∷ (codes "state", s) ∷ [])
unfolding backend_query join encode_uri_component encode_char is_unreserved
backend_query-with_state c e s h i k =
    rw (encode-plain c h, encode-plain e i, encode-plain s k)
      (ap (λ t. codes "code=" ++ t) (append_assoc c (codes "&state=" ++ e) (codes "&state=" ++ s)))

code_scalars : All IsScalar (codes "code")
code_scalars = omega arith

state_scalars : All IsScalar (codes "state")
state_scalars = omega arith

-- For a code and a state of unreserved characters, the backend reads in the query that a route
-- forwards this code and this state and nothing else. For a code that goes on with `&state=` and
-- another such text, which the route does not encode again, it reads that text as the state, before
-- the state that was given.
pub backend_query-read :
    (c e s : Text)
    → IsPlain c
    → IsPlain e
    → IsPlain s
    → (parse_query (backend_query c s) ≡ some ((codes "code", c) ∷ (codes "state", s) ∷ []))
      × (parse_query (backend_query (with_state c e) s)
          ≡ some ((codes "code", c) ∷ (codes "state", e) ∷ (codes "state", s) ∷ []))
backend_query-read c e s h i k =
    let code : AreTexts ((codes "code", c) ∷ []) = ((code_scalars, plain_text-scalars c h), tt) in
    (
      ap parse_query (backend_query-query c s h k)
          ∙ parse_query-query (codes "code") c ((codes "state", s) ∷ [])
              (code.0, ((state_scalars, plain_text-scalars s k), tt)),
      ap parse_query (backend_query-with_state c e s h i k)
          ∙ parse_query-query (codes "code") c ((codes "state", e) ∷ (codes "state", s) ∷ []) (
            code.0,
            (
              (state_scalars, plain_text-scalars e i),
              ((state_scalars, plain_text-scalars s k), tt),
            ),
          ),
    )
