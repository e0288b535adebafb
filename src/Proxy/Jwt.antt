-- ===== src/Proxy/Jwt.antt =====
-- The shape that the gate asks of a session cookie.
use dmtool.Base.{
  ◌≡◌, ◌≢◌, ◌↔◌, refl, sym, true, List, [], ◌∷◌, some, Text, codes, All, join, split, arith,
}
use dmtool.Base.Splitting.{split-All, join-split, split-join}
use dmtool.Proxy.{looks_like_jwt, are_three}

-- A part that is not empty and holds no dot.
abbrev pub IsPart : Text → Type 0
IsPart a = (a ≢ []) × All (λ c. c ≢ 46) a

abbrev pub IsJwtShaped : Text → Type 0
IsJwtShaped v =
    (a : Text) × (b : Text) × (c : Text) × IsPart a
    × IsPart b
    × IsPart c
    × (v ≡ join (codes ".") (a ∷ b ∷ c ∷ []))

three_parts :
    (v : Text) (parts : List Text)
    → are_three parts ≡ true
    → All (All (λ c. c ≢ 46)) parts
    → join (codes ".") parts ≡ v
    → IsJwtShaped v
three_parts v (a ∷ b ∷ c ∷ []) h (p, (q, (r, _))) e =
    (a, b, c, ((λ x. ground arith), p), ((λ x. ground arith), q), ((λ x. ground arith), r), sym e)
three_parts v [] h p e = cc
three_parts v (a ∷ []) h p e = cc
three_parts v (a ∷ b ∷ []) h p e = cc
three_parts v (a ∷ b ∷ c ∷ d ∷ w) h p e = ground arith

are_three_parts : (a b c : Text) → a ≢ [] → b ≢ [] → c ≢ [] → are_three (a ∷ b ∷ c ∷ []) ≡ true
are_three_parts [] b c p q r = absurd (p refl)
are_three_parts (_ ∷ _) [] c p q r = absurd (q refl)
are_three_parts (_ ∷ _) (_ ∷ _) [] p q r = absurd (r refl)
are_three_parts (_ ∷ _) (_ ∷ _) (_ ∷ _) p q r = refl

jwt_sound : (v : Text) → looks_like_jwt (some v) ≡ true → IsJwtShaped v
unfolding looks_like_jwt
jwt_sound [] h = cc
jwt_sound (c ∷ v) h =
    three_parts (c ∷ v) (split 46 (c ∷ v)) h (split-All 46 (c ∷ v)) (join-split 46 (c ∷ v))

jwt_complete_at :
    (v : Text) → v ≢ [] → are_three (split 46 v) ≡ true → looks_like_jwt (some v) ≡ true
unfolding looks_like_jwt
jwt_complete_at [] n h = absurd (n refl)
jwt_complete_at (c ∷ v) n h = h

joined_ne : (a b c : Text) → a ≢ [] → join (codes ".") (a ∷ b ∷ c ∷ []) ≢ []
unfolding join
joined_ne [] b c n e = n refl
joined_ne (x ∷ a) b c n e = cc

-- A cookie passes exactly when it is three non-empty parts without dots, joined by dots.
pub looks_like_jwt_iff : (v : Text) → (looks_like_jwt (some v) ≡ true) ↔ IsJwtShaped v
looks_like_jwt_iff v = (
  jwt_sound v,
  λ (a, b, c, p, q, r, e).
      let three = are_three_parts a b c p.0 q.0 r.0 in
      let parts = split-join 46 a (b ∷ c ∷ []) (p.1, (q.1, (r.1, tt))) in
      rw e (
        jwt_complete_at (join (codes ".") (a ∷ b ∷ c ∷ [])) (joined_ne a b c p.0) (rw parts three)),
)
