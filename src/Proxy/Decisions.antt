-- ===== src/Proxy/Decisions.antt =====
-- What the gate decides, on every branch.
use dmtool.Base.{
  ℕ, Bool, All, ◌+◌, ◌≤◌, ◌==◌, ◌⊎◌, ◌≢◌, ◌≡◌, ◌↔◌, inl, inr, refl, ap, ◌∙◌, true, false, not, ◌&&◌,
  ◌||◌, List, [], ◌∷◌, ◌++◌, Option, some, strip_prefix, Text, codes, text_eq, text_eq_iff, arith,
  Bool-cases, is_empty, filter, map, trim, split,
}
use dmtool.Proxy.{
  Request, csrf_blocked, login, member, safe_methods, to_upper, to_upper_char, csrf_fails,
  return_to, is_protected, looks_like_jwt, proxy, build_trusted_origins, local_origins,
  env_or_empty,
}
use mathlib.Core.List.{Memᴰ}

-- The text is the word in capitals `w`, in letters of either case.
abbrev pub Spells : Text → Text → Type 0
Spells [] [] = Unit
Spells [] (c ∷ s) = ⊥
Spells (d ∷ w) [] = ⊥
Spells (d ∷ w) (c ∷ s) = ((c ≡ d) ⊎ (c ≡ d + 32)) × Spells w s

-- A method that must not change state.
abbrev pub IsSafe : Text → Type 0
IsSafe m = Spells (codes "GET") m ⊎ (Spells (codes "HEAD") m ⊎ Spells (codes "OPTIONS") m)

-- One of the two origins of a local run, or a part of the comma-separated variable that is not
-- blank.
abbrev pub IsTrusted : Option Text → Text → Type 0
IsTrusted env o =
    ((o ≢ []) × Memᴰ o (map trim (split 44 (env_or_empty env))))
    ⊎ ((o ≡ codes "http://localhost:3000") ⊎ (o ≡ codes "http://127.0.0.1:3000"))

-- The request may change state and names an origin that is not trusted.
abbrev pub IsForeign : Option Text → Request → Type 0
IsForeign env r = (¬ IsSafe r.method) × ((o : Text) × (r.origin ≡ some o) × (¬ IsTrusted env o))

-- Tests and what they decide.
module _ {P Q : Type 0} where
  and_iff : {a b : Bool} → (a ≡ true) ↔ P → (b ≡ true) ↔ Q → ((a && b) ≡ true) ↔ (P × Q)
  and_iff {a = true} i j = (λ h. (i.0 refl, j.0 h), λ (p, q). j.1 q)
  and_iff {a = false} i j = (λ h. absurd (cc h), λ (p, q). i.1 p)

  or_iff : {a b : Bool} → (a ≡ true) ↔ P → (b ≡ true) ↔ Q → ((a || b) ≡ true) ↔ (P ⊎ Q)
  or_iff {a = true} i j = (λ h. inl (i.0 refl), λ h. refl)
  or_iff {a = false} {b = b} i j = (λ h. inr (j.0 h), back)
    where
      back : P ⊎ Q → b ≡ true
      back (inl p) = absurd (cc (i.1 p))
      back (inr q) = j.1 q

module _ {P : Type 0} where
  or_false_iff : {a : Bool} → (a ≡ true) ↔ P → ((a || false) ≡ true) ↔ P
  or_false_iff {a = true} i = i
  or_false_iff {a = false} i = i

  no_of_iff : {a : Bool} → (a ≡ true) ↔ P → (a ≡ false) ↔ (¬ P)
  no_of_iff {a = true} i = (λ h. absurd (cc h), λ n. absurd (n (i.0 refl)))
  no_of_iff {a = false} i = (λ h p. absurd (cc (i.1 p)), λ n. refl)

-- Neither cookie has the shape of a token.
abbrev pub HasNoSession : Request → Type 0
HasNoSession r = (looks_like_jwt r.token ≡ false) × (looks_like_jwt r.impersonation_token ≡ false)

abbrev IsUpper : ℕ → Type 0
IsUpper d = (65 ≤ d) × (d ≤ 90)

to_upper_char_iff :
    (c d : ℕ) → IsUpper d → ((to_upper_char c == d) ≡ true) ↔ ((c ≡ d) ⊎ (c ≡ d + 32))
to_upper_char_iff c d h = ground arith

to_upper-Spells : (s w : Text) → All IsUpper w → (text_eq (to_upper s) w ≡ true) ↔ Spells w s
unfolding text_eq
to_upper-Spells [] [] h = ground arith
to_upper-Spells [] (d ∷ w) h = ground arith
to_upper-Spells (c ∷ s) [] h = ground arith
to_upper-Spells (c ∷ s) (d ∷ w) (p, h) =
    let i = to_upper_char_iff c d p in let j = to_upper-Spells s w h in and_iff i j

safe_methods-IsSafe : (m : Text) → (member (to_upper m) safe_methods ≡ true) ↔ IsSafe m
safe_methods-IsSafe m = or_iff (to_upper-Spells m (codes "GET") (ground arith)) (
    or_iff (to_upper-Spells m (codes "HEAD") (ground arith))
      (or_false_iff (to_upper-Spells m (codes "OPTIONS") (ground arith))))

member-Memᴰ : (o : Text) (xs : List Text) → (member o xs ≡ true) ↔ Memᴰ o xs
member-Memᴰ o [] = (λ h. cc h, λ m. elim m [ ])
member-Memᴰ o (x ∷ xs) =
    let (to, from) = member-Memᴰ o xs in
    (
      λ h. elim (Bool-cases (text_eq o x)) [
        | inl y ↦ Memᴰ.head ((text_eq_iff o x).0 y)
        | inr n ↦ Memᴰ.tail (to (ground (arith, h, n)))
      ],
      λ m. elim m [
        | Memᴰ.head e ↦ let y = (text_eq_iff o x).1 e in ground (arith, y)
        | Memᴰ.tail k ↦ let y = from k in ground (arith, y)
      ],
    )

login_not_protected : is_protected (codes "/login") ≡ false
unfolding is_protected text_eq strip_prefix
login_not_protected = refl

register_not_protected : is_protected (codes "/register") ≡ false
unfolding is_protected text_eq strip_prefix
register_not_protected = refl

ne_of_protected :
    (s t : Text) → is_protected s ≡ true → is_protected t ≡ false → text_eq s t ≡ false
ne_of_protected s t h k = elim (Bool-cases (text_eq s t)) [
  | inl same ↦ let e : s ≡ t = (text_eq_iff s t).0 same in cc
  | inr other ↦ other
]

return_to_of_protected :
    (r : Request) → is_protected r.pathname ≡ true → return_to r ≡ some (r.pathname ++ r.search)
unfolding return_to
return_to_of_protected r h = rw (
  ne_of_protected r.pathname (codes "/login") h login_not_protected,
  ne_of_protected r.pathname (codes "/register") h register_not_protected,
)

-- A visitor is sent to the login page exactly when the origin check passes, the path is protected
-- and neither cookie has the shape of a token; the redirect then always carries the path and the
-- query that were asked for.
pub proxy-login_iff :
    (trusted : List Text) (r : Request) (t : Option Text)
    → (proxy trusted r ≡ login t) ↔ (
        (csrf_fails trusted r ≡ false)
        × (is_protected r.pathname ≡ true)
        × HasNoSession r
        × (t ≡ some (r.pathname ++ r.search)))
unfolding proxy
proxy-login_iff trusted r t = ground (arith, return_to_of_protected r)

member-append : (o : Text) (xs ys : List Text) → member o (xs ++ ys) ≡ (member o xs || member o ys)
member-append o [] ys = refl
member-append o (x ∷ xs) ys = ground (arith, member-append o xs ys)

member-filter :
    (o : Text) (xs : List Text)
    → member o (filter (λ s. not (is_empty s)) xs) ≡ (not (is_empty o) && member o xs)
unfolding text_eq
member-filter o [] = ground arith
member-filter [] ([] ∷ xs) = member-filter [] xs
member-filter (c ∷ o) ([] ∷ xs) = member-filter (c ∷ o) xs
member-filter [] ((c ∷ s) ∷ xs) = member-filter [] xs
member-filter (d ∷ o) ((c ∷ s) ∷ xs) =
    ap (λ m. text_eq (d ∷ o) (c ∷ s) || m) (member-filter (d ∷ o) xs)

-- The list of trusted origins: the local ones, and the parts of the environment's list that are
-- not blank. A blank origin is never trusted.
pub member-build_trusted_origins :
    (env : Option Text) (o : Text)
    → member o (build_trusted_origins env) ≡ (
        not (is_empty o) && member o (map trim (split 44 (env_or_empty env)))
        || member o local_origins)
unfolding build_trusted_origins
member-build_trusted_origins env o =
    member-append o (filter (λ s. not (is_empty s)) (map trim (split 44 (env_or_empty env))))
      local_origins
    ∙ rw (member-filter o (map trim (split 44 (env_or_empty env))))

-- A text that is not blank.
not_empty_iff : (o : Text) → (not (is_empty o) ≡ true) ↔ (o ≢ [])
not_empty_iff [] = ground arith
not_empty_iff (c ∷ o) = ground arith

build_trusted_origins-IsTrusted :
    (env : Option Text) (o : Text) → (member o (build_trusted_origins env) ≡ true) ↔ IsTrusted env o
build_trusted_origins-IsTrusted env o = rw (member-build_trusted_origins env o) (
    or_iff (and_iff (not_empty_iff o) (member-Memᴰ o (map trim (split 44 (env_or_empty env))))) (
      or_iff (text_eq_iff o (codes "http://localhost:3000"))
        (or_false_iff (text_eq_iff o (codes "http://127.0.0.1:3000")))))

-- What the check of the origin reads, in terms of the two tests.
csrf_blocked-tests :
    (trusted : List Text) (r : Request)
    → (proxy trusted r ≡ csrf_blocked) ↔ (
        (member (to_upper r.method) safe_methods ≡ false)
        × ((o : Text) × (r.origin ≡ some o) × (member o trusted ≡ false)))
unfolding proxy csrf_fails
csrf_blocked-tests trusted r = ground arith

-- Under any value of the variable of trusted origins, the request is refused exactly when its
-- method is none of GET, HEAD and OPTIONS, in letters of either case, and it carries an origin that
-- is neither one of the two local ones nor a part of that value that is not blank, whatever its
-- path and its cookies.
pub proxy-csrf_blocked_iff :
    (env : Option Text) (r : Request)
    → (proxy (build_trusted_origins env) r ≡ csrf_blocked) ↔ IsForeign env r
proxy-csrf_blocked_iff env r =
    let safe = no_of_iff (safe_methods-IsSafe r.method) in
    let tests = csrf_blocked-tests (build_trusted_origins env) r in
    (
      λ h.
          let (m, (o, e, t)) = tests.0 h in
          (safe.0 m, (o, e, (no_of_iff (build_trusted_origins-IsTrusted env o)).0 t)),
      λ (m, (o, e, t)).
          tests.1 (safe.1 m, (o, e, (no_of_iff (build_trusted_origins-IsTrusted env o)).1 t)),
    )
