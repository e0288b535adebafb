-- ===== src/Cookie/Reading.antt =====
-- `readCookie` finds the pair of the given name, whatever else the store holds.
use dmtool.Base.{
  ◌≡◌, ◌≢◌, refl, ap, ◌∙◌, List, [], ◌∷◌, ◌++◌, map, Option, none, some, Text, codes, All, join,
  split, split_onto, trim, text_eq, strip_prefix, if◌then◌else◌, arith, Outcome, returned,
  Bool-cases, inl, inr,
}
use dmtool.Base.Splitting.{split-single, split-append}
use dmtool.Cookie.{Page, found_or, read_from, read_cookie}
use dmtool.Cookie.Store.{CookieStore, IsPair, lookup, pair_text}

-- The parts of the joined pairs: a space before each but the first.
spaced : List Text → List Text
spaced [] = []
spaced (w ∷ ws) = (32 ∷ w) ∷ spaced ws

split-join :
    (w : Text) (ws : List Text)
    → All (All (λ c. c ≢ 59)) (w ∷ ws)
    → split 59 (join (codes "; ") (w ∷ ws)) ≡ w ∷ spaced ws
unfolding join spaced split
split-join w [] (p, h) = split-single 59 w p
split-join w (v ∷ ws) (p, h) =
    split-append 59 w (32 ∷ join (codes "; ") (v ∷ ws)) p
    ∙ ap (λ t. w ∷ split_onto 32 t) (split-join v ws h)

read_from-spaced : (p : Text) (ws : List Text) → read_from p (spaced ws) ≡ read_from p ws
unfolding spaced read_from trim
read_from-spaced p [] = refl
read_from-spaced p (w ∷ ws) = ap (found_or (strip_prefix p (trim w))) (read_from-spaced p ws)

read_from-spaced_tail :
    (p w : Text) (ws : List Text) → read_from p (w ∷ spaced ws) ≡ read_from p (w ∷ ws)
unfolding read_from
read_from-spaced_tail p w ws = ap (found_or (strip_prefix p (trim w))) (read_from-spaced p ws)

strip_prefix-pair :
    (n k v : Text)
    → All (λ c. c ≢ 61) n
    → All (λ c. c ≢ 61) k
    → strip_prefix (n ++ codes "=") (k ++ (codes "=" ++ v)) ≡ (if text_eq n k then some v else none)
unfolding strip_prefix text_eq
strip_prefix-pair [] [] v h g = refl
strip_prefix-pair [] (c ∷ k) v h (q, g) = ground arith
strip_prefix-pair (c ∷ n) [] v (p, h) g = ground arith
strip_prefix-pair (c ∷ n) (d ∷ k) v (p, h) (q, g) = ground (arith, strip_prefix-pair n k v h g)

-- A stored value as it is returned: decoded, or the decoder's exception.
abbrev pub decoded : Option Text → Outcome (Option Text)
decoded v = found_or v (returned none)

read_from-pairs :
    (n : Text) (kvs : List (Text × Text))
    → All (λ c. c ≢ 61) n
    → All IsPair kvs
    → read_from (n ++ codes "=") (map pair_text kvs) ≡ decoded (lookup n kvs)
unfolding read_from lookup
read_from-pairs n [] p h = refl
read_from-pairs n ((k, v) ∷ kvs) p (q, h) =
    let ih = read_from-pairs n kvs p h in
    let trimmed : trim (k ++ (codes "=" ++ v)) ≡ k ++ (codes "=" ++ v) = q.trimmed in
    rw (read_from, trimmed, strip_prefix-pair n k v p q.no_equals)
      (elim (Bool-cases (text_eq n k)) [ inl same ↦ rw same | inr other ↦ rw other ih ])

All-no_semicolon :
    (kvs : List (Text × Text)) → All IsPair kvs → All (All (λ c. c ≢ 59)) (map pair_text kvs)
All-no_semicolon [] h = tt
All-no_semicolon (kv ∷ kvs) (q, h) = (q.no_semicolon, All-no_semicolon kvs h)

no_prefix : (n : Text) → read_from (n ++ codes "=") ([] ∷ []) ≡ returned none
unfolding read_from trim strip_prefix
no_prefix [] = refl
no_prefix (c ∷ n) = refl

read_from-joined :
    (n : Text) (kvs : List (Text × Text))
    → All (λ c. c ≢ 61) n
    → All IsPair kvs
    → read_from (n ++ codes "=") (split 59 (join (codes "; ") (map pair_text kvs)))
      ≡ decoded (lookup n kvs)
unfolding lookup
read_from-joined n [] p h = unfold join split read_from trim in no_prefix n
read_from-joined n (kv ∷ kvs) p h =
    ap (read_from (n ++ codes "="))
      (split-join (pair_text kv) (map pair_text kvs) (All-no_semicolon (kv ∷ kvs) h))
    ∙ read_from-spaced_tail (n ++ codes "=") (pair_text kv) (map pair_text kvs)
    ∙ read_from-pairs n (kv ∷ kvs) p h

-- Reading a name gives the decoded value that the store has under it, and `null` without one.
pub read_cookie-lookup :
    (b : CookieStore) (name : Text) (p : Page b) {j : b.Jar}
    → p.jar ≡ some j
    → All (λ c. c ≢ 61) name
    → read_cookie b name p ≡ decoded (lookup name (b.view j))
unfolding read_cookie
read_cookie-lookup b name p {j} e h =
    rw (e, read_cookie)
      (rw (b.document_cookie-view j) (read_from-joined name (b.view j) h (b.view-IsPair j)))
