-- ===== src/Samples.antt =====
-- A browser's cookie store as a list of pairs, and other concrete values that the tests share.
use dmtool.Base.{
  ℕ, ◌≡◌, ◌≢◌, refl, ◌∙◌, Bool, true, false, not, ◌&&◌, List, [], ◌∷◌, map, none, some, Text, codes,
  All, all, join, trim, text_eq, text_eq_iff, ltb, ◌==◌, if◌then◌else◌, arith, Bool-cases, inl, inr,
}
use dmtool.Cookie.{Page}
use dmtool.Cookie.Store.{CookieStore, SetCookie, IsPair, lookup, pair_text}

abbrev pub lacks : ℕ → Text → Bool
lacks c s = all (λ d. not (d == c)) s

pub lacks_sound : (c : ℕ) (s : Text) → lacks c s ≡ true → All (λ d. d ≢ c) s
lacks_sound c [] h = tt
lacks_sound c (d ∷ s) h = (ground arith, lacks_sound c s (ground arith))

lacks_complete : (c : ℕ) (s : Text) → All (λ d. d ≢ c) s → lacks c s ≡ true
lacks_complete c [] h = refl
lacks_complete c (d ∷ s) (p, h) = ground (arith, lacks_complete c s h)

pub is_pair : Text × Text → Bool
is_pair kv =
    lacks 59 (pair_text kv) && text_eq (trim (pair_text kv)) (pair_text kv) && lacks 61 kv.0

pub is_pair_sound : (kv : Text × Text) → is_pair kv ≡ true → IsPair kv
unfolding is_pair
is_pair_sound kv h = record {
  no_semicolon = lacks_sound 59 (pair_text kv) (ground arith);
  trimmed = (text_eq_iff _ _).0 (ground arith);
  no_equals = lacks_sound 61 kv.0 (ground arith);
}

is_pair_complete : (kv : Text × Text) → IsPair kv → is_pair kv ≡ true
unfolding is_pair
is_pair_complete kv p = rw (
  lacks_complete 59 (pair_text kv) p.no_semicolon,
  (text_eq_iff (trim (pair_text kv)) (pair_text kv)).1 p.trimmed,
  lacks_complete 61 kv.0 p.no_equals,
)

pub remove : Text → List (Text × Text) → List (Text × Text)
remove k [] = []
remove k ((j, v) ∷ m) = if text_eq k j then remove k m else (j, v) ∷ remove k m

lookup-remove :
    (k n : Text) (m : List (Text × Text))
    → lookup k (remove n m) ≡ (if text_eq k n then none else lookup k m)
unfolding lookup remove
lookup-remove k n [] = ground arith
lookup-remove k n ((j, v) ∷ m) =
    ground (arith, lookup-remove k n m, text_eq_iff k n, text_eq_iff n j, text_eq_iff k j)

pub remove-All : (n : Text) (m : List (Text × Text)) → All IsPair m → All IsPair (remove n m)
unfolding remove
remove-All n [] h = tt
remove-All n ((j, v) ∷ m) (p, h) = elim (Bool-cases (text_eq n j)) [
  | inl same ↦ rw same (remove-All n m h)
  | inr other ↦ rw other (p, remove-All n m h)
]

abbrev pub Pairs : Type 0
Pairs = (m : List (Text × Text)) × All IsPair m

-- A pair that is none is refused, and a cookie of the past is dropped.
pub insert_if : (kv : Text × Text) (t : Bool) → (t ≡ true → IsPair kv) → Pairs → Pairs
insert_if kv true f (m, h) = (kv ∷ m, (f refl, h))
insert_if kv false f m = m

lookup-insert_if :
    (k : Text) (kv : Text × Text) (t : Bool) (f : t ≡ true → IsPair kv) (m : Pairs)
    → lookup k (insert_if kv t f m).0 ≡ (if t && text_eq k kv.0 then some kv.1 else lookup k m.0)
unfolding insert_if lookup
lookup-insert_if k kv true f m = refl
lookup-insert_if k kv false f m = refl

pub kept : ℕ → SetCookie → Bool
kept now c = is_pair (c.name, c.value) && ltb now c.expires

pub kept-IsPair : (now : ℕ) (c : SetCookie) → kept now c ≡ true → IsPair (c.name, c.value)
unfolding kept
kept-IsPair now c h = is_pair_sound (c.name, c.value) (ground arith)

unfoldable pub put : ℕ → SetCookie → Pairs → Pairs
put now c m =
    insert_if (c.name, c.value) (kept now c) (kept-IsPair now c)
      (remove c.name m.0, remove-All c.name m.0 m.1)

pub lookup-put :
    (now : ℕ) (c : SetCookie) (j : Pairs) (k : Text)
    → IsPair (c.name, c.value)
    → lookup k (put now c j).0 ≡ (
        if text_eq k c.name
        then (if ltb now c.expires then some c.value else none)
        else lookup k j.0)
unfolding put
lookup-put now c j k p =
    lookup-insert_if k (c.name, c.value) (kept now c) (kept-IsPair now c) _
    ∙ rw (lookup-remove k c.name j.0)
        (unfold kept in rw (is_pair_complete (c.name, c.value) p) (ground arith))

abbrev pub browser : CookieStore
browser = record {
  Jar = Pairs;
  view = λ j. j.0;
  document_cookie = λ j. join (codes "; ") (map pair_text j.0);
  assign = put;
  document_cookie-view = λ j. refl;
  view-IsPair = λ j. j.1;
  lookup-assign = lookup-put;
}

abbrev pub no_cookies : Pairs
no_cookies = ([], tt)

abbrev pub blank : Page browser
blank = record { jar = some no_cookies; events = [] }
