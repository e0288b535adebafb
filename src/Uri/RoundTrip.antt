-- ===== src/Uri/RoundTrip.antt =====
-- Decoding undoes encoding.
use dmtool.Base.{
  ℕ, suc, ◌+◌, ◌-◌, ◌*◌, ◌/◌, ◌%◌, ◌<◌, ◌≤◌, ◌≡◌, refl, ap, ◌∙◌, true, List, [], ◌∷◌, ◌++◌, map,
  Text, All, arith, ltb, if◌then◌else◌, Bool-cases, inl, inr, some, none, Option,
}
use dmtool.Uri.{
  IsScalar, is_unreserved, utf8, hex_digit, percent, encode_char, encode_uri_component, Item, raw,
  byte, ready, hex_value, cons?, unescape, start, want, from_utf8, decode_uri_component, emit,
  await, first_byte, next_byte, Partial, byte_of,
}
use dmtool.Uri.Bytes.{utf8_bytes}

hex_value-hex_digit : (d : ℕ) → d < 16 → hex_value (hex_digit d) ≡ some d
unfolding hex_value hex_digit
hex_value-hex_digit d h = ground arith

abbrev bytes_onto : List ℕ → Option (List Item) → Option (List Item)
bytes_onto [] o = o
bytes_onto (b ∷ bs) o = cons? (byte b) (bytes_onto bs o)

unescape-percent :
    (bs : List ℕ) (rest : Text)
    → All (λ b. b < 256) bs
    → unescape ready (percent bs ++ rest) ≡ bytes_onto bs (unescape ready rest)
unfolding percent unescape
unescape-percent [] rest h = refl
unescape-percent (b ∷ bs) rest (p, h) =
    let digits : b / 16 * 16 + b % 16 ≡ b = omega arith in
    rw (hex_value-hex_digit (b / 16) (omega arith), hex_value-hex_digit (b % 16) (omega arith))
      (cc (digits, unescape-percent bs rest h))

unescape-plain :
    (c : ℕ) (rest : Text)
    → is_unreserved c ≡ true
    → unescape ready (c ∷ rest) ≡ cons? (raw c) (unescape ready rest)
unfolding unescape is_unreserved
unescape-plain c rest h = ground arith

-- One more byte of a sequence.
next_byte-more :
    (n v x least : ℕ) → x < 64 → next_byte (suc n) v least (0x80 + x) ≡ await n (v * 64 + x) least
unfolding next_byte
next_byte-more n v x least h =
    let low : 0x80 + x - 0x80 ≡ x = omega arith in
    let one : suc n - 1 ≡ n = omega arith in rw (low, one) (ground arith)

-- The last byte.
next_byte-last :
    (v x least c : ℕ)
    → x < 64
    → v * 64 + x ≡ c
    → least ≤ c
    → IsScalar c
    → next_byte 0 v least (0x80 + x) ≡ emit c
unfolding next_byte
next_byte-last v x least c h e l i =
    let low : 0x80 + x - 0x80 ≡ x = omega arith in rw (low, e) (ground arith)

-- The first byte says how many follow.
first_byte-two : (h : ℕ) → h < 32 → first_byte (0xc0 + h) ≡ await 0 h 0x80
unfolding first_byte
first_byte-two h l = let low : 0xc0 + h - 0xc0 ≡ h = omega arith in rw low (ground arith)

first_byte-three : (h : ℕ) → h < 16 → first_byte (0xe0 + h) ≡ await 1 h 0x800
unfolding first_byte
first_byte-three h l = let low : 0xe0 + h - 0xe0 ≡ h = omega arith in rw low (ground arith)

first_byte-four : (h : ℕ) → h < 8 → first_byte (0xf0 + h) ≡ await 2 h 0x10000
unfolding first_byte
first_byte-four h l = let low : 0xf0 + h - 0xf0 ≡ h = omega arith in rw low (ground arith)

first_byte-one : (c : ℕ) → c < 0x80 → first_byte c ≡ emit c
unfolding first_byte
first_byte-one c l = ground arith

from_utf8-emit :
    (p : Partial) (b c : ℕ) (r : List Item)
    → byte_of p b ≡ emit c
    → from_utf8 p (byte b ∷ r) ≡ cons? c (from_utf8 start r)
unfolding from_utf8
from_utf8-emit start b c r e = rw (e, from_utf8)
from_utf8-emit (want n v least) b c r e = rw (e, from_utf8)

from_utf8-await :
    (p : Partial) (b n v least : ℕ) (r : List Item)
    → byte_of p b ≡ await n v least
    → from_utf8 p (byte b ∷ r) ≡ from_utf8 (want n v least) r
unfolding from_utf8
from_utf8-await start b n v least r e = rw (e, from_utf8)
from_utf8-await (want m w low) b n v least r e = rw (e, from_utf8)

module _ (c : ℕ) (rest : List Item) (h : IsScalar c) where
  two_bytes :
      0x80 ≤ c
      → c < 0x800
      → from_utf8 start (byte (0xc0 + c / 64) ∷ byte (0x80 + c % 64) ∷ rest)
        ≡ cons? c (from_utf8 start rest)
  two_bytes l m =
      from_utf8-await start _ _ _ _ _ (first_byte-two (c / 64) (omega arith))
      ∙ from_utf8-emit _ _ c rest
          (next_byte-last (c / 64) (c % 64) 0x80 c (omega arith) (omega arith) l h)

  three_bytes :
      0x800 ≤ c
      → c < 0x10000
      → from_utf8 start
          (byte (0xe0 + c / 4096) ∷ byte (0x80 + (c / 64) % 64) ∷ byte (0x80 + c % 64) ∷ rest)
        ≡ cons? c (from_utf8 start rest)
  three_bytes l m =
      from_utf8-await start _ _ _ _ _ (first_byte-three (c / 4096) (omega arith))
      ∙ from_utf8-await _ _ _ _ _ _
          (next_byte-more 0 (c / 4096) ((c / 64) % 64) 0x800 (omega arith))
      ∙ from_utf8-emit _ _ c rest (
          next_byte-last (c / 4096 * 64 + (c / 64) % 64) (c % 64) 0x800 c (omega arith)
            (omega arith) l h)

  four_bytes :
      0x10000 ≤ c
      → from_utf8 start (
          byte (0xf0 + c / 262144)
          ∷ byte (0x80 + (c / 4096) % 64)
          ∷ byte (0x80 + (c / 64) % 64)
          ∷ byte (0x80 + c % 64)
          ∷ rest)
        ≡ cons? c (from_utf8 start rest)
  four_bytes l =
      from_utf8-await start _ _ _ _ _ (first_byte-four (c / 262144) (omega arith))
      ∙ from_utf8-await _ _ _ _ _ _
          (next_byte-more 1 (c / 262144) ((c / 4096) % 64) 0x10000 (omega arith))
      ∙ from_utf8-await _ _ _ _ _ _ (
          next_byte-more 0 (c / 262144 * 64 + (c / 4096) % 64) ((c / 64) % 64) 0x10000
            (omega arith))
      ∙ from_utf8-emit _ _ c rest (
          next_byte-last ((c / 262144 * 64 + (c / 4096) % 64) * 64 + (c / 64) % 64) (c % 64) 0x10000
            c (omega arith) (omega arith) l h)

  one_byte : c < 0x80 → from_utf8 start (byte c ∷ rest) ≡ cons? c (from_utf8 start rest)
  one_byte l = from_utf8-emit start c c rest (first_byte-one c l)

from_utf8-utf8 :
    (c : ℕ) (rest : List Item)
    → IsScalar c
    → from_utf8 start (map byte (utf8 c) ++ rest) ≡ cons? c (from_utf8 start rest)
unfolding utf8
from_utf8-utf8 c rest h = elim (Bool-cases (ltb c 0x80)) [
  | inl a ↦ rw a (one_byte c rest h (ground arith))
  | inr a ↦ elim (Bool-cases (ltb c 0x800)) [
    | inl b ↦ rw (a, b) (two_bytes c rest h (ground arith) (ground arith))
    | inr b ↦ elim (Bool-cases (ltb c 0x10000)) [
      | inl d ↦ rw (a, b, d) (three_bytes c rest h (ground arith) (ground arith))
      | inr d ↦ rw (a, b, d) (four_bytes c rest h (ground arith))
    ]
  ]
]

-- The items that an encoded text is read as.
items : ℕ → List Item
items c = if is_unreserved c then raw c ∷ [] else map byte (utf8 c)

prepend : List Item → Option (List Item) → Option (List Item)
prepend xs none = none
prepend xs (some r) = some (xs ++ r)

bytes_onto-prepend :
    (bs : List ℕ) (o : Option (List Item)) → bytes_onto bs o ≡ prepend (map byte bs) o
unfolding prepend
bytes_onto-prepend [] none = refl
bytes_onto-prepend [] (some r) = refl
bytes_onto-prepend (b ∷ bs) none = rw (bytes_onto-prepend bs none)
bytes_onto-prepend (b ∷ bs) (some r) = rw (bytes_onto-prepend bs (some r))

raw-prepend : (c : ℕ) (o : Option (List Item)) → cons? (raw c) o ≡ prepend (raw c ∷ []) o
unfolding prepend
raw-prepend c none = refl
raw-prepend c (some r) = refl

unescape-encode_char :
    (c : ℕ) (rest : Text)
    → c < 0x110000
    → unescape ready (encode_char c ++ rest) ≡ prepend (items c) (unescape ready rest)
unfolding encode_char items
unescape-encode_char c rest h = elim (Bool-cases (is_unreserved c)) [
  | inl plain ↦ rw plain (unescape-plain c rest plain ∙ raw-prepend c _)
  | inr other ↦
      rw other (unescape-percent (utf8 c) rest (utf8_bytes c h) ∙ bytes_onto-prepend (utf8 c) _)
]

from_utf8-items :
    (c : ℕ) (rest : List Item)
    → IsScalar c
    → from_utf8 start (items c ++ rest) ≡ cons? c (from_utf8 start rest)
unfolding items from_utf8
from_utf8-items c rest h = elim (Bool-cases (is_unreserved c)) [
  | inl plain ↦ rw plain
  | inr other ↦ rw other (from_utf8-utf8 c rest h)
]

pub IsScalar-lt : (c : ℕ) → IsScalar c → c < 0x110000
IsScalar-lt c h = ground arith

encoded_items : Text → List Item
encoded_items [] = []
encoded_items (c ∷ s) = items c ++ encoded_items s

unescape-encode :
    (s : Text) → All IsScalar s → unescape ready (encode_uri_component s) ≡ some (encoded_items s)
unfolding encode_uri_component encoded_items unescape
unescape-encode [] h = refl
unescape-encode (c ∷ s) (p, h) =
    unescape-encode_char c (encode_uri_component s) (IsScalar-lt c p)
    ∙ ap (prepend (items c)) (unescape-encode s h)
    ∙ (unfold prepend in refl)

from_utf8-encoded_items : (s : Text) → All IsScalar s → from_utf8 start (encoded_items s) ≡ some s
unfolding encoded_items from_utf8
from_utf8-encoded_items [] h = refl
from_utf8-encoded_items (c ∷ s) (p, h) =
    from_utf8-items c (encoded_items s) p ∙ ap (cons? c) (from_utf8-encoded_items s h)

pub decode-encode :
    (s : Text) → All IsScalar s → decode_uri_component (encode_uri_component s) ≡ some s
unfolding decode_uri_component
decode-encode s h = rw (unescape-encode s h, decode_uri_component) (from_utf8-encoded_items s h)
