-- ===== src/Uri.antt =====
-- `encodeURIComponent` and `decodeURIComponent` of JavaScript, over lists of code points: the
-- percent form of the UTF-8 bytes of every character outside the unreserved set. A string that
-- is no text (a lone surrogate) is outside `IsScalar`.
pub mod Bytes
pub mod RoundTrip
use dmtool.Base.{
  ℕ, ◌+◌, ◌-◌, ◌*◌, ◌/◌, ◌%◌, ◌≤◌, ◌<◌, ◌⊎◌, Bool, true, false, not, ◌&&◌, ◌||◌, List, [], ◌∷◌,
  ◌++◌, Option, none, some, Text, leb, ltb, ◌==◌, if◌then◌else◌,
}

-- A Unicode scalar value: a code point that is no surrogate.
abbrev pub IsScalar : ℕ → Type 0
IsScalar c = (c < 0xd800) ⊎ ((0xe000 ≤ c) × (c < 0x110000))

abbrev pub is_between : ℕ → ℕ → ℕ → Bool
is_between lo hi c = leb lo c && leb c hi

-- The characters that are not escaped: letters, digits and - _ . ! ~ * ' ( ).
unfoldable pub is_unreserved : ℕ → Bool
is_unreserved c =
    is_between 97 122 c
    || is_between 65 90 c
    || is_between 48 57 c
    || is_between 39 42 c
    || is_between 45 46 c
    || c == 33
    || c == 95
    || c == 126

unfoldable pub utf8 : ℕ → List ℕ
utf8 c =
    if ltb c 0x80
    then c ∷ []
    else if ltb c 0x800
    then (0xc0 + c / 64) ∷ (0x80 + c % 64) ∷ []
    else if ltb c 0x10000
    then (0xe0 + c / 4096) ∷ (0x80 + (c / 64) % 64) ∷ (0x80 + c % 64) ∷ []
    else (0xf0 + c / 262144)
      ∷ (0x80 + (c / 4096) % 64)
      ∷ (0x80 + (c / 64) % 64)
      ∷ (0x80 + c % 64)
      ∷ []

unfoldable pub hex_digit : ℕ → ℕ
hex_digit d = if ltb d 10 then 48 + d else 55 + d

unfoldable pub percent : List ℕ → Text
percent [] = []
percent (b ∷ bs) = 37 ∷ hex_digit (b / 16) ∷ hex_digit (b % 16) ∷ percent bs

unfoldable pub encode_char : ℕ → Text
encode_char c = if is_unreserved c then c ∷ [] else percent (utf8 c)

unfoldable pub encode_uri_component : Text → Text
encode_uri_component [] = []
encode_uri_component (c ∷ s) = encode_char c ++ encode_uri_component s

-- Decoding, first the escapes: what stands between them is left as it is.
pub data Item : Type 0 where
  raw byte : ℕ → Item

pub data Escape : Type 0 where
  ready after_percent : Escape
  after_digit : ℕ → Escape

unfoldable pub hex_value : ℕ → Option ℕ
hex_value c =
    if is_between 48 57 c
    then some (c - 48)
    else if is_between 65 70 c
    then some (c - 55)
    else if is_between 97 102 c
    then some (c - 87)
    else none

abbrev pub cons? {ℓ} : {A : Type ℓ} → A → Option (List A) → Option (List A)
cons? a none = none
cons? a (some l) = some (a ∷ l)

unfoldable pub unescape : Escape → Text → Option (List Item)
unescape ready [] = some []
unescape _ [] = none
unescape ready (c ∷ s) =
    let escape = unescape after_percent s in
    let plain = cons? (raw c) (unescape ready s) in if c == 37 then escape else plain
unescape after_percent (c ∷ s) = elim (hex_value c) [
  | none ↦ none
  | some h ↦ unescape (after_digit h) s
]
unescape (after_digit h) (c ∷ s) = elim (hex_value c) [
  | none ↦ none
  | some l ↦ cons? (byte (h * 16 + l)) (unescape ready s)
]

-- Then the UTF-8 bytes: how many more are wanted, the value so far, and the least value that
-- this many bytes may stand for.
pub data Partial : Type 0 where
  start : Partial
  want : ℕ → ℕ → ℕ → Partial

abbrev pub is_scalar : ℕ → Bool
is_scalar c = ltb c 0xd800 || leb 0xe000 c && ltb c 0x110000

-- What one byte does: it ends a character, or others are awaited.
pub data Next : Type 0 where
  malformed : Next
  emit : ℕ → Next
  await : ℕ → ℕ → ℕ → Next

unfoldable pub first_byte : ℕ → Next
first_byte b =
    if ltb b 0x80
    then emit b
    else if is_between 0xc0 0xdf b
    then await 0 (b - 0xc0) 0x80
    else if is_between 0xe0 0xef b
    then await 1 (b - 0xe0) 0x800
    else if is_between 0xf0 0xf7 b
    then await 2 (b - 0xf0) 0x10000
    else malformed

unfoldable pub next_byte : ℕ → ℕ → ℕ → ℕ → Next
next_byte n v least b =
    let v' = v * 64 + (b - 0x80) in
    if not (is_between 0x80 0xbf b)
    then malformed
    else if ltb 0 n
    then await (n - 1) v' least
    else if leb least v' && is_scalar v'
    then emit v'
    else malformed

abbrev pub byte_of : Partial → ℕ → Next
byte_of start b = first_byte b
byte_of (want n v least) b = next_byte n v least b

unfoldable pub from_utf8 : Partial → List Item → Option Text
from_utf8 start [] = some []
from_utf8 (want _ _ _) [] = none
from_utf8 start (raw c ∷ r) = cons? c (from_utf8 start r)
from_utf8 (want _ _ _) (raw _ ∷ _) = none
from_utf8 p (byte b ∷ r) = elim (byte_of p b) [
  | malformed ↦ none
  | emit c ↦ cons? c (from_utf8 start r)
  | await n v least ↦ from_utf8 (want n v least) r
]

-- `none` is the `URIError` that it throws.
unfoldable pub decode_uri_component : Text → Option Text
decode_uri_component s = elim (unescape ready s) [ none ↦ none | some r ↦ from_utf8 start r ]
