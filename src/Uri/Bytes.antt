-- ===== src/Uri/Bytes.antt =====
-- What an encoded text is made of.
use dmtool.Base.{
  ℕ, ◌/◌, ◌%◌, ◌<◌, ◌≡◌, refl, true, ◌||◌, List, [], ◌∷◌, Text, All, All-append, arith, ◌==◌,
  Bool-cases, inl, inr,
}
use dmtool.Uri.{is_unreserved, utf8, hex_digit, percent, encode_char, encode_uri_component}

-- A character that is unreserved or the percent sign.
abbrev pub IsEncoded : ℕ → Type 0
IsEncoded c = (is_unreserved c || c == 37) ≡ true

hex_digit-IsEncoded : (d : ℕ) → d < 16 → IsEncoded (hex_digit d)
unfolding hex_digit is_unreserved
hex_digit-IsEncoded d h = ground arith

percent-IsEncoded : (bs : List ℕ) → All (λ b. b < 256) bs → All IsEncoded (percent bs)
unfolding percent is_unreserved
percent-IsEncoded [] h = tt
percent-IsEncoded (b ∷ bs) (p, h) = (
  refl,
  (
    hex_digit-IsEncoded (b / 16) (omega arith),
    (hex_digit-IsEncoded (b % 16) (omega arith), percent-IsEncoded bs h),
  ),
)

pub utf8_bytes : (c : ℕ) → c < 0x110000 → All (λ b. b < 256) (utf8 c)
unfolding utf8
utf8_bytes c h = ground arith

encode_char-IsEncoded : (c : ℕ) → c < 0x110000 → All IsEncoded (encode_char c)
unfolding encode_char
encode_char-IsEncoded c h = elim (Bool-cases (is_unreserved c)) [
  | inl plain ↦ rw plain (ground arith)
  | inr other ↦ rw other (percent-IsEncoded (utf8 c) (utf8_bytes c h))
]

-- The output of `encodeURIComponent` holds nothing but unreserved characters and escapes.
pub encode_uri_component-IsEncoded :
    (s : Text) → All (λ c. c < 0x110000) s → All IsEncoded (encode_uri_component s)
unfolding encode_uri_component
encode_uri_component-IsEncoded [] h = tt
encode_uri_component-IsEncoded (c ∷ s) (p, h) =
    All-append IsEncoded (encode_char c) (encode_uri_component s) (encode_char-IsEncoded c p)
      (encode_uri_component-IsEncoded s h)
