-- ===== src/Cookie/Store.antt =====
-- What the cookies rest on: the browser's cookie store and the JSON codec of the platform.
use dmtool.Base.{
  ℕ, ◌≡◌, ◌≢◌, Bool, true, false, List, [], ◌∷◌, ◌++◌, map, Option, none, some, Text, codes, All,
  join, trim, text_eq, ltb, if◌then◌else◌,
}
use dmtool.Uri.{IsScalar}

-- What the page assigns to `document.cookie`: `name=value; Path=/; SameSite=Lax; Expires=…`,
-- the date as milliseconds.
pub record SetCookie : Type 0 where
  pub name : Text
  pub value : Text
  pub expires : ℕ

abbrev pub pair_text : Text × Text → Text
pair_text (k, v) = k ++ (codes "=" ++ v)

-- A stored pair, as browsers keep it: no semicolon, no space at its ends, no `=` in the name.
pub record IsPair (kv : Text × Text) : Type 0 where
  pub no_semicolon : All (λ c. c ≢ 59) (pair_text kv)
  pub trimmed : trim (pair_text kv) ≡ pair_text kv
  pub no_equals : All (λ c. c ≢ 61) kv.0

unfoldable pub lookup : Text → List (Text × Text) → Option Text
lookup k [] = none
lookup k ((j, v) ∷ m) = if text_eq k j then some v else lookup k m

-- The cookie store (RFC 6265): `document.cookie` lists the pairs that the page sees, and an
-- assignment replaces the pair of that name, or drops it if the date has passed.
pub record CookieStore : Type 1 where
  pub Jar : Type 0
  pub view : Jar → List (Text × Text)
  pub document_cookie : Jar → Text
  pub assign : ℕ → SetCookie → Jar → Jar
  pub document_cookie-view :
      (j : Jar) → document_cookie j ≡ join (codes "; ") (map pair_text (view j))
  pub view-IsPair : (j : Jar) → All IsPair (view j)
  pub lookup-assign :
      (now : ℕ) (c : SetCookie) (j : Jar) (k : Text)
      → IsPair (c.name, c.value)
      → lookup k (view (assign now c j)) ≡ (
          if text_eq k c.name
          then (if ltb now c.expires then some c.value else none)
          else lookup k (view j))

mutual
  pub data Json : Type 0 where
    null : Json
    bool : Bool → Json
    num : ℕ → Json
    str : Text → Json
    arr : Items → Json
    obj : Fields → Json

  pub data Items : Type 0 where
    nil : Items
    cons : Json → Items → Items

  pub data Fields : Type 0 where
    end : Fields
    field : Text → Json → Fields → Fields

abbrev pub get_field : Text → Fields → Option Json
get_field k end = none
get_field k (field j v fs) = if text_eq k j then some v else get_field k fs

abbrev pub is_some {ℓ} : {A : Type ℓ} → Option A → Bool
is_some none = false
is_some (some _) = true

-- `v && typeof v === "object" && k in v`, for a key that arrays do not have.
abbrev pub has_field : Text → Json → Bool
has_field k (obj fs) = is_some (get_field k fs)
has_field k _ = false

-- `JSON.parse`, with `none` for its SyntaxError, and `JSON.stringify`.
pub record JsonCodec : Type 0 where
  pub parse : Text → Option Json
  pub stringify : Json → Text

-- A value that the codec gives back, and whose text has no lone surrogate: what is documented of
-- every value that is itself JSON.
pub record IsStorable (json : JsonCodec) (v : Json) : Type 0 where
  pub parses : json.parse (json.stringify v) ≡ some v
  pub scalars : All IsScalar (json.stringify v)
  pub filled : json.stringify v ≢ []
