-- ===== src/Cookie/Writing.antt =====
-- What a read returns after a cookie was set or cleared.
use dmtool.Base.{
  ℕ, ◌<◌, ◌≡◌, ◌≢◌, refl, sym, ap, ◌∙◌, true, false, List, [], ◌∷◌, ◌++◌, none, some, Text, codes,
  All, All-append, trim, trim_start, trim_end, text_eq, eq_false, text_eq_refl, is_space,
  if◌then◌else◌, arith, ltb, lt→ltb, returned,
}
use dmtool.Cookie.{Page, Days, cookie_options, set_auth_cookie, clear_auth_cookie, read_cookie}
use dmtool.Cookie.Store.{CookieStore, SetCookie, IsPair, lookup, pair_text}
use dmtool.Cookie.Reading.{read_cookie-lookup, decoded}
use dmtool.Uri.{IsScalar, encode_uri_component, is_unreserved}
use dmtool.Uri.Bytes.{IsEncoded, encode_uri_component-IsEncoded}
use dmtool.Uri.RoundTrip.{decode-encode, IsScalar-lt}

-- A cookie's name, as the application has them: unreserved characters, so no `=`, `;` or space.
abbrev pub IsName : Text → Type 0
IsName n = All (λ c. is_unreserved c ≡ true) n

encoded_clean : (c : ℕ) → IsEncoded c → (c ≢ 59) × (is_space c ≡ false)
unfolding is_unreserved
encoded_clean c h = ground arith

name_clean : (c : ℕ) → is_unreserved c ≡ true → (c ≢ 59) × (c ≢ 61) × (is_space c ≡ false)
unfolding is_unreserved
name_clean c h = ground arith

All-map {ℓ κ μ} :
    {A : Type ℓ} {P : A → Type κ} {Q : A → Type μ} (xs : List A)
    → ((x : A) → P x → Q x)
    → All P xs
    → All Q xs
All-map [] f h = tt
All-map (x ∷ xs) f (p, h) = (f x p, All-map xs f h)

trim_end_of_clean : (s : Text) → All (λ c. is_space c ≡ false) s → trim_end s ≡ s
unfolding trim_end
trim_end_of_clean [] h = refl
trim_end_of_clean (c ∷ []) (p, h) = ground arith
trim_end_of_clean (c ∷ d ∷ s) (p, h) = rw (trim_end_of_clean (d ∷ s) h)

trim_of_clean : (s : Text) → All (λ c. is_space c ≡ false) s → trim s ≡ s
unfolding trim trim_start
trim_of_clean [] h = refl
trim_of_clean (c ∷ s) (p, h) = rw p (trim_end_of_clean (c ∷ s) (p, h))

pair_clean :
    (n v : Text)
    → IsName n
    → All (λ c. (c ≢ 59) × (is_space c ≡ false)) v
    → All (λ c. (c ≢ 59) × (is_space c ≡ false)) (pair_text (n, v))
pair_clean n v h k =
    All-append _ n (codes "=" ++ v) (All-map n (λ c p. ground (arith, name_clean c p)) h)
      (ground arith, k)

IsPair-intro :
    (n v : Text) → IsName n → All (λ c. (c ≢ 59) × (is_space c ≡ false)) v → IsPair (n, v)
IsPair-intro n v h k =
    let clean = pair_clean n v h k in
    record {
      no_semicolon = All-map (pair_text (n, v)) (λ c p. p.0) clean;
      trimmed = trim_of_clean (pair_text (n, v)) (All-map (pair_text (n, v)) (λ c p. p.1) clean);
      no_equals = All-map n (λ c p. ground (arith, name_clean c p)) h;
    }

scalars_below : (s : Text) → All IsScalar s → All (λ c. c < 0x110000) s
scalars_below s h = All-map s IsScalar-lt h

encoded-IsPair : (n s : Text) → IsName n → All IsScalar s → IsPair (n, encode_uri_component s)
encoded-IsPair n s h k = IsPair-intro n (encode_uri_component s) h (
    All-map (encode_uri_component s) encoded_clean
      (encode_uri_component-IsEncoded s (scalars_below s k)))

cleared-IsPair : (n : Text) → IsName n → IsPair (n, [])
cleared-IsPair n h = IsPair-intro n [] h tt

no_equals : (n : Text) → IsName n → All (λ c. c ≢ 61) n
no_equals n h = All-map n (λ c p. ground (arith, name_clean c p)) h

module _ (b : CookieStore) (now : ℕ) (k : Text) (h : IsName k) where
  read_cookie-assign :
      (p : Page b) {j : b.Jar} (c : SetCookie)
      → IsPair (c.name, c.value)
      → p.jar ≡ some (b.assign now c j)
      → read_cookie b k p
        ≡ decoded (
            if text_eq k c.name
            then (if ltb now c.expires then some c.value else none)
            else lookup k (b.view j))
  read_cookie-assign p {j} c q e =
      read_cookie-lookup b k p e (no_equals k h) ∙ ap decoded (b.lookup-assign now c j k q)

  read_cookie-assign_other :
      (p p' : Page b) {j : b.Jar} (c : SetCookie)
      → IsPair (c.name, c.value)
      → p.jar ≡ some j
      → p'.jar ≡ some (b.assign now c j)
      → k ≢ c.name
      → read_cookie b k p' ≡ read_cookie b k p
  read_cookie-assign_other p p' c q e e' ne =
      read_cookie-assign p' c q e'
      ∙ rw (eq_false k c.name ne) (sym (read_cookie-lookup b k p e (no_equals k h)))

module _ (b : CookieStore) (now : ℕ) (name : Text) (p : Page b) where
  pub set_auth_cookie-jar :
      {j : b.Jar} (value : Text) (d : Days)
      → p.jar ≡ some j
      → (set_auth_cookie b now name value d p).jar
        ≡ some (
            b.assign now
              (record {
                name = name;
                value = encode_uri_component value;
                expires = cookie_options now d;
              })
              j)
  unfolding set_auth_cookie
  set_auth_cookie-jar value d e = rw (e, set_auth_cookie)

  pub clear_auth_cookie-jar :
      {j : b.Jar}
      → p.jar ≡ some j
      → (clear_auth_cookie b now name p).jar
        ≡ some (b.assign now (record { name = name; value = []; expires = 0 }) j)
  unfolding clear_auth_cookie
  clear_auth_cookie-jar e = rw (e, clear_auth_cookie)

module _ (b : CookieStore) (now : ℕ) (name : Text) (h : IsName name) (p : Page b) where
  -- In the browser, a text that is set under a name with an expiry in the future is what a read
  -- of that name returns, whatever characters it holds and whatever else is stored.
  pub read_cookie-set_self :
      {j : b.Jar} (value : Text) (d : Days)
      → p.jar ≡ some j
      → All IsScalar value
      → now < cookie_options now d
      → read_cookie b name (set_auth_cookie b now name value d p) ≡ returned (some value)
  read_cookie-set_self {j} value d e k late =
      read_cookie-assign b now name h (set_auth_cookie b now name value d p) {j = j} _
        (encoded-IsPair name value h k) (set_auth_cookie-jar b now name p value d e)
      ∙ rw (text_eq_refl name, lt→ltb _ _ late, decode-encode value k)

  -- In the browser, setting a text under one name leaves what is read under every other name.
  pub read_cookie-set_other :
      (k : Text) {j : b.Jar} (value : Text) (d : Days)
      → IsName k
      → k ≢ name
      → p.jar ≡ some j
      → All IsScalar value
      → read_cookie b k (set_auth_cookie b now name value d p) ≡ read_cookie b k p
  read_cookie-set_other k value d g ne e s =
      read_cookie-assign_other b now k g p (set_auth_cookie b now name value d p) _
        (encoded-IsPair name value h s) e (set_auth_cookie-jar b now name p value d e) ne

  -- A cleared name reads as `null`.
  pub read_cookie-clear_self :
      {j : b.Jar}
      → p.jar ≡ some j
      → read_cookie b name (clear_auth_cookie b now name p) ≡ returned none
  read_cookie-clear_self {j} e =
      read_cookie-assign b now name h (clear_auth_cookie b now name p) {j = j} _
        (cleared-IsPair name h) (clear_auth_cookie-jar b now name p e)
      ∙ rw (text_eq_refl name) (ground arith)

  pub read_cookie-clear_other :
      (k : Text) {j : b.Jar}
      → IsName k
      → k ≢ name
      → p.jar ≡ some j
      → read_cookie b k (clear_auth_cookie b now name p) ≡ read_cookie b k p
  read_cookie-clear_other k g ne e =
      read_cookie-assign_other b now k g p (clear_auth_cookie b now name p) _
        (cleared-IsPair name h) e (clear_auth_cookie-jar b now name p e) ne
