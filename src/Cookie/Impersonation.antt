-- ===== src/Cookie/Impersonation.antt =====
-- The impersonation cookies beside the admin's own session.
use dmtool.Base.{
  ℕ, ◌*◌, ◌<◌, ◌≡◌, ◌≢◌, refl, ap, ◌∙◌, [], ◌∷◌, none, some, Text, All, text_eq, text_ne, arith,
  returned,
}
use dmtool.Cookie.{cookie_token}
use dmtool.Cookie.{
  Page, Days, cookie_options, set_auth_cookie, clear_auth_cookie, read_cookie,
  cookie_impersonation_token, cookie_impersonation_target, impersonation_event,
  notify_impersonation_change, set_impersonation, clear_impersonation, read_impersonation_token,
  read_impersonation_target, target_of,
}
use dmtool.Cookie.Store.{CookieStore, IsStorable, JsonCodec, Json}
use dmtool.Cookie.Writing.{
  IsName, set_auth_cookie-jar, clear_auth_cookie-jar, read_cookie-set_self, read_cookie-set_other,
  read_cookie-clear_self, read_cookie-clear_other,
}
use dmtool.Uri.{IsScalar, is_unreserved}

pub token-IsName : IsName cookie_impersonation_token
unfolding is_unreserved
token-IsName = ground arith

pub target-IsName : IsName cookie_impersonation_target
unfolding is_unreserved
target-IsName = ground arith

pub token_ne_target : cookie_impersonation_token ≢ cookie_impersonation_target
unfolding text_eq
token_ne_target = text_ne _ _ refl

pub session_token-IsName : IsName cookie_token
unfolding is_unreserved
session_token-IsName = ground arith

pub session_ne_token : cookie_token ≢ cookie_impersonation_token
unfolding text_eq
session_ne_token = text_ne _ _ refl

pub token_ne_session : cookie_impersonation_token ≢ cookie_token
unfolding text_eq
token_ne_session = text_ne _ _ refl

pub session_ne_target : cookie_token ≢ cookie_impersonation_target
unfolding text_eq
session_ne_target = text_ne _ _ refl

module _ (b : CookieStore) where
  -- Only the store matters to a read.
  read_cookie-jar :
      (k : Text) (p q : Page b) → p.jar ≡ q.jar → read_cookie b k p ≡ read_cookie b k q
  unfolding read_cookie
  read_cookie-jar k p q e = rw (e, read_cookie)

  notify-jar : (p : Page b) → (notify_impersonation_change b p).jar ≡ p.jar
  unfolding notify_impersonation_change
  notify-jar p = ground arith

  notify-events :
      (p : Page b) {j : b.Jar}
      → p.jar ≡ some j
      → (notify_impersonation_change b p).events ≡ impersonation_event ∷ p.events
  unfolding notify_impersonation_change
  notify-events p e = ground arith

  set_auth_cookie-events :
      (now : ℕ) (n v : Text) (d : Days) (p : Page b)
      → (set_auth_cookie b now n v d p).events ≡ p.events
  unfolding set_auth_cookie
  set_auth_cookie-events now n v d p = ground arith

  clear_auth_cookie-events :
      (now : ℕ) (n : Text) (p : Page b) → (clear_auth_cookie b now n p).events ≡ p.events
  unfolding clear_auth_cookie
  clear_auth_cookie-events now n p = ground arith

module _ (b : CookieStore) (now : ℕ) (p : Page b) {j : b.Jar} (e : p.jar ≡ some j) where
  -- In the browser, after an impersonation was stopped both of its cookies read as `null`, every
  -- cookie of another name, the admin's own session among them, reads as before, and the banner is
  -- told once.
  pub clear_impersonation_lem :
      (read_cookie b cookie_impersonation_token (clear_impersonation b now p) ≡ returned none)
      × (read_cookie b cookie_impersonation_target (clear_impersonation b now p) ≡ returned none)
      × ((k : Text)
          → IsName k
          → k ≢ cookie_impersonation_token
          → k ≢ cookie_impersonation_target
          → read_cookie b k (clear_impersonation b now p) ≡ read_cookie b k p)
      × ((clear_impersonation b now p).events ≡ impersonation_event ∷ p.events)
  unfolding clear_impersonation
  clear_impersonation_lem =
      let q = clear_auth_cookie b now cookie_impersonation_token p in
      let r = clear_auth_cookie b now cookie_impersonation_target q in
      let eq = clear_auth_cookie-jar b now cookie_impersonation_token p e in
      let er = clear_auth_cookie-jar b now cookie_impersonation_target q eq in
      let same =
        λ (k : Text). read_cookie-jar b k (notify_impersonation_change b r) r (notify-jar b r) in
      (
        same cookie_impersonation_token
            ∙ read_cookie-clear_other b now cookie_impersonation_target target-IsName q
                cookie_impersonation_token token-IsName token_ne_target eq
            ∙ read_cookie-clear_self b now cookie_impersonation_token token-IsName p e,
        same cookie_impersonation_target
            ∙ read_cookie-clear_self b now cookie_impersonation_target target-IsName q eq,
        λ k h n m.
            same k
            ∙ read_cookie-clear_other b now cookie_impersonation_target target-IsName q k h m eq
            ∙ read_cookie-clear_other b now cookie_impersonation_token token-IsName p k h n e,
        notify-events b r er
            ∙ ap (λ l. impersonation_event ∷ l)
                (clear_auth_cookie-events b now cookie_impersonation_target q
                  ∙ clear_auth_cookie-events b now cookie_impersonation_token p),
      )

  pub clear_impersonation-jar : (j' : b.Jar) × ((clear_impersonation b now p).jar ≡ some j')
  unfolding clear_impersonation
  clear_impersonation-jar =
      let q = clear_auth_cookie b now cookie_impersonation_token p in
      let r = clear_auth_cookie b now cookie_impersonation_target q in
      (
        _,
        notify-jar b r
            ∙ clear_auth_cookie-jar b now cookie_impersonation_target q
                (clear_auth_cookie-jar b now cookie_impersonation_token p e),
      )

  pub set_impersonation-jar :
      (json : JsonCodec) (token : Text) (target : Json) (minutes : ℕ)
      → (j' : b.Jar) × ((set_impersonation b json now token target minutes p).jar ≡ some j')
  unfolding set_impersonation
  set_impersonation-jar json token target minutes =
      let d : Days = record { numerator = minutes; denominator = 24 * 60 } in
      let q = set_auth_cookie b now cookie_impersonation_token token d p in
      let r = set_auth_cookie b now cookie_impersonation_target (json.stringify target) d q in
      (
        _,
        notify-jar b r
            ∙ set_auth_cookie-jar b now cookie_impersonation_target q (json.stringify target) d
                (set_auth_cookie-jar b now cookie_impersonation_token p token d e),
      )

  module _ (json : JsonCodec) (token : Text) (target : Json) (minutes : ℕ)
      (scalar : All IsScalar token) (storable : IsStorable json target) (future : 0 < minutes) where
    lifetime : now < cookie_options now (record { numerator = minutes; denominator = 24 * 60 })
    unfolding cookie_options
    lifetime = omega arith

    parsed :
        (text : Text)
        → text ≢ []
        → json.parse text ≡ some target
        → (q : Page b) → read_cookie b cookie_impersonation_target q ≡ returned (some text)
        → read_impersonation_target b json q ≡ returned (target_of (some target))
    unfolding read_impersonation_target
    parsed [] h g q r = absurd (h refl)
    parsed (c ∷ s) h g q r = rw (r, read_impersonation_target) (rw g)

    -- In the browser, with a token that is a text, a target that the JSON codec gives back and a
    -- lifetime of at least a minute: after an impersonation was started its token is read back,
    -- its target is read back as far as it has an id, an email and a name, every cookie of another
    -- name, the admin's own session among them, reads as before, and the banner is told once.
    pub set_impersonation_lem :
        (read_impersonation_token b (set_impersonation b json now token target minutes p)
          ≡ returned (some token))
        × (read_impersonation_target b json (set_impersonation b json now token target minutes p)
            ≡ returned (target_of (some target)))
        × ((k : Text)
            → IsName k
            → k ≢ cookie_impersonation_token
            → k ≢ cookie_impersonation_target
            → read_cookie b k (set_impersonation b json now token target minutes p)
              ≡ read_cookie b k p)
        × ((set_impersonation b json now token target minutes p).events
            ≡ impersonation_event ∷ p.events)
    unfolding set_impersonation read_impersonation_token
    set_impersonation_lem =
        let d : Days = record { numerator = minutes; denominator = 24 * 60 } in
        let text = json.stringify target in
        let q = set_auth_cookie b now cookie_impersonation_token token d p in
        let r = set_auth_cookie b now cookie_impersonation_target text d q in
        let eq = set_auth_cookie-jar b now cookie_impersonation_token p token d e in
        let er = set_auth_cookie-jar b now cookie_impersonation_target q text d eq in
        let same =
          λ (k : Text). read_cookie-jar b k (notify_impersonation_change b r) r (notify-jar b r) in
        (
          same cookie_impersonation_token
              ∙ read_cookie-set_other b now cookie_impersonation_target target-IsName q
                  cookie_impersonation_token text d token-IsName token_ne_target eq storable.scalars
              ∙ read_cookie-set_self b now cookie_impersonation_token token-IsName p token d e
                  scalar lifetime,
          parsed text storable.filled storable.parses (notify_impersonation_change b r) (
              same cookie_impersonation_target
              ∙ read_cookie-set_self b now cookie_impersonation_target target-IsName q text d eq
                  storable.scalars lifetime),
          λ k h n m.
              same k
              ∙ read_cookie-set_other b now cookie_impersonation_target target-IsName q k text d h m
                  eq storable.scalars
              ∙ read_cookie-set_other b now cookie_impersonation_token token-IsName p k token d h n
                  e scalar,
          notify-events b r er
              ∙ ap (λ l. impersonation_event ∷ l)
                  (set_auth_cookie-events b now cookie_impersonation_target text d q
                    ∙ set_auth_cookie-events b now cookie_impersonation_token token d p),
        )
