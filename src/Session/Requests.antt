-- ===== src/Session/Requests.antt =====
-- Which token a request carries.
use dmtool.Base.{
  ℕ, ◌<◌, ◌≡◌, refl, ap, ◌∙◌, [], ◌∷◌, Option, none, some, Text, All, Outcome, threw, returned,
}
use dmtool.Cookie.{
  Page, read_cookie, cookie_token, cookie_impersonation_token, set_impersonation,
  clear_impersonation, read_impersonation_token,
}
use dmtool.Cookie.Impersonation.{
  set_impersonation_lem, clear_impersonation_lem, set_impersonation-jar, clear_impersonation-jar,
  session_token-IsName, session_ne_token, session_ne_target,
}
use dmtool.Cookie.Store.{CookieStore, JsonCodec, Json, IsStorable}
use dmtool.Session.{
  Config, Env, Session, attach, bearer, start_session_keep_alive, authorize, keep_alive_with,
  schedule, ensure_keep_alive, after_keep_alive, in_browser, stop_session_keep_alive,
}
use dmtool.Session.Token.{access_token_expires_at_ms}
use dmtool.Uri.{IsScalar}

-- The first of the two that is a text and not empty, or else what there was.
abbrev pub chosen : Option Text → Option Text → Option Text → Option Text
chosen (some (x ∷ t)) own before = some (bearer (x ∷ t))
chosen _ (some (y ∷ u)) before = some (bearer (y ∷ u))
chosen _ _ before = before

authorize-chosen :
    (imp own : Option Text) (c : Config)
    → authorize (returned imp) (returned own) c
      ≡ returned (record c { authorization = chosen imp own c.authorization })
authorize-chosen none none c = refl
authorize-chosen none (some []) c = refl
authorize-chosen none (some (y ∷ u)) c = refl
authorize-chosen (some []) none c = refl
authorize-chosen (some []) (some []) c = refl
authorize-chosen (some []) (some (y ∷ u)) c = refl
authorize-chosen (some (x ∷ t)) own c = refl

module _ (b : CookieStore) (env : Env) where
  keep_alive-returned :
      (own : Option Text) (s : Session b)
      → ((keep_alive_with b env (returned own) s).1 ≡ returned tt)
        × ((keep_alive_with b env (returned own) s).0.page ≡ s.page)
  keep_alive-returned none s = (refl, refl)
  keep_alive-returned (some []) s = (refl, refl)
  keep_alive-returned (some (c ∷ t)) s =
      (refl, scheduled_page (access_token_expires_at_ms env.platform (c ∷ t)))
    where
      scheduled_page : (o : Option ℕ) → (schedule b env.now o s).page ≡ s.page
      scheduled_page none = refl
      scheduled_page (some e) = refl

  ensure-returned :
      (o : Option ℕ) (own : Option Text) (s : Session b) {j : b.Jar}
      → s.page.jar ≡ some j
      → read_cookie b cookie_token s.page ≡ returned own
      → ((ensure_keep_alive b env o s).1 ≡ returned tt)
        × ((ensure_keep_alive b env o s).0.page ≡ s.page)
  unfolding start_session_keep_alive stop_session_keep_alive
  ensure-returned (some t) own s e q = (refl, refl)
  ensure-returned none own s e q =
      let stopped : Session b = record s { timer = none } in
      let run : start_session_keep_alive b env s ≡ keep_alive_with b env (returned own) stopped =
        ap
          (λ o.
            in_browser o (s, returned tt)
              (keep_alive_with b env (read_cookie b cookie_token s.page) stopped))
          e
        ∙ ap (λ r. keep_alive_with b env r stopped) q in
      rw run (keep_alive-returned own stopped)

  after-chosen :
      (imp own : Option Text) (c : Config) (p : Page b)
      → read_cookie b cookie_impersonation_token p ≡ returned imp
      → read_cookie b cookie_token p ≡ returned own
      → (x : Session b × Outcome (Unit {0})) → x.1 ≡ returned tt
      → x.0.page ≡ p
      → ((after_keep_alive b x c).1
          ≡ returned (record c { authorization = chosen imp own c.authorization }))
        × ((after_keep_alive b x c).0.page ≡ p)
  after-chosen imp own c p i o (s, threw) e f = cc
  after-chosen imp own c p i o (s, returned _) e f =
      let i' = ap (λ q. read_cookie b cookie_impersonation_token q) f ∙ i in
      let o' = ap (λ q. read_cookie b cookie_token q) f ∙ o in
      (rw (i', o') (authorize-chosen imp own c), f)

module _ (b : CookieStore) (env : Env) (c : Config) (s : Session b) {j : b.Jar}
    (browser : s.page.jar ≡ some j) where
  -- In the browser, when both cookies can be decoded: the interceptor puts the impersonation token
  -- into the Authorization header if there is one, else the session's token if there is one, else
  -- it leaves the header; the rest of the request and the cookies stay.
  pub attach-chosen :
      (imp own : Option Text)
      → read_cookie b cookie_impersonation_token s.page ≡ returned imp
      → read_cookie b cookie_token s.page ≡ returned own
      → ((attach b env c s).1
          ≡ returned (record c { authorization = chosen imp own c.authorization }))
        × ((attach b env c s).0.page ≡ s.page)
  unfolding attach
  attach-chosen imp own p q =
      let (done, page) = ensure-returned b env s.timer own s browser q in
      let run : attach b env c s ≡ after_keep_alive b (ensure_keep_alive b env s.timer s) c =
        ap
          (λ o.
            in_browser o (s, returned c) (after_keep_alive b (ensure_keep_alive b env s.timer s) c))
          browser in
      rw run (after-chosen b env imp own c s.page p q (ensure_keep_alive b env s.timer s) done page)

-- What a page of the browser gives of the two tokens.
pub record Reads (b : CookieStore) (p : Page b) (imp own : Option Text) : Type 0 where
  pub jar : (j : b.Jar) × (p.jar ≡ some j)
  pub impersonation : read_cookie b cookie_impersonation_token p ≡ returned imp
  pub session : read_cookie b cookie_token p ≡ returned own

pub attach-Reads :
    (b : CookieStore) (env : Env) (c : Config) (s : Session b) {p : Page b} {imp own : Option Text}
    → s.page ≡ p
    → Reads b p imp own
    → (attach b env c s).1 ≡ returned (record c { authorization = chosen imp own c.authorization })
attach-Reads b env c s {imp = imp} {own = own} e r =
    (attach-chosen b env c s (ap (λ q. q.jar) e ∙ r.jar.1) imp own
      (ap (read_cookie b cookie_impersonation_token) e ∙ r.impersonation)
      (ap (read_cookie b cookie_token) e ∙ r.session)).0

module _ (b : CookieStore) (env : Env) (json : JsonCodec) (s : Session b) {j : b.Jar}
    (browser : s.page.jar ≡ some j) (x : ℕ) (t : Text) (target : Json) (minutes : ℕ)
    (scalar : All IsScalar (x ∷ t)) (storable : IsStorable json target) (future : 0 < minutes)
    (own : Option Text) (session : read_cookie b cookie_token s.page ≡ returned own) where
  -- What the cookies give once an impersonation has started, and once it was stopped again.
  pub impersonating-Reads :
      let started = set_impersonation b json env.now (x ∷ t) target minutes s.page in
      let stopped = clear_impersonation b env.now started in
      Reads b started (some (x ∷ t)) own × Reads b stopped none own
  impersonating-Reads =
      let p = set_impersonation b json env.now (x ∷ t) target minutes s.page in
      let (k, started) =
        set_impersonation-jar b env.now s.page browser json (x ∷ t) target minutes in
      let set =
        set_impersonation_lem b env.now s.page browser json (x ∷ t) target minutes scalar storable
          future in
      let (l, stopped) = clear_impersonation-jar b env.now p started in
      let clear = clear_impersonation_lem b env.now p started in
      let own1 =
        set.2 cookie_token session_token-IsName session_ne_token session_ne_target ∙ session in
      let own2 =
        clear.2 cookie_token session_token-IsName session_ne_token session_ne_target ∙ own1 in
      (
        record {
          jar = (k, started);
          impersonation = unfold read_impersonation_token in set.0;
          session = own1;
        },
        record { jar = (l, stopped); impersonation = clear.0; session = own2 },
      )
