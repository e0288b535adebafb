-- ===== src/AdminUser/Impersonating.antt =====
-- An impersonation from the page of a user to the banner, and what requests carry meanwhile.
use dmtool.Base.{
  ℕ, ◌<◌, ◌≡◌, refl, ap, ◌∙◌, true, false, ◌∷◌, Option, none, some, Text, All, Outcome, threw,
  returned,
}
use dmtool.Cookie.{read_cookie, cookie_token, set_impersonation, clear_impersonation}
use dmtool.Cookie.Store.{CookieStore, JsonCodec, Json, IsStorable}
use dmtool.Session.{Config, Env, Session, attach, bearer}
use dmtool.Session.Quiet.{IsQuiet, request-page}
use dmtool.Session.Requests.{chosen, attach-Reads, impersonating-Reads}
use dmtool.Uri.{IsScalar}
use dmtool.AdminUser.{
  Details, UserPage, Banner, Started, ask, to, impersonate_url, user_url, stop_url, started,
  handle_impersonate, stop,
}

module _ (b : CookieStore) (env : Env) (quiet : IsQuiet env) where
  ask-page {ℓ} :
      {A : Type ℓ} (read : Text → Outcome A) (url : Text) (s : Session b)
      → (ask b env read url s).0.page ≡ s.page
  unfolding ask
  ask-page read url s = request-page b env 2 (to url) s quiet

  module _ {S E V : Type 0} (json : JsonCodec) (read_started : Text → Outcome Started)
      (read_details : Text → Outcome (Details S E)) (id : ℕ) where
    started-page :
        (r : Started) (s t : Session b) (u : UserPage S E V)
        → t.page ≡ s.page
        → (started b env json read_started read_details id (t, returned r) u).0.page
          ≡ set_impersonation b json env.now r.token r.target r.expires_in_minutes s.page
    started-page r s t u e =
        ask-page read_details (user_url id) _
        ∙ ap (set_impersonation b json env.now r.token r.target r.expires_in_minutes) e

    handle_impersonate-page :
        (r : Started) (s : Session b) (u : UserPage S E V)
        → (ask b env read_started (impersonate_url id) s).1 ≡ returned r
        → (handle_impersonate b env json read_started read_details id true (s, u)).0.page
          ≡ set_impersonation b json env.now r.token r.target r.expires_in_minutes s.page
    unfolding handle_impersonate
    handle_impersonate-page r s u e =
        ap
          (λ o.
            (started b env json read_started read_details id
              ((ask b env read_started (impersonate_url id) s).0, o)
              (record u { busy = true })).0.page)
          e
        ∙ started-page r s (ask b env read_started (impersonate_url id) s).0
            (record u { busy = true }) (ask-page read_started (impersonate_url id) s)

    refused-page :
        (s : Session b) (u : UserPage S E V)
        → (ask b env read_started (impersonate_url id) s).1 ≡ threw
        → (handle_impersonate b env json read_started read_details id true (s, u)).0.page ≡ s.page
    unfolding handle_impersonate
    refused-page s u e =
        ap
          (λ o.
            (started b env json read_started read_details id
              ((ask b env read_started (impersonate_url id) s).0, o)
              (record u { busy = true })).0.page)
          e
        ∙ ask-page read_started (impersonate_url id) s

  stop-page :
      (id : ℕ) (s : Session b) (v : Banner)
      → (stop b env id (s, v)).0.page ≡ clear_impersonation b env.now s.page
  unfolding stop
  stop-page id s v =
      ap (clear_impersonation b env.now) (request-page b env 2 (to (stop_url id)) s quiet)

-- In the browser, where no call is answered by a 401, for a token that is a text and not empty, a
-- target that the JSON codec gives back and a lifetime of at least a minute: once an administrator
-- has confirmed an impersonation and the API has started it, requests carry its token; once the
-- banner has stopped it, they carry the administrator's own, the banner is gone and the page of the
-- user is free, whatever else the API answers to the end of the impersonation and to the read of
-- the user. One that is not confirmed changes nothing.
pub impersonate-stop :
    (b : CookieStore) (env : Env) (json : JsonCodec) (c : Config) (s : Session b) {j : b.Jar}
    → s.page.jar ≡ some j
    → (x : ℕ) (t : Text) (target : Json) (minutes : ℕ) → All IsScalar (x ∷ t)
    → IsStorable json target
    → 0 < minutes
    → (own : Option Text) → read_cookie b cookie_token s.page ≡ returned own
    → IsQuiet env
    → {S E V : Type 0} (read_started : Text → Outcome Started)
    → (read_details : Text → Outcome (Details S E)) (id : ℕ)
    → (ask b env read_started (impersonate_url id) s).1
      ≡ returned (record { token = x ∷ t; target = target; expires_in_minutes = minutes })
    → (u : UserPage S E V) (v : Banner)
    → (let begun = handle_impersonate b env json read_started read_details id true (s, u) in
        let over = stop b env id (begun.0, v) in
        ((attach b env c begun.0).1 ≡ returned (record c { authorization = some (bearer (x ∷ t)) }))
        × ((attach b env c over.0).1
            ≡ returned (record c { authorization = chosen none own c.authorization }))
        × (begun.1.busy ≡ false)
        × (over.1.target ≡ none)
        × (handle_impersonate b env json read_started read_details id false (s, u) ≡ (s, u)))
unfolding handle_impersonate stop
impersonate-stop b env json c s browser x t target minutes scalar storable future own session quiet
      read_started read_details id grant u v =
    let r : Started = record { token = x ∷ t; target = target; expires_in_minutes = minutes } in
    let begun = handle_impersonate b env json read_started read_details id true (s, u) in
    let on_page =
      handle_impersonate-page b env quiet json read_started read_details id r s u grant in
    let off_page =
      stop-page b env quiet id begun.0 v ∙ ap (clear_impersonation b env.now) on_page in
    let (on, off) =
      impersonating-Reads b env json s browser x t target minutes scalar storable future own
        session in
    (
      attach-Reads b env c begun.0 on_page on,
      attach-Reads b env c (stop b env id (begun.0, v)).0 off_page off,
      refl,
      refl,
      refl,
    )
