-- ===== src/Session/Quiet.antt =====
-- Requests that no 401 meets, through both interceptors of frontend/lib/api-client.ts.
use dmtool.Base.{
  ℕ, suc, ◌==◌, ◌≡◌, ◌≢◌, refl, ap, ◌∙◌, Outcome, threw, returned, ==_iff, Bool-cases, inl, inr,
  ◌∷◌, length,
}
use dmtool.Cookie.Store.{CookieStore}
use dmtool.Session.{
  Config, Env, Reply, success, failure, unreachable, Result, Session, send, on_reply, attach,
  request,
}
use dmtool.Session.Steps.{attach-page, attach-refreshes}

-- Whatever is sent, and however often, the answer is not a 401.
abbrev pub IsQuiet : Env → Type 0
IsQuiet env = (n : ℕ) (c : Config) → env.answer n c ≢ failure 401

module _ (b : CookieStore) (env : Env) where
  -- Page, timer and number of refreshes are those of the session before.
  pub record Keeps (s t : Session b) : Type 0 where
    pub page : t.page ≡ s.page
    pub timer : t.timer ≡ s.timer
    pub refreshes : t.refreshes ≡ s.refreshes

  on_reply-Keeps :
      (resend : Config → Session b → Session b × Result) (c : Config) (s : Session b) (r : Reply)
      → r ≢ failure 401
      → Keeps s (on_reply b env resend c s r).0
  on_reply-Keeps resend c s (success body) n = record {
    page = refl;
    timer = refl;
    refreshes = refl;
  }
  on_reply-Keeps resend c s unreachable n = record { page = refl; timer = refl; refreshes = refl }
  on_reply-Keeps resend c s (failure status) n = elim (Bool-cases (status == 401)) [
    | inl y ↦ absurd (n (ap failure ((==_iff status 401).0 y)))
    | inr o ↦ rw o (record { page = refl; timer = refl; refreshes = refl })
  ]

  send-Keeps :
      (resend : Config → Session b → Session b × Result) (x : Session b × Outcome Config)
      → IsQuiet env
      → Keeps x.0 (send b env resend x).0
  send-Keeps resend (s, threw) q = record { page = refl; timer = refl; refreshes = refl }
  send-Keeps resend (s, returned c) q =
      let k =
        on_reply-Keeps resend c (record s { sent = c ∷ s.sent }) (env.answer (length s.sent) c)
          (q (length s.sent) c) in
      record { page = k.page; timer = k.timer; refreshes = k.refreshes }

  -- A request that no 401 meets leaves the cookies and asks for no refresh; the timer is that of
  -- the request interceptor.
  pub request-Keeps :
      (fuel : ℕ) (c : Config) (s : Session b)
      → IsQuiet env
      → Keeps (attach b env c s).0 (request b (suc fuel) env c s).0
  unfolding request
  request-Keeps fuel c s q = send-Keeps (request b fuel env) (attach b env c s) q

  pub request-page :
      (fuel : ℕ) (c : Config) (s : Session b)
      → IsQuiet env
      → (request b (suc fuel) env c s).0.page ≡ s.page
  request-page fuel c s q = (request-Keeps fuel c s q).page ∙ attach-page b env c s

  pub request-refreshes :
      (fuel : ℕ) (c : Config) (s : Session b)
      → IsQuiet env
      → (request b (suc fuel) env c s).0.refreshes ≡ s.refreshes
  request-refreshes fuel c s q = (request-Keeps fuel c s q).refreshes ∙ attach-refreshes b env c s
