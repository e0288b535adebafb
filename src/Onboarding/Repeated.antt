-- ===== src/Onboarding/Repeated.antt =====
-- A form that is submitted again before the login has its address.
use dmtool.Base.{
  ℕ, zero, suc, Bool, ◌≡◌, ap, ◌∙◌, true, List, [], ◌∷◌, ◌++◌, some, Text, returned, length, ◌+◌,
  arith, replicate, replicate-snoc, refl,
}
use dmtool.Cookie.Store.{CookieStore}
use dmtool.CreateProject.{needs_social_login}
use dmtool.Onboarding.{
  Onboarding, Body, writable, handle_analyze, on_address, on_success_message, execute_all,
  execute_onboarding, analyze_with, body_of,
}

module _ (b : CookieStore) where
  -- Submits of the form, while the window of the login shows no page of another origin.
  unfoldable pub submit_times : ℕ → ℕ → Onboarding b → Onboarding b
  submit_times zero random s = s
  submit_times (suc n) random s = submit_times n random (handle_analyze b writable random s)

  -- The addresses of the provider arrive one after another; none is empty.
  unfoldable pub answer_all : List (ℕ × Text) → Onboarding b → Onboarding b
  answer_all [] s = s
  answer_all ((x, t) ∷ us) s = answer_all us (on_address b 0 (returned (some (x ∷ t))) s)

  submit_times-asking :
      (n random : ℕ) (s : Onboarding b)
      → needs_social_login s.goal s.active_socials ≡ true
      → submit_times n random s
        ≡ record s { asking = replicate n (true, body_of b random s) ++ s.asking }
  unfolding submit_times handle_analyze
  submit_times-asking zero random s e = refl
  submit_times-asking (suc n) random s e =
      let w : Bool × Body = (true, body_of b random s) in
      ap (λ g. submit_times n random (analyze_with b g writable (body_of b random s) s)) e
      ∙ submit_times-asking n random (record s { asking = w ∷ s.asking }) e
      ∙ ap (λ ws. record s { asking = ws }) (replicate-snoc n w s.asking)

  execute_all-posts :
      (bodies : List Body) (s : Onboarding b)
      → length (execute_all b bodies s).posts ≡ length bodies + length s.posts
  execute_all-posts [] s = omega arith
  execute_all-posts (body ∷ bodies) s =
      omega (arith, execute_all-posts bodies (execute_onboarding b body s))

  -- Each of the addresses finds one more of the handlers that wait, which then listens.
  answer_all-posts :
      (us : List (ℕ × Text)) (body : Body) (s : Onboarding b)
      → length
          (on_success_message b (
            answer_all us
              (record s { asking = replicate (length us) (true, body) ++ s.asking }))).posts
        ≡ length us + (length s.listening + length s.posts)
  unfolding answer_all on_address on_success_message
  answer_all-posts [] body s =
      omega (arith, execute_all-posts s.listening (record s { listening = [] }))
  answer_all-posts ((x, t) ∷ us) body s =
      omega (arith, answer_all-posts us body (record s { listening = body ∷ s.listening }))

  -- A login that is needed, and a form that is submitted n times before the provider's addresses
  -- arrive, as they then all do: the one message of success asks the API for n projects.
  pub submit_times-posts :
      (us : List (ℕ × Text)) (random : ℕ) (s : Onboarding b)
      → needs_social_login s.goal s.active_socials ≡ true
      → s.listening ≡ []
      → length (on_success_message b (answer_all us (submit_times (length us) random s))).posts
        ≡ length us + length s.posts
  submit_times-posts us random s e l =
      ap (λ p. length (on_success_message b (answer_all us p)).posts)
        (submit_times-asking (length us) random s e)
      ∙ answer_all-posts us (body_of b random s) s
      ∙ omega (arith, ap length l)
