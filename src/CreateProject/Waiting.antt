-- ===== src/CreateProject/Waiting.antt =====
-- A login that is broken off.
use dmtool.Base.{
  ℕ, ◌≡◌, refl, sym, ap, ◌∙◌, Bool, true, false, ◌||◌, List, [], ◌∷◌, Option, none, some, Text,
  if◌then◌else◌, Outcome, threw, returned, arith,
}
use mathlib.Core.Path.{subst}
use dmtool.CreateProject.{
  CreatePage, idle, asked, submit_with, is_disabled, needs_social_login, handle_submit, on_address,
  on_success_message, on_window_closed, on_posted, address_answered, success_received,
  window_closed, posted, toggle_social, handle_goal_select, Event, submitted, address,
  success_message, closed, back, answered, goal_chosen, social_toggled, name_typed, url_typed,
  handles_typed, step_of, run,
}

-- The page waits, and nothing is under way that could end it.
pub record IsStuck (s : CreatePage) : Type 0 where
  pub loading : s.loading ≡ true
  pub waiting : s.auth_waiting ≡ true
  pub nothing : s.flow ≡ idle

on_address-idle :
    (reply : Outcome (Option Text)) (s : CreatePage) → s.flow ≡ idle → on_address reply s ≡ s
unfolding on_address
on_address-idle threw s e = ap (λ f. address_answered threw f s) e
on_address-idle (returned none) s e = ap (λ f. address_answered (returned none) f s) e
on_address-idle (returned (some u)) s e = ap (λ f. address_answered (returned (some u)) f s) e

on_posted-idle :
    (reply : Outcome (Unit {0})) (s : CreatePage) → s.flow ≡ idle → on_posted reply s ≡ s
unfolding on_posted
on_posted-idle threw s e = ap (λ f. posted threw f s) e
on_posted-idle (returned u) s e = ap (λ f. posted (returned u) f s) e

step-IsStuck : (s : CreatePage) (e : Event) → IsStuck s → IsStuck (step_of s e)
unfolding handle_submit on_address on_success_message on_window_closed on_posted toggle_social
    handle_goal_select
step-IsStuck s (submitted w) i = ground arith
step-IsStuck s (address reply) i = subst IsStuck (sym (on_address-idle reply s i.nothing)) i
step-IsStuck s success_message i = subst IsStuck (sym (ap (λ f. success_received f s) i.nothing)) i
step-IsStuck s closed i = subst IsStuck (sym (ap (λ f. window_closed f s) i.nothing)) i
step-IsStuck s back i = ground arith
step-IsStuck s (answered reply) i = subst IsStuck (sym (on_posted-idle reply s i.nothing)) i
step-IsStuck s (goal_chosen g) i = ground arith
step-IsStuck s (social_toggled p) i = ground arith
step-IsStuck s (name_typed t) i = ground arith
step-IsStuck s (url_typed t) i = ground arith
step-IsStuck s (handles_typed h) i = ground arith

IsStuck-disabled : (s : CreatePage) → IsStuck s → is_disabled s ≡ true
IsStuck-disabled s i = ap (λ l. l || (s.success || s.auth_waiting)) i.loading

run-IsStuck : (es : List Event) (s : CreatePage) → IsStuck s → IsStuck (run s es)
unfolding run
run-IsStuck [] s i = i
run-IsStuck (e ∷ es) s i = run-IsStuck es (step_of s e) (step-IsStuck s e i)

pub login_started :
    (s : CreatePage) (w : Bool)
    → is_disabled s ≡ false
    → needs_social_login s.goal s.active_socials ≡ true
    → handle_submit w s ≡ asked w s
unfolding handle_submit
login_started s w d n =
    ap (λ x. submit_with x (needs_social_login s.goal s.active_socials) w s) d
    ∙ ap (λ x. submit_with false x w s) n

else-IsStuck : (b : Bool) (x y : CreatePage) → b ≡ false → IsStuck y → IsStuck (if b then x else y)
else-IsStuck true x y e i = cc
else-IsStuck false x y e i = i

not_waiting : (s : CreatePage) → is_disabled s ≡ false → s.auth_waiting ≡ false
not_waiting s d = ground (arith, d)

module _ (s : CreatePage) (ready : is_disabled s ≡ false)
    (login : needs_social_login s.goal s.active_socials ≡ true) where
  closed-IsStuck :
      (x : ℕ) (t : Text)
      → IsStuck (on_window_closed (on_address (returned (some (x ∷ t))) (handle_submit true s)))
  unfolding on_window_closed on_address
  closed-IsStuck x t =
      subst (λ p. IsStuck (on_window_closed (on_address (returned (some (x ∷ t))) p)))
        (sym (login_started s true ready login))
        (else-IsStuck s.auth_waiting _ _ (not_waiting s ready)
          (record { loading = refl; waiting = refl; nothing = refl }))

  blocked-IsStuck : (o : Option Text) → IsStuck (on_address (returned o) (handle_submit false s))
  unfolding on_address
  blocked-IsStuck none =
      subst (λ p. IsStuck (on_address (returned none) p)) (sym (login_started s false ready login))
        (record { loading = refl; waiting = refl; nothing = refl })
  blocked-IsStuck (some u) =
      subst (λ p. IsStuck (on_address (returned (some u)) p))
        (sym (login_started s false ready login))
        (record { loading = refl; waiting = refl; nothing = refl })

  -- A submit that needs a login to a network, when the user closes the window before the login
  -- succeeds, or the browser lets no window open: whatever happens afterwards, the button stays
  -- disabled.
  pub closed_window_blocks :
      (x : ℕ) (t : Text) (o : Option Text) (es : List Event)
      → (is_disabled (
            run (on_window_closed (on_address (returned (some (x ∷ t))) (handle_submit true s))) es)
          ≡ true)
        × (is_disabled (run (on_address (returned o) (handle_submit false s)) es) ≡ true)
  closed_window_blocks x t o es =
      let a = run-IsStuck es _ (closed-IsStuck x t) in
      let b = run-IsStuck es _ (blocked-IsStuck o) in (IsStuck-disabled _ a, IsStuck-disabled _ b)
