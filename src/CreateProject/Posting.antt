-- ===== src/CreateProject/Posting.antt =====
-- How many projects a sequence of events asks the API for, and with what body.
use mathlib.Core.Path.{subst}
use dmtool.Base.{
  ℕ, ◌+◌, ◌≤◌, ◌≡◌, refl, sym, ap, ◌∙◌, Bool, true, false, List, [], ◌∷◌, Option, none, some, Text,
  length, Outcome, threw, returned, arith, All,
}
use dmtool.CreateProject.{
  CreatePage, Flow, idle, asking, listening, posting, asked, submit_with, is_disabled,
  needs_social_login, body_of, OnboardBody, opened, handle_submit, on_address, on_success_message,
  on_window_closed, on_posted, address_answered, success_received, window_closed, posted,
  toggle_social, handle_goal_select, Event, submitted, address, success_message, closed, back,
  answered, goal_chosen, social_toggled, name_typed, url_typed, handles_typed, step_of, run,
}
use dmtool.CreateProject.Waiting.{login_started}

abbrev pending : Flow → ℕ
pending idle = 0
pending (asking w body was) = 1
pending (listening body was) = 1
pending posting = 0

-- What was posted, and what may still be.
abbrev weight : CreatePage → ℕ
weight s = length s.posts + pending s.flow

abbrev submits : Event → ℕ
submits (submitted w) = 1
submits _ = 0

unfoldable pub count_submits : List Event → ℕ
count_submits [] = 0
count_submits (e ∷ es) = submits e + count_submits es

submit-weight : (d n w : Bool) (s : CreatePage) → weight (submit_with d n w s) ≤ weight s + 1
submit-weight true n w s = omega arith
submit-weight false true w s = omega arith
submit-weight false false w s = omega arith

address-weight :
    (reply : Outcome (Option Text)) (f : Flow) (s : CreatePage)
    → s.flow ≡ f
    → weight (address_answered reply f s) ≤ weight s
address-weight threw idle s e = omega arith
address-weight threw posting s e = omega arith
address-weight threw (listening body was) s e = omega arith
address-weight threw (asking w body was) s e = omega arith
address-weight (returned none) idle s e = omega arith
address-weight (returned none) posting s e = omega arith
address-weight (returned none) (listening body was) s e = omega arith
address-weight (returned none) (asking true body was) s e = omega arith
address-weight (returned none) (asking false body was) s e = omega arith
address-weight (returned (some u)) idle s e = omega arith
address-weight (returned (some u)) posting s e = omega arith
address-weight (returned (some u)) (listening body was) s e = omega arith
address-weight (returned (some u)) (asking false body was) s e = omega arith
address-weight (returned (some [])) (asking true body was) s e = omega arith
address-weight (returned (some (x ∷ u))) (asking true body was) s e = omega (arith, ap pending e)

message-weight : (f : Flow) (s : CreatePage) → s.flow ≡ f → weight (success_received f s) ≤ weight s
message-weight idle s e = omega arith
message-weight posting s e = omega arith
message-weight (asking w body was) s e = omega arith
message-weight (listening body was) s e = omega (arith, ap pending e)

closed-weight : (f : Flow) (s : CreatePage) → weight (window_closed f s) ≤ weight s
closed-weight idle s = omega arith
closed-weight posting s = omega arith
closed-weight (asking w body was) s = omega arith
closed-weight (listening body true) s = omega arith
closed-weight (listening body false) s = omega arith

posted-weight :
    (reply : Outcome (Unit {0})) (f : Flow) (s : CreatePage) → weight (posted reply f s) ≤ weight s
posted-weight threw idle s = omega arith
posted-weight threw posting s = omega arith
posted-weight threw (asking w body was) s = omega arith
posted-weight threw (listening body was) s = omega arith
posted-weight (returned x) idle s = omega arith
posted-weight (returned x) posting s = omega arith
posted-weight (returned x) (asking w body was) s = omega arith
posted-weight (returned x) (listening body was) s = omega arith

step-weight : (s : CreatePage) (e : Event) → weight (step_of s e) ≤ weight s + submits e
unfolding handle_submit on_address on_success_message on_window_closed on_posted toggle_social
    handle_goal_select
step-weight s (submitted w) =
    submit-weight (is_disabled s) (needs_social_login s.goal s.active_socials) w s
step-weight s (address reply) = omega (arith, address-weight reply s.flow s refl)
step-weight s success_message = omega (arith, message-weight s.flow s refl)
step-weight s closed = omega (arith, closed-weight s.flow s)
step-weight s back = omega arith
step-weight s (answered reply) = omega (arith, posted-weight reply s.flow s)
step-weight s (goal_chosen g) = omega arith
step-weight s (social_toggled p) = omega arith
step-weight s (name_typed t) = omega arith
step-weight s (url_typed t) = omega arith
step-weight s (handles_typed h) = omega arith

run-weight : (es : List Event) (s : CreatePage) → weight (run s es) ≤ weight s + count_submits es
unfolding run count_submits
run-weight [] s = omega arith
run-weight (e ∷ es) s = omega (arith, run-weight es (step_of s e), step-weight s e)

-- Whatever happens, in whatever order, the page asks for at most as many projects as it was
-- submitted.
pub posts_bounded : (es : List Event) → length (run opened es).posts ≤ count_submits es
posts_bounded es = omega (arith, run-weight es opened)

-- Events that only change the form.
abbrev pub IsEdit : Event → Type 0
IsEdit (goal_chosen g) = Unit {0}
IsEdit (social_toggled p) = Unit {0}
IsEdit (name_typed t) = Unit {0}
IsEdit (url_typed t) = Unit {0}
IsEdit (handles_typed h) = Unit {0}
IsEdit back = Unit {0}
IsEdit _ = ⊥

-- The form waits for the message, with this body.
record IsListening (body : OnboardBody) (before : List OnboardBody) (s : CreatePage) : Type 0 where
  was : Bool
  flow : s.flow ≡ listening body was
  posts : s.posts ≡ before

edit-IsListening :
    (body : OnboardBody) (before : List OnboardBody) (e : Event) (s : CreatePage)
    → IsEdit e
    → IsListening body before s
    → IsListening body before (step_of s e)
unfolding toggle_social handle_goal_select
edit-IsListening body before (goal_chosen g) s k i = record {
  was = i.was;
  flow = i.flow;
  posts = i.posts;
}
edit-IsListening body before (social_toggled p) s k i = record {
  was = i.was;
  flow = i.flow;
  posts = i.posts;
}
edit-IsListening body before (name_typed t) s k i = record {
  was = i.was;
  flow = i.flow;
  posts = i.posts;
}
edit-IsListening body before (url_typed t) s k i = record {
  was = i.was;
  flow = i.flow;
  posts = i.posts;
}
edit-IsListening body before (handles_typed h) s k i = record {
  was = i.was;
  flow = i.flow;
  posts = i.posts;
}
edit-IsListening body before back s k i = record { was = i.was; flow = i.flow; posts = i.posts }
edit-IsListening body before (submitted w) s k i = elim k [ ]
edit-IsListening body before (address reply) s k i = elim k [ ]
edit-IsListening body before success_message s k i = elim k [ ]
edit-IsListening body before closed s k i = elim k [ ]
edit-IsListening body before (answered reply) s k i = elim k [ ]

edits-IsListening :
    (body : OnboardBody) (before : List OnboardBody) (es : List Event) (s : CreatePage)
    → All IsEdit es
    → IsListening body before s
    → IsListening body before (run s es)
unfolding run
edits-IsListening body before [] s k i = i
edits-IsListening body before (e ∷ es) s (k, ks) i =
    edits-IsListening body before es (step_of s e) ks (edit-IsListening body before e s k i)

message-posts :
    (body : OnboardBody) (before : List OnboardBody) (s : CreatePage)
    → IsListening body before s
    → ((on_success_message s).posts ≡ body ∷ before) × ((on_success_message s).auth_waiting ≡ false)
unfolding on_success_message
message-posts body before s i =
    let e : success_received s.flow s ≡ success_received (listening body i.was) s =
      ap (λ f. success_received f s) i.flow in
    (ap (λ p. p.posts) e ∙ ap (λ ps. body ∷ ps) i.posts, ap (λ p. p.auth_waiting) e)

started :
    (s : CreatePage) (x : ℕ) (t : Text)
    → IsListening (body_of s) s.posts (on_address (returned (some (x ∷ t))) (asked true s))
unfolding on_address
started s x t = record { was = s.auth_waiting; flow = refl; posts = refl }

-- A form that can be submitted. Without a login the submit posts it at once. With one nothing is
-- posted before the message of success, and then the form as it was submitted, also when it was
-- changed while the page waited.
pub submit_posts :
    (s : CreatePage) (w : Bool) (x : ℕ) (t : Text) (es : List Event)
    → is_disabled s ≡ false
    → All IsEdit es
    → (needs_social_login s.goal s.active_socials ≡ false
        → (handle_submit w s).posts ≡ body_of s ∷ s.posts)
      × (needs_social_login s.goal s.active_socials ≡ true
          → let waiting = run (on_address (returned (some (x ∷ t))) (handle_submit true s)) es in
            (waiting.posts ≡ s.posts)
            × ((on_success_message waiting).posts ≡ body_of s ∷ s.posts)
            × ((on_success_message waiting).auth_waiting ≡ false))
unfolding handle_submit
submit_posts s w x t es d k = (
  λ n.
      ap (λ p. p.posts)
        (ap (λ b. submit_with b (needs_social_login s.goal s.active_socials) w s) d
          ∙ ap (λ b. submit_with false b w s) n),
  λ n.
      let i = edits-IsListening (body_of s) s.posts es _ k (
        subst (λ p. IsListening (body_of s) s.posts (on_address (returned (some (x ∷ t))) p))
          (sym (login_started s true d n)) (started s x t)) in
      let m = message-posts (body_of s) s.posts _ i in (i.posts, m.0, m.1),
)
