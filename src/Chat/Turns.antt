-- ===== src/Chat/Turns.antt =====
-- The messages of a chat alternate, and a question waits for its answer.
use dmtool.Base.{
  ◌≡◌, refl, sym, Bool, true, false, ◌||◌, List, [], ◌∷◌, ◌++◌, Option, none, some, Text, is_empty,
  trim, Outcome, arith, Bool-cases, inl, inr, ◌==◌, if◌then◌else◌,
}
use mathlib.Core.Path.{subst}
use dmtool.Projects.{Project}
use dmtool.Chat.{
  user, bot, Message, ChatPage, opened, send_to, handle_send, on_answer, Event, typed, sent,
  answered, step, run,
}

-- The turns of a chat: a bot's message, then a question and its answer, any number of times. The
-- flag says that the last question has no answer yet.
pub data Turns : Bool → List Message → Type 0 where
  start : (m : Message) → m.role ≡ bot → Turns false (m ∷ [])
  ask :
      {ms : List Message} (m : Message) → m.role ≡ user → Turns false ms → Turns true (ms ++ m ∷ [])
  reply :
      {ms : List Message} (m : Message) → m.role ≡ bot → Turns true ms → Turns false (ms ++ m ∷ [])

abbrev pub InTurn : ChatPage → Type 0
InTurn s = Turns s.loading s.messages

send_to-InTurn :
    (p : Option Project) (time : Text) (s : ChatPage)
    → s.loading ≡ false
    → InTurn s
    → InTurn (send_to p time s).1
send_to-InTurn none time s l h = h
send_to-InTurn (some p) time s l h = elim (Bool-cases (p.id == 0)) [
  | inl y ↦ rw y h
  | inr n ↦ rw n (ask _ refl (subst (λ b. Turns b s.messages) l h))
]

handle_send-InTurn : (time : Text) (s : ChatPage) → InTurn s → InTurn (handle_send time s).1
unfolding handle_send
handle_send-InTurn time s h = elim (Bool-cases (is_empty (trim s.input) || s.loading)) [
  | inl y ↦ rw y h
  | inr n ↦ rw n (send_to-InTurn s.project time s (ground (arith, n)) h)
]

on_answer-InTurn :
    (time : Text) (r : Outcome (List Text)) (s : ChatPage)
    → s.loading ≡ true
    → InTurn s
    → InTurn (on_answer time r s)
unfolding on_answer
on_answer-InTurn time r s l h = reply _ refl (subst (λ b. Turns b s.messages) l h)

step-InTurn : (e : Event) (s : ChatPage) → InTurn s → InTurn (step e s)
unfolding step
step-InTurn (typed t) s h = h
step-InTurn (sent time) s h = handle_send-InTurn time s h
step-InTurn (answered time r) s h = elim (Bool-cases s.loading) [
  | inl y ↦
      subst (λ b. InTurn (if b then on_answer time r s else s)) (sym y)
        (on_answer-InTurn time r s y h)
  | inr n ↦ subst (λ b. InTurn (if b then on_answer time r s else s)) (sym n) h
]

run-InTurn : (es : List Event) (s : ChatPage) → InTurn s → InTurn (run es s)
unfolding run
run-InTurn [] s h = h
run-InTurn (e ∷ es) s h = run-InTurn es (step e s) (step-InTurn e s h)

-- Whatever is typed, sent and answered since the page was opened, its messages are a bot's welcome
-- and then questions and answers in turn, and the page waits exactly while the last question has no
-- answer.
pub run-Turns :
    (time : Text) (es : List Event)
    → Turns (run es (opened time)).loading (run es (opened time)).messages
unfolding opened
run-Turns time es = run-InTurn es (opened time) (start _ refl)
