-- ===== src/Chat/Tests.antt =====
-- Concrete inputs for the chat.
use dmtool.Base.{◌≡◌, refl, List, [], ◌∷◌, codes, threw, trim}
use dmtool.Chat.{opened, Event, typed, sent, answered, run}
use dmtool.Chat.Turns.{Turns, run-Turns}

abbrev events : List Event
events = typed (codes "shoes") ∷ sent (codes "10:00") ∷ answered (codes "10:01") threw ∷ []

run_example :
    Turns
      (run events (opened (codes "09:00"))).loading
      (run events (opened (codes "09:00"))).messages
run_example = run-Turns (codes "09:00") events

-- Without a project nothing is sent.
run_unsent : (run events (opened (codes "09:00"))).input ≡ codes "shoes"
unfolding run opened trim
run_unsent = refl
