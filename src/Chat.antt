-- ===== src/Chat.antt =====
-- frontend/app/(dashboard)/ai/chat/page.tsx: the chat that drafts captions, as a machine of events.
-- A time is a parameter of each event; the sources of the texts are left out.
pub mod Turns
mod Tests
use dmtool.Base.{
  ℕ, Bool, true, false, not, ◌&&◌, ◌||◌, List, [], ◌∷◌, ◌++◌, Option, none, some, Text, codes,
  is_empty, trim, ◌==◌, if◌then◌else◌, Outcome, threw, returned,
}
use dmtool.Api.{show}
use dmtool.Projects.{LocalStorage, Project, project_key, default_project, saved_id}

pub data Role : Type 0 where
  user bot : Role

pub record Message : Type 0 where
  pub role : Role
  pub text : Text
  pub time : Text

pub record ChatPage : Type 0 where
  pub project : Option Project
  pub ready : Bool
  pub messages : List Message
  pub input : Text
  pub loading : Bool

abbrev pub welcome : Text → Message
welcome time = record {
  role = bot;
  text =
      codes
        "Drafts a caption from your topic. Not a strategy assistant. Type a topic and I’ll return one caption variant.";
  time = time;
}

unfoldable pub opened : Text → ChatPage
opened time = record {
  project = none;
  ready = false;
  messages = welcome time ∷ [];
  input = [];
  loading = false;
}

-- `!!project?.id`.
abbrev pub has_project : Option Project → Bool
has_project none = false
has_project (some p) = not (p.id == 0)

unfoldable pub can_send : ChatPage → Bool
can_send s = s.ready && has_project s.project && not (is_empty (trim s.input)) && not s.loading

-- What a send asks of the API.
pub record Ask : Type 0 where
  pub project_id : ℕ
  pub topic : Text

-- The user's message is shown, the input is empty, and the page waits.
abbrev pub asked : Text → ChatPage → ChatPage
asked time s = record s {
  messages = s.messages ++ record { role = user; text = s.input; time = time } ∷ [];
  input = [];
  loading = true;
}

abbrev pub send_to : Option Project → Text → ChatPage → Option Ask × ChatPage
send_to none time s = (none, s)
send_to (some p) time s =
    if p.id == 0
    then (none, s)
    else (some (record { project_id = p.id; topic = s.input }), asked time s)

-- `handleSend`, up to the call.
unfoldable pub handle_send : Text → ChatPage → Option Ask × ChatPage
handle_send time s =
    if is_empty (trim s.input) || s.loading then (none, s) else send_to s.project time s

abbrev pub response_text : Outcome (List Text) → Text
response_text threw = codes "Caption generation failed. Check that you have a project selected."
response_text (returned []) =
    codes "No caption was returned. Try the Content Generator for more variants."
response_text (returned (variant ∷ rest)) = variant

-- The rest of it, for the variants that the API returns.
unfoldable pub on_answer : Text → Outcome (List Text) → ChatPage → ChatPage
on_answer time reply s = record s {
  messages = s.messages ++ record { role = bot; text = response_text reply; time = time } ∷ [];
  loading = false;
}

abbrev pub set_input : Text → ChatPage → ChatPage
set_input t s = record s { input = t }

-- The project is chosen when the page opens, by the storage that the other pages write.
module _ (store : LocalStorage) where
  abbrev pub written :
      Project → Outcome store.State → store.State × ChatPage → store.State × ChatPage
  written p threw w = w
  written p (returned t) (s, w) = (t, record w { project = some p })

  abbrev pub choose_project :
      Outcome (List Project) → store.State × ChatPage → store.State × ChatPage
  choose_project threw w = w
  choose_project (returned []) w = w
  choose_project (returned (p ∷ ps)) (s, w) =
      let q = default_project (saved_id (store.get_item project_key s)) p ps in
      if q.id == 0 then (s, w) else written q (store.set_item project_key (show q.id) s) (s, w)

  abbrev pub set_ready : store.State × ChatPage → store.State × ChatPage
  set_ready (s, w) = (s, record w { ready = true })

  unfoldable pub load_project :
      Outcome (List Project) → store.State × ChatPage → store.State × ChatPage
  unfolding default_project
  load_project reply w = set_ready (choose_project reply w)

-- What happens on the page; an answer comes while one is awaited.
pub data Event : Type 0 where
  typed : Text → Event
  sent : Text → Event
  answered : Text → Outcome (List Text) → Event

unfoldable pub step : Event → ChatPage → ChatPage
unfolding handle_send on_answer
step (typed t) s = set_input t s
step (sent time) s = (handle_send time s).1
step (answered time reply) s = if s.loading then on_answer time reply s else s

unfoldable pub run : List Event → ChatPage → ChatPage
unfolding step
run [] s = s
run (e ∷ es) s = run es (step e s)
