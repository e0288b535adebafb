-- ===== src/CreateProject.antt =====
-- frontend/app/(dashboard)/projects/create/page.tsx: the form of a new project, with the login to a
-- social network in a window of its own. What happens outside the page are events: the answers of
-- the API, the message of the window, its closing.
pub mod Waiting
pub mod Posting
mod Tests
use dmtool.Base.{
  ℕ, suc, Bool, true, false, not, ◌&&◌, ◌||◌, List, [], ◌∷◌, ◌++◌, filter, any, Option, none, some,
  Text, codes, text_eq, is_empty, strip_prefix, if◌then◌else◌, Outcome, threw, returned,
}
use dmtool.Cookie.Store.{is_some}
use dmtool.Roles.{includes}

pub record Handles : Type 0 where
  pub instagram : Text
  pub twitter : Text
  pub linkedin : Text
  pub facebook : Text

pub data Step : Type 0 where
  goal details : Step

-- The body of POST /onboard.
pub record OnboardBody : Type 0 where
  pub name : Text
  pub goal : Text
  pub url : Text
  pub ig_handle : Text
  pub twitter_handle : Text
  pub fb_handle : Text
  pub linkedin_handle : Text

-- What a submit has under way, with what its handler closed over: the body, and the value of
-- `authWaiting`. The first field of `asking` says whether the window could be opened.
pub data Flow : Type 0 where
  idle : Flow
  asking : Bool → OnboardBody → Bool → Flow
  listening : OnboardBody → Bool → Flow
  posting : Flow

pub record CreatePage : Type 0 where
  pub step : Step
  pub name : Text
  pub url : Text
  pub goal : Text
  pub loading : Bool
  pub auth_waiting : Bool
  pub success : Bool
  pub active_socials : List Text
  pub handles : Handles
  pub flow : Flow
  pub posts : List OnboardBody

-- The page when it opens.
abbrev pub opened : CreatePage
opened = record {
  step = Step.goal;
  name = [];
  url = [];
  goal = [];
  loading = false;
  auth_waiting = false;
  success = false;
  active_socials = [];
  handles = record { instagram = []; twitter = []; linkedin = []; facebook = [] };
  flow = idle;
  posts = [];
}

-- One network at most is chosen.
unfoldable pub toggle_social : Text → CreatePage → CreatePage
toggle_social platform s = record s {
  active_socials = if includes platform s.active_socials then [] else platform ∷ [];
}

unfoldable pub handle_goal_select : Text → CreatePage → CreatePage
handle_goal_select g s = record s { goal = g; step = details }

abbrev pub starts_with_http : Text → Bool
starts_with_http u = is_some (strip_prefix (codes "http") u)

unfoldable pub format_url : Text → Text
format_url u = if not (is_empty u) && not (starts_with_http u) then codes "https://" ++ u else u

abbrev pub needs_social_login : Text → List Text → Bool
needs_social_login g socials =
    (text_eq g (codes "social") || text_eq g (codes "both"))
    && (includes (codes "facebook") socials
        || (includes (codes "instagram") socials || includes (codes "linkedin") socials))

abbrev pub body_of : CreatePage → OnboardBody
body_of s = record {
  name = s.name;
  goal = if is_empty s.goal then codes "seo" else s.goal;
  url = format_url s.url;
  ig_handle = s.handles.instagram;
  twitter_handle = s.handles.twitter;
  fb_handle = if includes (codes "facebook") s.active_socials then codes "auto" else [];
  linkedin_handle = s.handles.linkedin;
}

-- Up to the answer of the API.
abbrev pub execute_project_creation : OnboardBody → CreatePage → CreatePage
execute_project_creation body s = record s {
  loading = true;
  flow = posting;
  posts = body ∷ s.posts;
}

-- The button, and with it the form, is disabled.
abbrev pub is_disabled : CreatePage → Bool
is_disabled s = s.loading || (s.success || s.auth_waiting)

-- The page that waits for the provider's address.
abbrev pub asked : Bool → CreatePage → CreatePage
asked window_opens s = record s {
  loading = true;
  auth_waiting = true;
  flow = asking window_opens (body_of s) s.auth_waiting;
}

abbrev pub submit_with : (disabled needs_login window_opens : Bool) → CreatePage → CreatePage
submit_with disabled needs_login window_opens s =
    if disabled
    then s
    else if needs_login
    then asked window_opens s
    else execute_project_creation (body_of s) s

-- `handleSubmit` up to the request for the provider's address; `window_opens` is what
-- `window.open` gives.
unfoldable pub handle_submit : Bool → CreatePage → CreatePage
unfolding format_url
handle_submit window_opens s =
    submit_with (is_disabled s) (needs_social_login s.goal s.active_socials) window_opens s

abbrev pub give_up : CreatePage → CreatePage
give_up s = record s { auth_waiting = false; loading = false; flow = idle }

-- What follows the answer with the address; a handler that is left with neither an address nor a
-- window does nothing more.
abbrev pub address_answered : Outcome (Option Text) → Flow → CreatePage → CreatePage
address_answered threw (asking w body was_waiting) s = give_up s
address_answered (returned none) (asking true body was_waiting) s = give_up s
address_answered (returned none) (asking false body was_waiting) s = record s { flow = idle }
address_answered (returned (some u)) (asking true body was_waiting) s =
    if is_empty u then give_up s else record s { flow = listening body was_waiting }
address_answered (returned (some u)) (asking false body was_waiting) s = record s { flow = idle }
address_answered reply other s = s

unfoldable pub on_address : Outcome (Option Text) → CreatePage → CreatePage
on_address reply s = address_answered reply s.flow s

-- `messageHandler`, for a message of the type OAUTH_SUCCESS.
abbrev pub success_received : Flow → CreatePage → CreatePage
success_received (listening body was_waiting) s =
    execute_project_creation body (record s { auth_waiting = false })
success_received other s = s

unfoldable pub on_success_message : CreatePage → CreatePage
on_success_message s = success_received s.flow s

-- `checkWindowTimer`, when the window was closed.
abbrev pub window_closed : Flow → CreatePage → CreatePage
window_closed (listening body was_waiting) s =
    if was_waiting
    then record s { auth_waiting = false; loading = false; flow = idle }
    else record s { flow = idle }
window_closed other s = s

unfoldable pub on_window_closed : CreatePage → CreatePage
on_window_closed s = window_closed s.flow s

abbrev pub posted : Outcome (Unit {0}) → Flow → CreatePage → CreatePage
posted threw posting s = record s { loading = false; flow = idle }
posted (returned _) posting s = record s { success = true; flow = idle }
posted reply other s = s

unfoldable pub on_posted : Outcome (Unit {0}) → CreatePage → CreatePage
on_posted reply s = posted reply s.flow s

pub data Event : Type 0 where
  submitted : Bool → Event
  address : Outcome (Option Text) → Event
  success_message closed back : Event
  answered : Outcome (Unit {0}) → Event
  goal_chosen social_toggled name_typed url_typed : Text → Event
  handles_typed : Handles → Event

abbrev pub step_of : CreatePage → Event → CreatePage
step_of s (submitted w) = handle_submit w s
step_of s (address reply) = on_address reply s
step_of s success_message = on_success_message s
step_of s closed = on_window_closed s
step_of s back = record s { step = Step.goal }
step_of s (answered reply) = on_posted reply s
step_of s (goal_chosen g) = handle_goal_select g s
step_of s (social_toggled p) = toggle_social p s
step_of s (name_typed t) = record s { name = t }
step_of s (url_typed t) = record s { url = t }
step_of s (handles_typed h) = record s { handles = h }

unfoldable pub run : CreatePage → List Event → CreatePage
run s [] = s
run s (e ∷ es) = run (step_of s e) es
