-- ===== src/Onboarding.antt =====
-- frontend/app/(auth)/onboarding/page.tsx: the four steps from the choice of a goal to the first
-- dashboard. The answers of the API, the message and the closing of the login window are events.
pub mod Repeated
pub mod Finish
mod Tests
use dmtool.Base.{
  ℕ, zero, suc, Bool, true, false, not, ◌&&◌, ◌||◌, List, [], ◌∷◌, ◌++◌, Option, none, some, Text,
  codes, text_eq, is_empty, if◌then◌else◌, Outcome, threw, returned,
}
use dmtool.Api.{show}
use dmtool.Cookie.{Mode, search, social, combined, Page, set_mode}
use dmtool.Cookie.Store.{CookieStore}
use dmtool.CreateProject.{Handles, needs_social_login}
use dmtool.Roles.{includes}

pub data OnboardingStep : Type 0 where
  choosing filling analyzing finished : OnboardingStep

-- The body of POST /onboard, with the goal that decides on the mode.
pub record Body : Type 0 where
  pub url : Text
  pub goal : Text
  pub ig_handle : Text
  pub twitter_handle : Text
  pub linkedin_handle : Text
  pub facebook_handle : Text

abbrev pub mode_of_goal : Text → Mode
mode_of_goal goal =
    if text_eq goal (codes "seo")
    then search
    else if text_eq goal (codes "social")
    then social
    else combined

-- A url, or the made-up one of a project without a site, for a random number.
abbrev pub url_or_random : Text → ℕ → Text
url_or_random [] random = codes "https://social-project-" ++ (show random ++ codes ".com")
url_or_random (c ∷ u) random = c ∷ u

-- What `window.open` gives: nothing, a window that shows no page of another origin, or the window
-- of that name which has gone on to one.
pub data Window : Type 0 where
  blocked writable foreign : Window

abbrev pub take_at {ℓ} : {A : Type ℓ} → ℕ → List A → Option (A × List A)
take_at i [] = none
take_at zero (x ∷ xs) = some (x, xs)
take_at (suc i) (x ∷ xs) = elim (take_at i xs) [ none ↦ none | some (y, ys) ↦ some (y, x ∷ ys) ]

module _ (b : CookieStore) where
  -- The page; the handlers that wait for the address of the provider (with whether their window
  -- opened) and those that wait for the message, with what they closed over; the requests that
  -- wait for an answer, the answered ones that wait for the last step, and all that was posted.
  pub record Onboarding : Type 0 where
    pub page : Page b
    pub step : OnboardingStep
    pub goal : Text
    pub url : Text
    pub handles : Handles
    pub active_socials : List Text
    pub error : Text
    pub asking : List (Bool × Body)
    pub listening : List Body
    pub posting : List Body
    pub finishing : ℕ
    pub posts : List Body

  unfoldable pub handle_goal_select : Text → Onboarding → Onboarding
  handle_goal_select g s = record s { goal = g; step = filling }

  unfoldable pub toggle_social : Text → Onboarding → Onboarding
  toggle_social platform s = record s {
    active_socials = if includes platform s.active_socials then [] else platform ∷ [];
  }

  -- `executeOnboarding` up to the answer of the API.
  abbrev pub execute_onboarding : Body → Onboarding → Onboarding
  execute_onboarding body s = record s {
    step = analyzing;
    posting = body ∷ s.posting;
    posts = body ∷ s.posts;
  }

  abbrev pub body_of : ℕ → Onboarding → Body
  body_of random s = record {
    url = url_or_random s.url random;
    goal = s.goal;
    ig_handle = s.handles.instagram;
    twitter_handle = s.handles.twitter;
    linkedin_handle = s.handles.linkedin;
    facebook_handle = s.handles.facebook;
  }

  -- `loginWindow.document.write` throws on a window of another origin, outside the `try`: the
  -- handler ends there.
  abbrev pub ask_with : Window → Body → Onboarding → Onboarding
  ask_with blocked body s = record s { asking = (false, body) ∷ s.asking }
  ask_with writable body s = record s { asking = (true, body) ∷ s.asking }
  ask_with foreign body s = s

  abbrev pub analyze_with : Bool → Window → Body → Onboarding → Onboarding
  analyze_with needs_login window body s =
      if needs_login then ask_with window body s else execute_onboarding body s

  -- `handleAnalyze` up to the request for the address; nothing keeps it from running again.
  unfoldable pub handle_analyze : Window → ℕ → Onboarding → Onboarding
  handle_analyze window random s =
      analyze_with (needs_social_login s.goal s.active_socials) window (body_of random s) s

  abbrev pub address_answered : Outcome (Option Text) → Bool × Body → Onboarding → Onboarding
  address_answered threw waiting s = record s {
    error = codes "Failed to initialize authentication. Please try again.";
  }
  address_answered (returned none) waiting s = s
  address_answered (returned (some u)) (opens, body) s =
      if not (is_empty u) && opens then record s { listening = body ∷ s.listening } else s

  abbrev pub answer_taken :
      Outcome (Option Text) → Option ((Bool × Body) × List (Bool × Body)) → Onboarding → Onboarding
  answer_taken reply none s = s
  answer_taken reply (some (waiting, rest)) s =
      address_answered reply waiting (record s { asking = rest })

  -- The answer to one of the handlers that wait for an address.
  unfoldable pub on_address : ℕ → Outcome (Option Text) → Onboarding → Onboarding
  on_address i reply s = answer_taken reply (take_at i s.asking) s

  abbrev pub execute_all : List Body → Onboarding → Onboarding
  execute_all [] s = s
  execute_all (body ∷ bodies) s = execute_all bodies (execute_onboarding body s)

  -- The message OAUTH_SUCCESS runs every handler that listens.
  unfoldable pub on_success_message : Onboarding → Onboarding
  on_success_message s = execute_all s.listening (record s { listening = [] })

  abbrev pub cancelled : List Body → Onboarding → Onboarding
  cancelled [] s = s
  cancelled (body ∷ bodies) s = record s {
    listening = [];
    error = codes "Authorization was cancelled. Please try again.";
  }

  -- The window is one for all handlers; the step that they closed over is the second.
  unfoldable pub on_window_closed : Onboarding → Onboarding
  on_window_closed s = cancelled s.listening s

  -- `errorMessage || …` of a failure.
  abbrev pub message_of : Option Text → Text
  message_of none = codes "Analysis failed. Please check your inputs."
  message_of (some []) = codes "Analysis failed. Please check your inputs."
  message_of (some (c ∷ t)) = c ∷ t

  pub data Posted : Type 0 where
    created : Posted
    refused : Option Text → Posted

  abbrev pub settled : ℕ → Posted → Option (Body × List Body) → Onboarding → Onboarding
  settled now reply none s = s
  settled now created (some (body, rest)) s = record s {
    posting = rest;
    page = set_mode b now (mode_of_goal body.goal) s.page;
    finishing = suc s.finishing;
  }
  settled now (refused message) (some (body, rest)) s = record s {
    posting = rest;
    error = message_of message;
    step = filling;
  }

  -- The answer to one of the requests; that the server is told of the mode changes nothing here.
  unfoldable pub on_posted : ℕ → ℕ → Posted → Onboarding → Onboarding
  on_posted now i reply s = settled now reply (take_at i s.posting) s

  abbrev pub advance : ℕ → Onboarding → Onboarding
  advance zero s = s
  advance (suc n) s = record s { finishing = n; step = finished }

  -- `setTimeout(() => setStep(4), 6000)`.
  unfoldable pub on_timer : Onboarding → Onboarding
  on_timer s = advance s.finishing s

  -- The button of the last step, before the window moves on.
  unfoldable pub enter_dashboard : ℕ → Onboarding → Onboarding
  enter_dashboard now s = record s { page = set_mode b now (mode_of_goal s.goal) s.page }
