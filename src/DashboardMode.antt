-- ===== src/DashboardMode.antt =====
-- frontend/components/dashboard/dashboard-mode-context.tsx: the mode of the dashboard, which the
-- page shows, the cookie `dmtool_mode` keeps and the server knows; and the mode that
-- frontend/app/(dashboard)/layout.tsx starts with.
pub mod Agreement
mod Tests
use dmtool.Base.{
  ℕ, Bool, true, false, ◌||◌, List, [], ◌∷◌, Option, none, some, Text, codes, text_eq,
  if◌then◌else◌,
}
use dmtool.Cookie.{
  Mode, search, social, combined, mode_text, cookie_mode, cookie_options, days, Page,
}
use dmtool.Cookie.Store.{CookieStore, SetCookie}
use dmtool.Nav.{same_mode}

-- The three texts that are modes.
unfoldable pub mode_of_text : Text → Option Mode
mode_of_text t =
    if text_eq t (codes "search")
    then some search
    else if text_eq t (codes "social")
    then some social
    else if text_eq t (codes "combined")
    then some combined
    else none

abbrev pub or_combined : Option Mode → Mode
or_combined none = combined
or_combined (some m) = m

abbrev pub bind_mode : Option Text → Option Mode
bind_mode none = none
bind_mode (some t) = mode_of_text t

-- `initialMode` of the layout.
unfoldable pub initial_mode : Option Text → Mode
initial_mode raw = or_combined (bind_mode raw)

-- The answer to GET /auth/me: the `dashboard_mode` in it, if there is one, or a failure.
pub data Me : Type 0 where
  answered : Option Text → Me
  failed : Me

module _ (b : CookieStore) where
  open b use {Jar, assign}

  -- The provider: its cookies, the mode of its first render, which the effect compares with, the
  -- mode it shows, whether the effect has ended or was cancelled, and what it sent to the server.
  pub record Provider : Type 0 where
    pub page : Page b
    pub mounted_mode : Mode
    pub mode : Mode
    pub ready : Bool
    pub cancelled : Bool
    pub patched : List Mode

  unfoldable pub write_cookie_mode : ℕ → Mode → Page b → Page b
  unfolding cookie_options
  write_cookie_mode now value p = elim p.jar [
    | none ↦ p
    | some j ↦
        let cookie : SetCookie = record {
          name = cookie_mode;
          value = mode_text value;
          expires = cookie_options now (days 30);
        } in
        record p { jar = some (assign now cookie j) }
  ]

  abbrev pub show_mode : ℕ → Mode → Provider → Provider
  show_mode now next s = record s { page = write_cookie_mode now next s.page; mode = next }

  -- The PATCH is sent whether or not it will succeed: a failure changes nothing.
  unfoldable pub set_mode : ℕ → Mode → Provider → Provider
  set_mode now next s =
      let shown = show_mode now next s in record shown { patched = next ∷ s.patched }

  abbrev pub server_wins : ℕ → Option Mode → Provider → Provider
  server_wins now none s = s
  server_wins now (some m) s = if same_mode m s.mounted_mode then s else show_mode now m s

  abbrev pub mode_of_answer : Me → Option Mode
  mode_of_answer failed = none
  mode_of_answer (answered raw) = bind_mode raw

  -- The rest of the effect, when the answer lands.
  unfoldable pub me_landed : ℕ → Me → Provider → Provider
  me_landed now me s =
      if s.cancelled then s else record (server_wins now (mode_of_answer me) s) { ready = true }

  unfoldable pub unmount : Provider → Provider
  unmount s = record s { cancelled = true }

  pub data Event : Type 0 where
    chosen : ℕ → Mode → Event
    landed : ℕ → Me → Event
    unmounted : Event

  abbrev pub step : Provider → Event → Provider
  step s (chosen now m) = set_mode now m s
  step s (landed now me) = me_landed now me s
  step s unmounted = unmount s

  unfoldable pub run : Provider → List Event → Provider
  run s [] = s
  run s (e ∷ es) = run (step s e) es
