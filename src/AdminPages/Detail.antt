-- ===== src/AdminPages/Detail.antt =====
-- frontend/app/(dashboard)/admin/projects/[id]/page.tsx. The number of the address is none where the
-- address names no number.
use dmtool.Base.{
  ℕ, Bool, true, false, ◌||◌, List, [], Option, none, some, Text, codes, text_eq, if◌then◌else◌,
  Outcome, threw, returned,
}
use dmtool.AdminPages.{Color, emerald, blue, amber, red, slate}

pub data Tab : Type 0 where
  overview seo social : Tab

-- What the answers hold: `P` the project with its owner, `S` the figures of the search engines, `M`
-- those of the networks, `I` the insights, `Q` the issues and keywords, `H` the history, `V` the metrics.
pub record Kinds : Type 1 where
  pub P : Type 0
  pub S : Type 0
  pub M : Type 0
  pub I : Type 0
  pub Q : Type 0
  pub H : Type 0
  pub V : Type 0

module _ (k : Kinds) where
  pub record Detail : Type 0 where
    pub project : Option k.P
    pub seo_data : Option k.S
    pub social_data : Option k.M
    pub insights : List k.I
    pub issues_and_keywords : Option k.Q
    pub social_history : List k.H
    pub metrics : List k.V
    pub loading : Bool
    pub active_tab : Tab

  pub record Overview : Type 0 where
    pub project : k.P
    pub seo : Option k.S
    pub social : Option k.M
    pub insights : List k.I

  -- The answers, in whatever order they come, and the clicks on the tabs.
  pub data Event : Type 0 where
    overview_answered : Outcome Overview → Event
    seo_answered : Outcome k.Q → Event
    social_answered : Outcome (Option k.M × List k.H) → Event
    metrics_answered : Outcome (List k.V) → Event
    both_answered : Event
    tab_chosen : Tab → Event

  unfoldable pub handle : Event → Detail → Detail
  handle (overview_answered threw) d = d
  handle (overview_answered (returned o)) d = record d {
    project = some o.project;
    seo_data = o.seo;
    social_data = o.social;
    insights = o.insights;
  }
  handle (seo_answered threw) d = d
  handle (seo_answered (returned q)) d = record d { issues_and_keywords = some q }
  handle (social_answered threw) d = d
  handle (social_answered (returned (latest, history))) d = record d {
    social_data = latest;
    social_history = history;
  }
  handle (metrics_answered threw) d = d
  handle (metrics_answered (returned ms)) d = record d { metrics = ms }
  handle both_answered d = record d { loading = false }
  handle (tab_chosen t) d = record d { active_tab = t }

  abbrev pub opening : Detail
  opening = record {
    project = none;
    seo_data = none;
    social_data = none;
    insights = [];
    issues_and_keywords = none;
    social_history = [];
    metrics = [];
    loading = true;
    active_tab = overview;
  }

  -- Which reads a number of the address starts, and which a tab does.
  abbrev pub starts_reads : Option ℕ → Bool
  starts_reads none = false
  starts_reads (some i) = true

  abbrev pub is_missing : Option k.P → Bool
  is_missing none = true
  is_missing (some p) = false

  -- Whether the page says that it loads.
  unfoldable pub says_loading : Detail → Bool
  says_loading d = d.loading || is_missing d.project

unfoldable pub goal_label : Text → Text
goal_label g =
    if text_eq g (codes "seo")
    then codes "SEO"
    else if text_eq g (codes "social")
    then codes "Social"
    else if text_eq g (codes "both")
    then codes "SEO + Social"
    else g

unfoldable pub health_color : Text → Color
health_color h =
    if text_eq h (codes "healthy")
    then emerald
    else if text_eq h (codes "issues")
    then amber
    else if text_eq h (codes "scanning")
    then blue
    else slate

unfoldable pub severity_color : Text → Color
severity_color s =
    if text_eq s (codes "high") then red else if text_eq s (codes "medium") then amber else slate
