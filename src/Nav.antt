-- ===== src/Nav.antt =====
-- The navigation of the sidebars: frontend/components/dashboard/sidebar.tsx, and the groups of
-- frontend/components/admin/admin-sidebar.tsx with its admin-mode-context.tsx.
pub mod Visible
mod Tests
use dmtool.Base.{
  Bool, true, false, not, ◌&&◌, ◌||◌, List, [], ◌∷◌, map, Option, none, some, Text, codes, text_eq,
  strip_prefix, split, any, filter, is_empty, if◌then◌else◌, Outcome, threw, returned,
}
use dmtool.Cookie.{Mode, search, social, combined, Page, read_cookie, cookie_user}
use dmtool.Cookie.Store.{CookieStore, JsonCodec, Json, str, obj, get_field, is_some}

pub data AdminMode : Type 0 where
  overview seo social_health : AdminMode

abbrev pub same_mode : Mode → Mode → Bool
same_mode search search = true
same_mode social social = true
same_mode combined combined = true
same_mode _ _ = false

abbrev pub same_admin_mode : AdminMode → AdminMode → Bool
same_admin_mode overview overview = true
same_admin_mode seo seo = true
same_admin_mode social_health social_health = true
same_admin_mode _ _ = false

-- A link and a group of links, in the modes that show them.
pub record NavItem (M : Type 0) : Type 0 where
  pub name : Text
  pub href : Text
  pub mode_extras : Option (List M)

pub record NavGroup (M : Type 0) : Type 0 where
  pub title : Text
  pub modes : List M
  pub default_open : Bool
  pub items : List (NavItem M)

abbrev pub has_items {ℓ} : {A : Type ℓ} → List A → Bool
has_items [] = false
has_items (_ ∷ _) = true

module _ {M : Type 0} (same : M → M → Bool) (mode : M) where
  -- `modes.includes(mode)`.
  abbrev pub lists_mode : List M → Bool
  lists_mode ms = any (same mode) ms

  abbrev pub admits : Option (List M) → Bool
  admits none = true
  admits (some ms) = lists_mode ms

  abbrev pub narrow : NavGroup M → NavGroup M
  narrow g = record g { items = filter (λ i. admits i.mode_extras) g.items }

  unfoldable pub visible_groups : List (NavGroup M) → List (NavGroup M)
  visible_groups gs =
      filter (λ g. has_items g.items) (map narrow (filter (λ g. lists_mode g.modes) gs))

-- Which groups are open; a title that the record lacks is `undefined`, as good as closed.
abbrev pub initial_open : {M : Type 0} → List (NavGroup M) → Text → Bool
initial_open [] t = false
initial_open (g ∷ gs) t =
    if any (λ h. text_eq t h.title) gs
    then initial_open gs t
    else if text_eq t g.title
    then g.default_open
    else false

unfoldable pub toggle_group : Text → (Text → Bool) → Text → Bool
toggle_group title open_groups t = if text_eq t title then not (open_groups t) else open_groups t

unfoldable pub toggle_groups : List Text → (Text → Bool) → Text → Bool
toggle_groups [] open_groups t = open_groups t
toggle_groups (c ∷ cs) open_groups t = toggle_groups cs (toggle_group c open_groups) t

abbrev link : {M : Type 0} → Text → Text → NavItem M
link name href = record { name = name; href = href; mode_extras = none }

abbrev all_modes : List Mode
all_modes = search ∷ social ∷ combined ∷ []

abbrev search_or_combined : List Mode
search_or_combined = search ∷ combined ∷ []

abbrev social_or_combined : List Mode
social_or_combined = social ∷ combined ∷ []

abbrev pub dashboard_group : NavGroup Mode
dashboard_group = record {
  title = codes "Dashboard";
  modes = all_modes;
  default_open = true;
  items = link (codes "Overview") (codes "/dashboard") ∷ [];
}

abbrev pub seo_group : NavGroup Mode
seo_group = record {
  title = codes "SEO Intelligence";
  modes = search_or_combined;
  default_open = true;
  items =
      link (codes "Site Explorer") (codes "/seo/site-explorer")
      ∷ link (codes "Keyword Research") (codes "/seo/keywords")
      ∷ link (codes "Rank Tracking") (codes "/seo/rank-tracking")
      ∷ [];
}

abbrev pub social_group : NavGroup Mode
social_group = record {
  title = codes "Social Media";
  modes = social_or_combined;
  default_open = true;
  items =
      link (codes "Profile Analyzer") (codes "/social/profile-analyzer")
      ∷ link (codes "Content Analytics") (codes "/social/insights")
      ∷ link (codes "Growth Tracking") (codes "/social/growth")
      ∷ [];
}

abbrev pub ai_group : NavGroup Mode
ai_group = record {
  title = codes "AI Engine";
  modes = all_modes;
  default_open = false;
  items =
      link (codes "AI Chat Assistant") (codes "/ai/chat")
      ∷ link (codes "Content Generator") (codes "/ai/content")
      ∷ [];
}

abbrev pub account_group : NavGroup Mode
account_group = record {
  title = codes "Account";
  modes = all_modes;
  default_open = false;
  items =
      link (codes "All Projects") (codes "/projects")
      ∷ link (codes "Create Project") (codes "/projects/create")
      ∷ link (codes "Project Settings") (codes "/projects/settings")
      ∷ link (codes "Billing") (codes "/billing")
      ∷ link (codes "Integrations") (codes "/integrations")
      ∷ [];
}

unfoldable pub nav_groups : List (NavGroup Mode)
nav_groups = dashboard_group ∷ seo_group ∷ social_group ∷ ai_group ∷ account_group ∷ []

abbrev every_tab : List AdminMode
every_tab = overview ∷ seo ∷ social_health ∷ []

unfoldable pub admin_nav_groups : List (NavGroup AdminMode)
admin_nav_groups =
    record {
      title = codes "Platform";
      modes = every_tab;
      default_open = true;
      items =
          link (codes "Platform Overview") (codes "/admin")
          ∷ link (codes "User Management") (codes "/admin/users")
          ∷ link (codes "Roles") (codes "/admin/roles")
          ∷ link (codes "All Projects") (codes "/admin/projects")
          ∷ [];
    }
    ∷ record {
      title = codes "SEO Health";
      modes = overview ∷ seo ∷ [];
      default_open = false;
      items =
          link (codes "SEO Overview") (codes "/admin/seo-health")
          ∷ link (codes "SEO Projects") (codes "/admin/projects?goal=seo")
          ∷ [];
    }
    ∷ record {
      title = codes "Social Health";
      modes = overview ∷ social_health ∷ [];
      default_open = false;
      items =
          link (codes "Social Overview") (codes "/admin/social-health")
          ∷ link (codes "Social Projects") (codes "/admin/projects?goal=social")
          ∷ [];
    }
    ∷ record {
      title = codes "Finance";
      modes = overview ∷ [];
      default_open = false;
      items =
          link (codes "Plans") (codes "/admin/plans")
          ∷ link (codes "Revenue") (codes "/admin/revenue")
          ∷ [];
    }
    ∷ record {
      title = codes "System";
      modes = every_tab;
      default_open = false;
      items =
          link (codes "Audit Log") (codes "/admin/audit-log")
          ∷ link (codes "System Health") (codes "/admin/system")
          ∷ link (codes "Integrations") (codes "/admin/integrations")
          ∷ [];
    }
    ∷ []

abbrev first : List Text → Text
first [] = []
first (w ∷ ws) = w

-- The link of the page that is shown, in the sidebar of the administration.
unfoldable pub is_active : Text → Text → Bool
is_active pathname href =
    if text_eq href (codes "/admin")
    then text_eq pathname (codes "/admin")
    else is_some (strip_prefix (first (split 63 href)) pathname)

-- `user?.role ?? null` of what the cookie holds.
abbrev pub role_of : Option Json → Option Json
role_of (some (obj fs)) = get_field (codes "role") fs
role_of _ = none

module _ (b : CookieStore) (json : JsonCodec) where
  abbrev pub role_from : Outcome (Option Text) → Outcome (Option Json)
  role_from threw = threw
  role_from (returned none) = returned none
  role_from (returned (some raw)) =
      if is_empty raw then returned none else returned (role_of (json.parse raw))

  unfoldable pub get_user_role : Page b → Outcome (Option Json)
  get_user_role p = role_from (read_cookie b cookie_user p)

abbrev pub is_admin_role : Outcome (Option Json) → Bool
is_admin_role (returned (some (str t))) = text_eq t (codes "admin")
is_admin_role _ = false
