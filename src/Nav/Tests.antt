-- ===== src/Nav/Tests.antt =====
-- The sidebars at concrete inputs.
use dmtool.Base.{
  ◌≡◌, refl, true, false, not, ◌&&◌, ◌||◌, any, List, [], ◌∷◌, Text, codes, text_eq, strip_prefix,
  split, returned, some, if◌then◌else◌, arith, ◌<◌,
}
use dmtool.Cookie.{search, social, combined, cookie_options, days, set_user}
use dmtool.Cookie.Store.{Json, JsonCodec, str, obj, field, end}
use dmtool.Samples.{browser, blank}
use dmtool.Nav.{
  nav_groups, visible_groups, same_mode, lists_mode, admits, toggle_groups, initial_open,
  get_user_role, role_of, is_active,
}
use dmtool.Nav.Visible.{
  visible_groups_lem, toggle_groups_lem, combined_shows_all, clicked_odd, get_user_role-set_user,
}

keywords_open : initial_open nav_groups (codes "AI Engine") ≡ false
unfolding nav_groups text_eq
keywords_open = refl

seo_projects_active : is_active (codes "/admin/projects") (codes "/admin/projects?goal=seo") ≡ true
unfolding is_active text_eq strip_prefix split
seo_projects_active = refl

visible_groups_example :
    any
      (λ g.
        text_eq g.title (codes "SEO Intelligence")
        && any (λ i. text_eq i.href (codes "/seo/keywords")) g.items)
      (visible_groups same_mode search nav_groups)
    ≡ any
        (λ g.
          lists_mode same_mode search g.modes
          && (text_eq g.title (codes "SEO Intelligence")
              && any
                  (λ i.
                    admits same_mode search i.mode_extras && text_eq i.href (codes "/seo/keywords"))
                  g.items))
        nav_groups
visible_groups_example =
    visible_groups_lem same_mode search (λ t. text_eq t (codes "SEO Intelligence"))
      (λ i. text_eq i.href (codes "/seo/keywords")) nav_groups

abbrev clicks : List Text
clicks = codes "Account" ∷ codes "AI Engine" ∷ codes "Account" ∷ []

toggle_groups_example : toggle_groups clicks (initial_open nav_groups) (codes "Account") ≡ (
    if clicked_odd (codes "Account") clicks
    then not (initial_open nav_groups (codes "Account"))
    else initial_open nav_groups (codes "Account"))
toggle_groups_example = toggle_groups_lem clicks (initial_open nav_groups) (codes "Account")

abbrev admin : Json
admin = obj (field (codes "role") (str (codes "admin")) end)

abbrev one_user : JsonCodec
one_user = record { parse = λ t. some admin; stringify = λ v. codes "{}" }

month_ahead : 5 < cookie_options 5 (days 30)
unfolding cookie_options
month_ahead = omega arith

get_user_role_example :
    get_user_role browser one_user (set_user browser one_user 5 admin blank)
    ≡ returned (role_of (some admin))
get_user_role_example =
    get_user_role-set_user browser one_user 5 admin blank refl
      (record { parses = refl; scalars = omega arith; filled = λ e. cc }) month_ahead

combined_shows_all_example :
    any
      (λ g. any (λ i. text_eq i.href (codes "/seo/keywords")) g.items)
      (visible_groups same_mode combined nav_groups)
    ≡ (any
          (λ g. any (λ i. text_eq i.href (codes "/seo/keywords")) g.items)
          (visible_groups same_mode search nav_groups)
        || any
            (λ g. any (λ i. text_eq i.href (codes "/seo/keywords")) g.items)
            (visible_groups same_mode social nav_groups))
combined_shows_all_example = combined_shows_all (λ i. text_eq i.href (codes "/seo/keywords"))
