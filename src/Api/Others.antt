-- ===== src/Api/Others.antt =====
-- `projectsApi`, `socialApi` and `seoApi` of frontend/lib/api-client.ts, beside the calls of
-- `dashboardApi` that do the same.
use dmtool.Base.{ℕ, ◌≡◌, refl, sym, ap, ◌++◌, append-nil, Option, none, Text, codes}
use dmtool.Cookie.Store.{Json, obj, field, end, num, str}
use dmtool.Uri.{encode_uri_component}
use dmtool.Api.{
  Request, call, call_with, api_client, get, post, patch, put, delete, show, text_param,
  encoded_param, text_or_empty, number_param, DashboardCall, dashboard_request, get_social_insights,
  refresh_social, get_social_history, get_public_profile, run_seo_audit, get_seo_audit,
  get_seo_issues, get_keywords, generate_keywords, get_seo_report, resolve_issue,
}

pub data ProjectsCall : Type 0 where
  list : ProjectsCall
  create : Json → ProjectsCall
  update : ℕ → Json → ProjectsCall
  remove : ℕ → ProjectsCall
  onboard_project : Json → ProjectsCall

unfoldable pub projects_request : ProjectsCall → Request
projects_request list = call api_client get (codes "/projects")
projects_request (create d) = call_with api_client post (codes "/projects") d
projects_request (update i d) = call_with api_client patch (codes "/projects/" ++ show i) d
projects_request (remove i) = call api_client delete (codes "/projects/" ++ show i)
projects_request (onboard_project d) = call_with api_client post (codes "/onboard") d

pub data SocialCall : Type 0 where
  get_insights refresh_insights get_history : ℕ → SocialCall
  get_profile : Text → Text → SocialCall

unfoldable pub social_request : SocialCall → Request
social_request (get_insights p) =
    call api_client get (codes "/social/insights?project_id=" ++ show p)
social_request (refresh_insights p) =
    call api_client post (codes "/social/insights/refresh?project_id=" ++ show p)
social_request (get_history p) = call api_client get (codes "/social/history?project_id=" ++ show p)
social_request (get_profile handle platform) = call api_client get (
    codes "/social/profile?handle="
    ++ (encode_uri_component handle ++ (codes "&platform=" ++ platform)))

pub data SeoCall : Type 0 where
  run_audit : ℕ → Option Text → SeoCall
  get_status : ℕ → SeoCall
  get_issues : ℕ → Option Text → SeoCall
  find_keywords : ℕ → Option Text → SeoCall
  new_keywords : ℕ → Text → SeoCall
  get_report : ℕ → SeoCall
  resolve : ℕ → ℕ → SeoCall

abbrev pub keywords_body : ℕ → Text → Json
keywords_body p seed =
    obj (field (codes "project_id") (num p) (field (codes "seed") (str seed) end))

unfoldable pub seo_request : SeoCall → Request
seo_request (run_audit p u) =
    call_with api_client post (codes "/seo/audit/run")
      (obj (field (codes "project_id") (num p) (field (codes "url") (str (text_or_empty u)) end)))
seo_request (get_status p) = call api_client get (codes "/seo/audit?project_id=" ++ show p)
seo_request (get_issues p s) =
    call api_client get (codes "/seo/issues?project_id=" ++ show p ++ text_param "&severity=" s)
seo_request (find_keywords p s) =
    call api_client get (codes "/seo/keywords?project_id=" ++ show p ++ encoded_param "&seed=" s)
seo_request (new_keywords p seed) =
    call_with api_client post (codes "/seo/keywords") (keywords_body p seed)
seo_request (get_report p) = call api_client get (codes "/seo/report?project_id=" ++ show p)
seo_request (resolve i p) =
    call api_client put (codes "/seo/issues/" ++ show i ++ codes "?project_id=" ++ show p)

-- The call of `dashboardApi` that corresponds.
abbrev pub seo_as_dashboard : SeoCall → DashboardCall
seo_as_dashboard (run_audit p u) = run_seo_audit p u
seo_as_dashboard (get_status p) = get_seo_audit p
seo_as_dashboard (get_issues p s) = get_seo_issues p s
seo_as_dashboard (find_keywords p s) = get_keywords p s
seo_as_dashboard (new_keywords p seed) = generate_keywords (keywords_body p seed)
seo_as_dashboard (get_report p) = get_seo_report p
seo_as_dashboard (resolve i p) = resolve_issue i p

abbrev pub social_as_dashboard : SocialCall → DashboardCall
social_as_dashboard (get_insights p) = get_social_insights p
social_as_dashboard (refresh_insights p) = refresh_social p
social_as_dashboard (get_history p) = get_social_history p
social_as_dashboard (get_profile handle platform) = get_public_profile handle platform none

-- `seoApi` sends what `dashboardApi` sends for the call of the same meaning.
pub seo_request-dashboard : (c : SeoCall) → seo_request c ≡ dashboard_request (seo_as_dashboard c)
unfolding seo_request dashboard_request
seo_request-dashboard (run_audit p u) = refl
seo_request-dashboard (get_status p) = refl
seo_request-dashboard (get_issues p s) = refl
seo_request-dashboard (find_keywords p s) = refl
seo_request-dashboard (new_keywords p seed) = refl
seo_request-dashboard (get_report p) = refl
seo_request-dashboard (resolve i p) = refl

append_nothing : (s : Text) → s ++ number_param "&project_id=" none ≡ s
append_nothing s = append-nil s

-- `socialApi` sends what `dashboardApi` sends for the call of the same meaning, a look-up of a
-- profile without a project included.
pub social_request-dashboard :
    (c : SocialCall) → social_request c ≡ dashboard_request (social_as_dashboard c)
unfolding social_request dashboard_request
social_request-dashboard (get_insights p) = refl
social_request-dashboard (refresh_insights p) = refl
social_request-dashboard (get_history p) = refl
social_request-dashboard (get_profile handle platform) =
    ap
      (λ t. call api_client get (
        codes "/social/profile?handle="
        ++ (encode_uri_component handle ++ (codes "&platform=" ++ t))))
      (sym (append_nothing platform))
