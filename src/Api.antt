-- ===== src/Api.antt =====
-- The endpoints of frontend/lib/api-client.ts: which client sends which method to which address.
pub mod Others
pub mod Query
mod Tests
use Prim.Native.String.{String}
use dmtool.Base.{
  ℕ, zero, suc, ◌+◌, ◌/◌, ◌%◌, List, [], ◌∷◌, ◌++◌, Option, none, some, Text, codes, is_empty, ltb,
  ◌==◌, if◌then◌else◌,
}
use dmtool.Cookie.Store.{Json, obj, field, end, num, str}
use dmtool.Uri.{encode_uri_component}

-- `authClient` has no interceptors, `apiClient` has the session's, `axios` itself sends no token.
pub data Client : Type 0 where
  auth_client api_client bare_axios : Client

pub data Method : Type 0 where
  get post patch put delete : Method

pub record Request : Type 0 where
  pub client : Client
  pub method : Method
  pub url : Text
  pub body : Option Json

abbrev pub call : Client → Method → Text → Request
call c m u = record { client = c; method = m; url = u; body = none }

abbrev pub call_with : Client → Method → Text → Json → Request
call_with c m u b = record { client = c; method = m; url = u; body = some b }

-- A number in a template string: its decimal digits, with one round of fuel for each.
unfoldable pub digits : ℕ → ℕ → Text → Text
digits zero n rest = rest
digits (suc fuel) n rest =
    let more = digits fuel (n / 10) ((48 + n % 10) ∷ rest) in
    if ltb n 10 then (48 + n) ∷ rest else more

unfoldable pub show : ℕ → Text
unfolding digits
show n = digits (suc n) n []

-- `${x ? `&name=${x}` : ""}`, for a number, a text, and a text that is encoded.
abbrev pub number_param : String → Option ℕ → Text
number_param name none = []
number_param name (some n) = if n == 0 then [] else codes name ++ show n

abbrev pub text_param : String → Option Text → Text
text_param name none = []
text_param name (some t) = if is_empty t then [] else codes name ++ t

abbrev pub encoded_param : String → Option Text → Text
encoded_param name none = []
encoded_param name (some t) = if is_empty t then [] else codes name ++ encode_uri_component t

abbrev pub text_or_empty : Option Text → Text
text_or_empty none = []
text_or_empty (some t) = t

-- `authApi`.
pub data AuthCall : Type 0 where
  register : Json → AuthCall
  login : Json → AuthCall
  refresh : AuthCall
  me : AuthCall
  update_me : Json → AuthCall
  logout : AuthCall

unfoldable pub auth_request : AuthCall → Request
auth_request (register payload) = call_with auth_client post (codes "/auth/register") (payload)
auth_request (login payload) = call_with auth_client post (codes "/auth/login") (payload)
auth_request refresh = call auth_client post (codes "/auth/refresh")
auth_request me = call api_client get (codes "/auth/me")
auth_request (update_me payload) = call_with api_client patch (codes "/auth/me") (payload)
auth_request logout = call auth_client post (codes "/auth/logout")

-- `dashboardApi`.
pub data DashboardCall : Type 0 where
  get_projects : DashboardCall
  onboard : Json → DashboardCall
  delete_project : ℕ → DashboardCall
  update_project : ℕ → Json → DashboardCall
  get_snapshot : ℕ → DashboardCall
  get_metrics : ℕ → ℕ → DashboardCall
  get_insights : ℕ → DashboardCall
  get_tasks : ℕ → DashboardCall
  create_task : Json → DashboardCall
  toggle_task : ℕ → Option ℕ → DashboardCall
  get_traffic : ℕ → ℕ → DashboardCall
  get_alerts : ℕ → DashboardCall
  get_competitors : ℕ → DashboardCall
  run_seo_audit : ℕ → Option Text → DashboardCall
  get_seo_audit : ℕ → DashboardCall
  get_seo_issues : ℕ → Option Text → DashboardCall
  get_seo_report : ℕ → DashboardCall
  get_keywords : ℕ → Option Text → DashboardCall
  generate_keywords : Json → DashboardCall
  resolve_issue : ℕ → ℕ → DashboardCall
  get_social_insights : ℕ → DashboardCall
  refresh_social : ℕ → DashboardCall
  get_social_history : ℕ → DashboardCall
  get_public_profile : Text → Text → Option ℕ → DashboardCall
  get_related_profiles : ℕ → DashboardCall
  generate_content : Json → DashboardCall
  get_integrations : DashboardCall
  get_google_auth_url : DashboardCall
  get_meta_auth_url : DashboardCall
  get_linkedin_auth_url : DashboardCall
  disconnect_integration : Text → DashboardCall
  get_project : ℕ → DashboardCall
  get_automations : ℕ → DashboardCall
  create_automation : Json → DashboardCall
  toggle_automation : ℕ → DashboardCall
  get_calendar : ℕ → DashboardCall
  create_calendar_event : Json → DashboardCall
  update_calendar_event : ℕ → Json → DashboardCall
  delete_calendar_event : ℕ → DashboardCall
  sync_project : ℕ → DashboardCall
  get_rank_tracking : ℕ → DashboardCall
  get_backlinks : ℕ → DashboardCall
  get_social_history_for_delta : ℕ → ℕ → DashboardCall

unfoldable pub dashboard_request : DashboardCall → Request
dashboard_request get_projects = call api_client get (codes "/projects")
dashboard_request (onboard payload) = call_with api_client post (codes "/onboard") (payload)
dashboard_request (delete_project i) = call api_client delete (codes "/projects/" ++ show i)
dashboard_request (update_project i payload) =
    call_with api_client patch (codes "/projects/" ++ show i) (payload)
dashboard_request (get_snapshot p) =
    call api_client get (codes "/dashboard/snapshot?project_id=" ++ show p)
dashboard_request (get_metrics p d) =
    call api_client get
      (codes "/dashboard/metrics?project_id=" ++ show p ++ codes "&days=" ++ show d)
dashboard_request (get_insights p) =
    call api_client get (codes "/dashboard/insights?project_id=" ++ show p)
dashboard_request (get_tasks p) =
    call api_client get (codes "/dashboard/tasks?project_id=" ++ show p)
dashboard_request (create_task payload) =
    call_with api_client post (codes "/dashboard/tasks") (payload)
dashboard_request (toggle_task i o) =
    call api_client patch
      (codes "/tasks/" ++ show i ++ codes "/toggle" ++ number_param "?project_id=" o)
dashboard_request (get_traffic p d) =
    call api_client get
      (codes "/dashboard/traffic?project_id=" ++ show p ++ codes "&days=" ++ show d)
dashboard_request (get_alerts p) = call api_client get (codes "/alerts?project_id=" ++ show p)
dashboard_request (get_competitors p) =
    call api_client get (codes "/competitors?project_id=" ++ show p)
dashboard_request (run_seo_audit p u) =
    call_with api_client post (codes "/seo/audit/run")
      ((obj (field (codes "project_id") (num p) (field (codes "url") (str (text_or_empty u)) end))))
dashboard_request (get_seo_audit p) = call api_client get (codes "/seo/audit?project_id=" ++ show p)
dashboard_request (get_seo_issues p s) =
    call api_client get (codes "/seo/issues?project_id=" ++ show p ++ text_param "&severity=" s)
dashboard_request (get_seo_report p) =
    call api_client get (codes "/seo/report?project_id=" ++ show p)
dashboard_request (get_keywords p s) =
    call api_client get (codes "/seo/keywords?project_id=" ++ show p ++ encoded_param "&seed=" s)
dashboard_request (generate_keywords payload) =
    call_with api_client post (codes "/seo/keywords") (payload)
dashboard_request (resolve_issue i p) =
    call api_client put (codes "/seo/issues/" ++ show i ++ codes "?project_id=" ++ show p)
dashboard_request (get_social_insights p) =
    call api_client get (codes "/social/insights?project_id=" ++ show p)
dashboard_request (refresh_social p) =
    call api_client post (codes "/social/insights/refresh?project_id=" ++ show p)
dashboard_request (get_social_history p) =
    call api_client get (codes "/social/history?project_id=" ++ show p)
dashboard_request (get_public_profile h f o) = call api_client get (
    codes "/social/profile?handle="
    ++ (encode_uri_component h ++ (codes "&platform=" ++ (f ++ number_param "&project_id=" o))))
dashboard_request (get_related_profiles p) =
    call api_client get (codes "/social/related?project_id=" ++ show p)
dashboard_request (generate_content payload) =
    call_with api_client post (codes "/content/generate") (payload)
dashboard_request get_integrations = call api_client get (codes "/integrations")
dashboard_request get_google_auth_url = call api_client get (codes "/integrations/google/auth-url")
dashboard_request get_meta_auth_url = call api_client get (codes "/integrations/meta/auth-url")
dashboard_request get_linkedin_auth_url =
    call api_client get (codes "/integrations/linkedin/auth-url")
dashboard_request (disconnect_integration f) = call api_client delete (codes "/integrations/" ++ f)
dashboard_request (get_project i) = call api_client get (codes "/projects/" ++ show i)
dashboard_request (get_automations p) =
    call api_client get (codes "/system/automations?project_id=" ++ show p)
dashboard_request (create_automation payload) =
    call_with api_client post (codes "/system/automations") (payload)
dashboard_request (toggle_automation i) =
    call api_client patch (codes "/system/automations/" ++ show i ++ codes "/toggle")
dashboard_request (get_calendar p) =
    call api_client get (codes "/system/calendar?project_id=" ++ show p)
dashboard_request (create_calendar_event payload) =
    call_with api_client post (codes "/system/calendar/event") (payload)
dashboard_request (update_calendar_event i payload) =
    call_with api_client patch (codes "/system/calendar/event/" ++ show i) (payload)
dashboard_request (delete_calendar_event i) =
    call api_client delete (codes "/system/calendar/event/" ++ show i)
dashboard_request (sync_project p) =
    call api_client post (codes "/projects/" ++ show p ++ codes "/sync")
dashboard_request (get_rank_tracking p) =
    call api_client get (codes "/seo/rank-tracking?project_id=" ++ show p)
dashboard_request (get_backlinks p) =
    call api_client get (codes "/seo/backlinks?project_id=" ++ show p)
dashboard_request (get_social_history_for_delta p d) =
    call api_client get (codes "/social/history?project_id=" ++ show p ++ codes "&days=" ++ show d)

-- `billingApi and plansApi`.
pub data BillingCall : Type 0 where
  billing_me : BillingCall
  start_trial : Text → BillingCall
  subscribe : Text → BillingCall
  cancel : BillingCall
  list_plans : BillingCall

unfoldable pub billing_request : BillingCall → Request
billing_request billing_me = call api_client get (codes "/billing/me")
billing_request (start_trial c) =
    call_with api_client post (codes "/billing/trial")
      ((obj (field (codes "plan_code") (str c) end)))
billing_request (subscribe c) =
    call_with api_client post (codes "/billing/subscribe")
      ((obj (field (codes "plan_code") (str c) end)))
billing_request cancel = call api_client post (codes "/billing/cancel")
billing_request list_plans = call bare_axios get (codes "/plans")

-- `adminApi: the calls whose address has no query`.
pub data AdminCall : Type 0 where
  admin_me : AdminCall
  list_roles : AdminCall
  list_permissions : AdminCall
  create_role : Json → AdminCall
  update_role : ℕ → Json → AdminCall
  delete_role : ℕ → AdminCall
  get_user : ℕ → AdminCall
  update_user : ℕ → Json → AdminCall
  reset_password : ℕ → AdminCall
  suspend_user : ℕ → Option Text → AdminCall
  unsuspend_user : ℕ → AdminCall
  impersonate : ℕ → AdminCall
  stop_impersonation : ℕ → AdminCall
  list_admin_plans : AdminCall
  create_plan : Json → AdminCall
  update_plan : ℕ → Json → AdminCall
  admin_stats : AdminCall
  admin_project : ℕ → AdminCall
  project_seo : ℕ → AdminCall
  project_social : ℕ → AdminCall
  project_stats : AdminCall
  platform_seo_health : AdminCall
  platform_social_health : AdminCall
  platform_health : AdminCall
  integrations_status : AdminCall

unfoldable pub admin_request : AdminCall → Request
admin_request admin_me = call api_client get (codes "/admin/me")
admin_request list_roles = call api_client get (codes "/admin/roles")
admin_request list_permissions = call api_client get (codes "/admin/permissions")
admin_request (create_role payload) = call_with api_client post (codes "/admin/roles") (payload)
admin_request (update_role i payload) =
    call_with api_client patch (codes "/admin/roles/" ++ show i) (payload)
admin_request (delete_role i) = call api_client delete (codes "/admin/roles/" ++ show i)
admin_request (get_user i) = call api_client get (codes "/admin/users/" ++ show i)
admin_request (update_user i payload) =
    call_with api_client patch (codes "/admin/users/" ++ show i) (payload)
admin_request (reset_password i) =
    call api_client post (codes "/admin/users/" ++ show i ++ codes "/reset-password")
admin_request (suspend_user i o) =
    call_with api_client post (codes "/admin/users/" ++ show i ++ codes "/suspend")
      ((obj (field (codes "reason") (str (text_or_empty o)) end)))
admin_request (unsuspend_user i) =
    call api_client post (codes "/admin/users/" ++ show i ++ codes "/unsuspend")
admin_request (impersonate i) =
    call api_client post (codes "/admin/users/" ++ show i ++ codes "/impersonate")
admin_request (stop_impersonation i) =
    call_with api_client post (codes "/admin/users/" ++ show i ++ codes "/stop-impersonation")
      ((obj (field (codes "target_id") (num i) end)))
admin_request list_admin_plans = call api_client get (codes "/admin/plans")
admin_request (create_plan payload) = call_with api_client post (codes "/admin/plans") (payload)
admin_request (update_plan i payload) =
    call_with api_client patch (codes "/admin/plans/" ++ show i) (payload)
admin_request admin_stats = call api_client get (codes "/admin/stats")
admin_request (admin_project i) = call api_client get (codes "/admin/projects/" ++ show i)
admin_request (project_seo i) =
    call api_client get (codes "/admin/projects/" ++ show i ++ codes "/seo")
admin_request (project_social i) =
    call api_client get (codes "/admin/projects/" ++ show i ++ codes "/social")
admin_request project_stats = call api_client get (codes "/admin/projects/stats")
admin_request platform_seo_health = call api_client get (codes "/admin/platform/seo-health")
admin_request platform_social_health = call api_client get (codes "/admin/platform/social-health")
admin_request platform_health = call api_client get (codes "/admin/platform/health")
admin_request integrations_status = call api_client get (codes "/admin/integrations/status")
