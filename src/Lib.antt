-- ===== src/Lib.antt =====
-- The client side of DMTool (frontend/, a Next.js application): the cookies that carry a session,
-- the gate in front of the pages, the client of the API with its interceptors, the addresses of its
-- endpoints, and the state of some of its pages.
--
-- How the parts interact. After a login the browser holds the cookies that frontend/lib/auth-cookie.ts
-- writes. Every request for a page passes frontend/proxy.ts, which reads the token's cookie and the
-- Origin header. In the page, frontend/lib/api-client.ts sends the requests of every component: an
-- interceptor adds the token (that of an impersonated user before one's own), another one answers a
-- 401 by ending the impersonation, by a refresh of the token or by a logout, and a timer refreshes the
-- token before it ends, for which frontend/lib/access-token.ts reads when that is.
--
-- Files.
--   Base       lists, texts, Boolean tests and errors as values, which the other files share
--   Uri        encodeURIComponent and decodeURIComponent (UTF-8 and percent signs)
--   Cookie     frontend/lib/auth-cookie.ts, one definition for each function, named after it;
--              Cookie/Store is the interface of `document.cookie` and of JSON
--   Proxy      frontend/proxy.ts: `proxy`, `looks_like_jwt`, `build_trusted_origins`
--   Session    frontend/lib/access-token.ts and the interceptors, refresh and keep-alive of
--              frontend/lib/api-client.ts
--   Api        the endpoints of frontend/lib/api-client.ts: client, method, address and body
--   Roles      frontend/app/(dashboard)/admin/roles/page.tsx: the dialog of a staff role
--   Samples    a concrete browser that satisfies the interface of Cookie/Store
--   Nav        frontend/components/dashboard/sidebar.tsx and, of frontend/components/admin,
--              admin-sidebar.tsx: the links, which a mode shows, and which groups are open
--   Calendar   frontend/app/(dashboard)/system/calendar/page.tsx: the drafts and their upload
--   DashboardMode  frontend/components/dashboard/dashboard-mode-context.tsx: the mode of the
--              dashboard between the cookie, the page and the server
--   SignIn     frontend/app/(auth)/login/page.tsx, frontend/app/(auth)/register/page.tsx and the
--              logout of frontend/components/dashboard/topbar.tsx
--   Billing    frontend/app/(dashboard)/billing/page.tsx and the prices of
--              frontend/app/(public)/pricing/page.tsx
--   AdminPlans frontend/app/(dashboard)/admin/plans/page.tsx: the dialog and the list of plans
--   CreateProject  frontend/app/(dashboard)/projects/create/page.tsx as a machine of events
--   Onboarding frontend/app/(auth)/onboarding/page.tsx as a machine of events
--   Projects   the choice of the project and of the platform that the pages share by localStorage:
--              frontend/app/(dashboard)/analytics/traffic/page.tsx, seo/rank-tracking/page.tsx,
--              social/growth/page.tsx and social/profile-analyzer/page.tsx
--   Chat       frontend/app/(dashboard)/ai/chat/page.tsx as a machine of events
--   ActionCenter  frontend/app/(dashboard)/action-center/page.tsx: the tasks and the figures
--   AdminLists frontend/app/(dashboard)/admin/users/page.tsx and admin/projects/page.tsx: the search,
--              the filters and the pages of both lists
--   AdminUser  frontend/app/(dashboard)/admin/users/[id]/page.tsx: the actions on one user, and
--              frontend/components/admin/impersonation-banner.tsx
--   Connections  frontend/app/api/auth/callback/google/route.ts and its twin for facebook,
--              frontend/app/(dashboard)/integrations/page.tsx and its callback/page.tsx
--   Keywords   frontend/app/(dashboard)/seo/keywords/page.tsx: load, search, merge and filter
--   Growth     frontend/components/dashboard/growth-snapshot.tsx: the signals behind the growth index
--   Reports    frontend/app/(dashboard)/analytics/custom/page.tsx: figures, selection and export
--   Insights   frontend/app/(dashboard)/social/insights/page.tsx and ai-insights/page.tsx
--   Settings   frontend/app/(dashboard)/projects/page.tsx and projects/settings/page.tsx
--   Posts      frontend/app/(dashboard)/system/calendar/page.tsx: the posts, beside the drafts
--   AdminPages frontend/app/(dashboard)/admin: page.tsx, revenue, seo-health, social-health,
--              integrations, system, audit-log and projects/[id]
--   Overview   frontend/app/(dashboard)/dashboard/page.tsx and dashboard/[mode]/overview-client.tsx
-- A file that proves something about a component stands in the folder of that name; the concrete
-- inputs stand in its Tests.
--
-- What the model chooses. A text is the list of its code points, so an unpaired surrogate does not
-- occur. The cookie jar, `localStorage`, JSON, `atob`, the clock, the dates of the browser, its lower and
-- upper case, and what axios makes of a request are parameters; what the code relies on in them is a law of the records CookieStore, LocalStorage and
-- SearchParams, or a named hypothesis. The state
-- of a page is a record that the operations take and return; an exception is the outcome `threw`. The
-- claim `exp` of a token is a natural number. A request through the interceptors runs on fuel, since a
-- 401 may send it again; three rounds are what it takes. Decimal digits of n are written on
-- fuel n + 1, one round for each digit.
--
-- What is not modelled. Presentation (the markup of the pages and components), the API server
-- (backend/, in Go), the matcher of the proxy's configuration, which the framework reads, and most of
-- the pages that only show what the API answers. Of the pages that are modelled, most texts of the
-- messages, dates as they are shown, and the exports of files but that of the reports are left out, and so are
-- the read of the calendar behind a save and the cut of the end of a cookie to whole seconds.
pub mod ActionCenter
pub mod AdminLists
pub mod AdminPages
pub mod AdminPlans
pub mod AdminUser
pub mod Api
pub mod Base
pub mod Billing
pub mod Calendar
pub mod Chat
pub mod Connections
pub mod Cookie
pub mod CreateProject
pub mod DashboardMode
pub mod Growth
pub mod Insights
pub mod Keywords
pub mod Nav
pub mod Onboarding
pub mod Overview
pub mod Posts
pub mod Projects
pub mod Proxy
pub mod Reports
pub mod Roles
pub mod Samples
pub mod Session
pub mod Settings
pub mod SignIn
pub mod Uri
