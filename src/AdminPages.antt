-- ===== src/AdminPages.antt =====
-- The other pages of the administration: frontend/app/(dashboard)/admin/page.tsx, revenue/page.tsx,
-- seo-health/page.tsx, social-health/page.tsx, integrations/page.tsx, system/page.tsx,
-- audit-log/page.tsx and projects/[id]/page.tsx. The answers of the API are parameters.
pub mod AuditLog
pub mod Detail
pub mod Loading
pub mod Orders
mod Tests
use dmtool.Base.{
  ℕ, ◌+◌, ◌*◌, ◌/◌, Bool, true, false, not, ◌&&◌, List, [], ◌∷◌, Option, none, some, Text, codes,
  text_eq, leb, ltb, ◌==◌, if◌then◌else◌, Outcome, threw, returned, strip_prefix,
}
use dmtool.Cookie.Store.{is_some}
use dmtool.Billing.{round_div}

-- A page that reads its figures once. What it shows follows from what it holds.
pub record Figures (D : Type 0) : Type 0 where
  pub content : Option D
  pub loading : Bool
  pub refreshing : Bool

pub data Shown (D : Type 0) : Type 0 where
  waiting unavailable : Shown D
  figures : D → Shown D

module _ {D : Type 0} where
  abbrev pub opening : Figures D
  opening = record { content = none; loading = true; refreshing = false }

  -- The effect; an answer behind the end of the page is dropped.
  unfoldable pub answered : Bool → Outcome D → Figures D → Figures D
  answered true reply s = s
  answered false threw s = record s { loading = false }
  answered false (returned d) s = record s { content = some d; loading = false }

  abbrev pub content_shown : Option D → Shown D
  content_shown none = unavailable
  content_shown (some d) = figures d

  unfoldable pub shown : Figures D → Shown D
  shown s = if s.loading then waiting else content_shown s.content

  -- `fetchData(showRefresh)` and `fetchHealth(showRefresh)`.
  abbrev pub asking : Bool → Figures D → Figures D
  asking show_refresh s = if show_refresh then record s { refreshing = true } else s

  abbrev pub take_reply : Outcome D → Figures D → Figures D
  take_reply threw s = s
  take_reply (returned d) s = record s { content = some d }

  unfoldable pub fetch_again : Bool → Outcome D → Figures D → Figures D
  fetch_again show_refresh reply s = record (take_reply reply (asking show_refresh s)) {
    loading = false;
    refreshing = false;
  }

-- The pages that read in one of these two ways.
abbrev pub seo_health_answered : {D : Type 0} → Bool → Outcome D → Figures D → Figures D
seo_health_answered = answered

abbrev pub social_health_answered : {D : Type 0} → Bool → Outcome D → Figures D → Figures D
social_health_answered = answered

abbrev pub fetch_integrations : {D : Type 0} → Bool → Outcome D → Figures D → Figures D
fetch_integrations = fetch_again

abbrev pub fetch_health : {D : Type 0} → Bool → Outcome D → Figures D → Figures D
fetch_health = fetch_again

-- The figures of the overview and of the revenue.
pub record Stats : Type 0 where
  pub revenue_available : Option Bool
  pub mrr_cents : ℕ
  pub active_subs : ℕ
  pub trialing_subs : ℕ
  pub canceled_subs : ℕ
  pub plan_breakdown : List (Text × ℕ)

-- `stats.revenue_available !== false`.
abbrev pub may_see : Option Bool → Bool
may_see (some false) = false
may_see _ = true

unfoldable pub mrr_is_stub : Stats → Bool
mrr_is_stub s = may_see s.revenue_available && s.mrr_cents == 0 && ltb 0 s.active_subs

abbrev pub revenue_of : Shown Stats → Shown Stats
revenue_of waiting = waiting
revenue_of unavailable = unavailable
revenue_of (figures s) = if may_see s.revenue_available then figures s else unavailable

abbrev pub revenue_answered : Bool → Outcome Stats → Figures Stats → Figures Stats
revenue_answered = answered

-- What the page on the revenue shows: no figures to those who may not see them.
unfoldable pub revenue_shown : Figures Stats → Shown Stats
unfolding shown
revenue_shown s = revenue_of (shown s)

-- `planBreakdown[code] || 0`.
unfoldable pub count_of : Text → List (Text × ℕ) → ℕ
count_of code [] = 0
count_of code ((k, n) ∷ b) = if text_eq k code then n else count_of code b

unfoldable pub monthly_contribution : Stats → ℕ
unfolding count_of
monthly_contribution s = count_of (codes "pro_monthly") s.plan_breakdown * 2900

unfoldable pub yearly_contribution : Stats → ℕ
unfolding count_of
yearly_contribution s = round_div (count_of (codes "pro_yearly") s.plan_breakdown * 29000) 12

-- The rows of a chart: the larger counts first; equal ones keep their order.
unfoldable pub insert : Text × ℕ → List (Text × ℕ) → List (Text × ℕ)
insert e [] = e ∷ []
insert e (f ∷ b) = let rest = insert e b in if leb f.1 e.1 then e ∷ f ∷ b else f ∷ rest

unfoldable pub sort : List (Text × ℕ) → List (Text × ℕ)
unfolding insert
sort [] = []
sort (e ∷ b) = insert e (sort b)

-- A share of a total in percent, as the page rounds it.
unfoldable pub percent : ℕ → ℕ → ℕ
percent count total = if total == 0 then 0 else round_div (count * 100) total

-- The colours.
pub data Color : Type 0 where
  emerald blue amber red slate : Color

abbrev pub starts : Text → Text → Bool
starts p s = is_some (strip_prefix p s)

unfoldable pub bucket_color : Text → Color
bucket_color bucket =
    if starts (codes "90") bucket
    then emerald
    else if starts (codes "70") bucket
    then blue
    else if starts (codes "50") bucket
    then amber
    else if starts (codes "0") bucket
    then red
    else slate

unfoldable pub status_badge : Text → Color
status_badge status =
    if text_eq status (codes "healthy")
    then emerald
    else if text_eq status (codes "degraded")
    then amber
    else if text_eq status (codes "down")
    then red
    else slate
