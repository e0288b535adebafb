-- ===== src/Billing.antt =====
-- frontend/app/(dashboard)/billing/page.tsx and the prices of frontend/app/(public)/pricing/page.tsx.
-- What the API answers is a parameter; the messages of the toasts are left out.
pub mod Prices
pub mod Actions
mod Tests
use dmtool.Base.{
  ℕ, ◌+◌, ◌*◌, ◌/◌, Bool, true, false, not, ◌&&◌, ◌||◌, List, [], ◌∷◌, ◌++◌, Option, none, some,
  Text, codes, text_eq, ◌==◌, leb, if◌then◌else◌, Outcome, threw, returned,
}
use dmtool.Api.{show, BillingCall, start_trial, subscribe, cancel}
use dmtool.Cookie.Store.{is_some}

pub data Cycle : Type 0 where
  monthly yearly : Cycle

pub record Plan : Type 0 where
  pub code : Text
  pub name : Text
  pub max_sites : ℕ
  pub monthly_cents : ℕ
  pub yearly_cents : ℕ

-- `Math.round` of n / d, which rounds a half up.
abbrev pub round_div : ℕ → ℕ → ℕ
round_div n d = (2 * n + d) / (2 * d)

abbrev pub cents_of : Plan → Cycle → ℕ
cents_of p monthly = p.monthly_cents
cents_of p yearly = p.yearly_cents

-- `Math.round(cents / 12 / 100)` and `Math.round(cents / 100)`.
abbrev pub dollars : ℕ → Cycle → ℕ
dollars cents yearly = round_div cents 1200
dollars cents monthly = round_div cents 100

unfoldable pub format_price : ℕ → Cycle → Text
format_price cents cycle =
    if cents == 0 then codes "Custom" else codes "$" ++ (show (dollars cents cycle) ++ codes "/mo")

abbrev pub suffix_of : Cycle → Text
suffix_of yearly = codes "/ mo, billed yearly"
suffix_of monthly = codes "/ month"

-- The display and the suffix of a price on the public page.
unfoldable pub price_for_cycle : Plan → Cycle → Text × Text
price_for_cycle p cycle =
    if text_eq p.code (codes "free")
    then (codes "$0", codes "forever")
    else if cents_of p cycle == 0
    then (codes "Custom", [])
    else (codes "$" ++ show (dollars (cents_of p cycle) cycle), suffix_of cycle)

unfoldable pub features_for_plan : Plan → List Text
features_for_plan p =
    if text_eq p.code (codes "free")
    then (codes "Connect up to " ++ (show p.max_sites ++ codes " website"))
      ∷ codes "AI-powered insights (limited)"
      ∷ codes "Audit history (30 days)"
      ∷ []
    else (codes "Connect up to " ++ (show p.max_sites ++ codes " websites"))
      ∷ codes "Full AI insights and recommendations"
      ∷ codes "Full audit history"
      ∷ codes "Exportable reports"
      ∷ []

abbrev pub plan_code : Cycle → Text
plan_code monthly = codes "pro_monthly"
plan_code yearly = codes "pro_yearly"

-- `plans.find((p) => p.code === …) ?? null`.
unfoldable pub find_plan : Text → List Plan → Option Plan
find_plan code [] = none
find_plan code (p ∷ ps) = if text_eq p.code code then some p else find_plan code ps

-- The plan and the status of the subscription, each of which may be missing.
pub record BillingState : Type 0 where
  pub plan : Option Plan
  pub status : Option Text

pub record BillingPage : Type 0 where
  pub state : Option BillingState
  pub plans : List Plan
  pub loading : Bool
  pub busy : Bool
  pub cycle : Cycle
  pub sent : List BillingCall

abbrev pub plan_of : Option BillingState → Option Plan
plan_of none = none
plan_of (some s) = s.plan

abbrev pub status_of : Option BillingState → Option Text
status_of none = none
status_of (some s) = s.status

abbrev pub current_plan : BillingPage → Option Plan
current_plan b = plan_of b.state

abbrev pub current_status : BillingPage → Option Text
current_status b = status_of b.state

abbrev pub is_status : Option Text → Text → Bool
is_status none t = false
is_status (some s) t = text_eq s t

-- `currentPlan?.code !== "free"` holds without a plan.
abbrev pub is_free : Option Plan → Bool
is_free none = false
is_free (some p) = text_eq p.code (codes "free")

-- The flags of the page, from the plan and the status.
abbrev pub is_trialing : Option Text → Bool
is_trialing status = is_status status (codes "trialing")

abbrev pub is_active : Option Plan → Option Text → Bool
is_active plan status = is_status status (codes "active") && not (is_free plan)

abbrev pub is_canceled : Option Text → Bool
is_canceled status = is_status status (codes "canceled")

abbrev pub on_free : Option Plan → Bool
on_free plan = not (is_some plan) || is_free plan

abbrev pub pro : BillingPage → Option Plan
pro b = find_plan (plan_code b.cycle) b.plans

-- The card that offers the trial, and the card that manages a subscription.
unfoldable pub shows_offer : BillingPage → Bool
shows_offer b = (on_free (current_plan b) || is_canceled (current_status b)) && is_some (pro b)

unfoldable pub shows_manage : BillingPage → Bool
shows_manage b =
    (is_active (current_plan b) (current_status b) || is_trialing (current_status b))
    && is_some (pro b)

abbrev pub or_no_plans : Option (List Plan) → List Plan
or_no_plans none = []
or_no_plans (some ps) = ps

abbrev pub loaded : Outcome (Option BillingState × Option (List Plan)) → BillingPage → BillingPage
loaded threw b = b
loaded (returned (me, list)) b = record b { state = me; plans = or_no_plans list }

-- Both answers of the `Promise.all`, or the failure of one.
unfoldable pub refresh :
    Outcome (Option BillingState × Option (List Plan)) → BillingPage → BillingPage
refresh answers b = record (loaded answers (record b { loading = true })) { loading = false }

-- What the handlers share: the call, and a refresh when it succeeds.
abbrev pub act :
    BillingCall
    → Outcome (Unit {0})
    → Outcome (Option BillingState × Option (List Plan))
    → BillingPage
    → BillingPage
act call threw answers b = record b { busy = false; sent = call ∷ b.sent }
act call (returned _) answers b =
    record (refresh answers (record b { busy = true; sent = call ∷ b.sent })) { busy = false }

unfoldable pub handle_start_trial :
    Outcome (Unit {0})
    → Outcome (Option BillingState × Option (List Plan))
    → BillingPage
    → BillingPage
unfolding refresh
handle_start_trial reply answers b = act (start_trial (plan_code b.cycle)) reply answers b

unfoldable pub handle_subscribe :
    Outcome (Unit {0})
    → Outcome (Option BillingState × Option (List Plan))
    → BillingPage
    → BillingPage
unfolding refresh
handle_subscribe reply answers b = act (subscribe (plan_code b.cycle)) reply answers b

unfoldable pub handle_cancel :
    Bool
    → Outcome (Unit {0})
    → Outcome (Option BillingState × Option (List Plan))
    → BillingPage
    → BillingPage
unfolding refresh
handle_cancel confirmed reply answers b = if confirmed then act cancel reply answers b else b

-- The width of the bar, in percent, as a fraction: `Math.min(100, (used / Math.max(1, max)) * 100)`.
abbrev pub at_least_one : ℕ → ℕ
at_least_one max = if leb 1 max then max else 1

unfoldable pub usage_width : ℕ → ℕ → ℕ × ℕ
usage_width used max =
    if leb (at_least_one max) used then (100, 1) else (used * 100, at_least_one max)
