-- ===== src/Billing/Tests.antt =====
-- The billing page at concrete plans.
use dmtool.Base.{
  ◌+◌, ◌*◌, ◌≤◌, ◌≡◌, refl, true, false, ◌&&◌, ◌||◌, [], ◌∷◌, ◌++◌, some, codes, text_eq, returned,
  threw, arith,
}
use dmtool.Api.{start_trial, subscribe, cancel, show}
use dmtool.Billing.{
  Plan, BillingPage, monthly, yearly, dollars, format_price, price_for_cycle, shows_offer,
  shows_manage, handle_start_trial, handle_subscribe, handle_cancel, plan_code, find_plan,
  usage_width,
}
use dmtool.Billing.Actions.{cards_lem, IsActed, actions_lem}
use dmtool.Billing.Prices.{format_price-price_for_cycle, dollars_bounds, usage_width_bounds}

abbrev pro_year : Plan
pro_year = record {
  code = codes "pro_yearly";
  name = codes "Pro";
  max_sites = 3;
  monthly_cents = 0;
  yearly_cents = 29900;
}

shown_price : format_price 29900 yearly ≡ codes "$25/mo"
unfolding format_price show
shown_price = refl

abbrev billed : BillingPage
billed = record {
  state = some (record { plan = some pro_year; status = some (codes "active") });
  plans = pro_year ∷ [];
  loading = false;
  busy = false;
  cycle = yearly;
  sent = [];
}

format_price_example :
    format_price 29900 yearly ≡ (price_for_cycle pro_year yearly).0 ++ codes "/mo"
format_price_example = format_price-price_for_cycle pro_year yearly (λ e. cc) (omega arith)

dollars_bounds_example :
    (100 * dollars 29900 monthly ≤ 29900 + 50)
    × (29900 ≤ 100 * dollars 29900 monthly + 50)
    × (1200 * dollars 29900 yearly ≤ 29900 + 600)
    × (29900 ≤ 1200 * dollars 29900 yearly + 600)
dollars_bounds_example = dollars_bounds 29900

full_bar : (usage_width 5 0).0 ≤ 100 * (usage_width 5 0).1
full_bar = (usage_width_bounds 5 0).0

cards_example :
    (shows_offer billed ≡ text_eq (codes "active") (codes "canceled"))
    × (shows_manage billed ≡ (
        text_eq (codes "active") (codes "active") || text_eq (codes "active") (codes "trialing")))
    × ((shows_offer billed && shows_manage billed) ≡ false)
unfolding find_plan text_eq
cards_example = cards_lem billed pro_year (codes "active") refl (λ e. cc) refl

actions_example :
    IsActed
      (start_trial (plan_code yearly))
      (returned tt)
      threw
      billed
      (handle_start_trial (returned tt) threw billed)
    × IsActed
        (subscribe (plan_code yearly))
        (returned tt)
        threw
        billed
        (handle_subscribe (returned tt) threw billed)
    × IsActed cancel (returned tt) threw billed (handle_cancel true (returned tt) threw billed)
    × (handle_cancel false (returned tt) threw billed ≡ billed)
actions_example = actions_lem (returned tt) threw billed
