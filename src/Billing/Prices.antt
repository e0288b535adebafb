-- ===== src/Billing/Prices.antt =====
-- The prices that the two pages show.
use dmtool.Base.{false, ℕ, ◌+◌, ◌*◌, ◌≤◌, ◌≡◌, ◌≢◌, refl, ◌++◌, codes, eq_false, arith, ◌==◌}
use dmtool.Billing.{
  Plan, Cycle, monthly, yearly, cents_of, dollars, format_price, price_for_cycle, usage_width,
}

-- A price that is neither free nor left open: the billing page shows what the public page shows,
-- and behind it `/mo`.
pub format_price-price_for_cycle :
    (p : Plan) (c : Cycle)
    → p.code ≢ codes "free"
    → cents_of p c ≢ 0
    → format_price (cents_of p c) c ≡ (price_for_cycle p c).0 ++ codes "/mo"
unfolding format_price price_for_cycle
format_price-price_for_cycle p c h k =
    let f = eq_false p.code (codes "free") h in
    let z : (cents_of p c == 0) ≡ false = ground (arith, k) in rw (f, z) refl

-- The dollars shown are the cents of a month to the nearest dollar: at most half a dollar off, a
-- month of a yearly price being a twelfth.
pub dollars_bounds :
    (cents : ℕ)
    → (100 * dollars cents monthly ≤ cents + 50)
      × (cents ≤ 100 * dollars cents monthly + 50)
      × (1200 * dollars cents yearly ≤ cents + 600)
      × (cents ≤ 1200 * dollars cents yearly + 600)
dollars_bounds cents = (omega arith, omega arith, omega arith, omega arith)

-- The bar never leaves its box: its width is a fraction of at most 100 percent, with a divisor that
-- is not zero, also for a plan without sites.
pub usage_width_bounds :
    (used max : ℕ)
    → ((usage_width used max).0 ≤ 100 * (usage_width used max).1) × (1 ≤ (usage_width used max).1)
unfolding usage_width
usage_width_bounds used max = ground arith
