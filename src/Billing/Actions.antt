-- ===== src/Billing/Actions.antt =====
-- Which cards the billing page shows, and what its actions do.
use dmtool.Base.{
  ◌≡◌, ◌≢◌, refl, Bool, true, false, ◌&&◌, ◌||◌, List, ◌∷◌, Option, some, Text, codes, text_eq,
  text_eq_iff, eq_false, Outcome, threw, returned, arith, ap,
}
use dmtool.Api.{BillingCall, start_trial, subscribe, cancel}
use dmtool.Cookie.Store.{is_some}
use dmtool.Billing.{
  Plan, BillingState, BillingPage, current_plan, current_status, plan_of, status_of, is_trialing,
  is_active, is_canceled, on_free, pro, shows_offer, shows_manage, refresh, act, handle_start_trial,
  handle_subscribe, handle_cancel, plan_code, or_no_plans,
}

-- The two tests, from the plan, the status and whether a plan is there for the cycle.
offers : Option Plan → Option Text → Bool → Bool
offers plan status there = (on_free plan || is_canceled status) && there

manages : Option Plan → Option Text → Bool → Bool
manages plan status there = (is_active plan status || is_trialing status) && there

cards_of :
    (plan : Option Plan) (status : Option Text) (there : Bool) (p : Plan) (s : Text)
    → plan ≡ some p
    → status ≡ some s
    → there ≡ true
    → p.code ≢ codes "free"
    → (offers plan status there ≡ text_eq s (codes "canceled"))
      × (manages plan status there ≡ (text_eq s (codes "active") || text_eq s (codes "trialing")))
      × ((offers plan status there && manages plan status there) ≡ false)
unfolding offers manages
cards_of plan status there p s e f h paid =
    let n = eq_false p.code (codes "free") paid in
    rw (e, f, h, n)
      (ground (
        arith,
        text_eq_iff s (codes "canceled"),
        text_eq_iff s (codes "active"),
        text_eq_iff s (codes "trialing"),
      ))

module _ (b : BillingPage) (p : Plan) (s : Text)
    (state : b.state ≡ some (record { plan = some p; status = some s }))
    (paid : p.code ≢ codes "free") where
  -- With a paid plan and a subscription, where the list has a plan for the cycle: the offer of a
  -- trial is shown exactly when the subscription is canceled, the management exactly when it is
  -- active or trialing, and so never both.
  pub cards_lem :
      is_some (pro b) ≡ true
      → (shows_offer b ≡ text_eq s (codes "canceled"))
        × (shows_manage b ≡ (text_eq s (codes "active") || text_eq s (codes "trialing")))
        × ((shows_offer b && shows_manage b) ≡ false)
  unfolding shows_offer shows_manage offers manages
  cards_lem h =
      let c = cards_of (current_plan b) (current_status b) (is_some (pro b)) in
      let e : current_plan b ≡ some p = ap plan_of state in
      let f : current_status b ≡ some s = ap status_of state in c p s e f h paid

-- What an action does with the answer to its call and to the two calls of the refresh.
pub record IsActed (call : BillingCall) (reply : Outcome (Unit {0}))
    (answers : Outcome (Option BillingState × Option (List Plan))) (b r : BillingPage)
    : Type 0 where
  pub sent : r.sent ≡ call ∷ b.sent
  pub idle : r.busy ≡ false
  pub cycle : r.cycle ≡ b.cycle
  pub refused : reply ≡ threw → (r.state ≡ b.state) × (r.plans ≡ b.plans)
  pub lost : answers ≡ threw → (r.state ≡ b.state) × (r.plans ≡ b.plans)
  pub reloaded :
      {me : Option BillingState} {list : Option (List Plan)}
      → reply ≡ returned tt
      → answers ≡ returned (me, list)
      → (r.state ≡ me) × (r.plans ≡ or_no_plans list) × (r.loading ≡ false)

act-IsActed :
    (call : BillingCall) (reply : Outcome (Unit {0}))
    (answers : Outcome (Option BillingState × Option (List Plan))) (b : BillingPage)
    → IsActed call reply answers b (act call reply answers b)
unfolding refresh
act-IsActed call threw answers b = ground arith
act-IsActed call (returned _) threw b = ground arith
act-IsActed call (returned _) (returned (me, list)) b = ground arith

-- Each action sends its one call, for the cycle that is chosen, and ends idle: when the call or the
-- reload fails the page shows what it showed, when both succeed it shows the new plan and status.
-- A cancellation that is not confirmed does nothing at all.
pub actions_lem :
    (reply : Outcome (Unit {0})) (answers : Outcome (Option BillingState × Option (List Plan)))
    (b : BillingPage)
    → IsActed (start_trial (plan_code b.cycle)) reply answers b (handle_start_trial reply answers b)
      × IsActed (subscribe (plan_code b.cycle)) reply answers b (handle_subscribe reply answers b)
      × IsActed cancel reply answers b (handle_cancel true reply answers b)
      × (handle_cancel false reply answers b ≡ b)
unfolding handle_start_trial handle_subscribe handle_cancel
actions_lem reply answers b = (
  act-IsActed (start_trial (plan_code b.cycle)) reply answers b,
  act-IsActed (subscribe (plan_code b.cycle)) reply answers b,
  act-IsActed cancel reply answers b,
  refl,
)
