-- ===== src/AdminPlans.antt =====
-- frontend/app/(dashboard)/admin/plans/page.tsx: the dialog in which an administrator creates and
-- edits a plan, and the list behind it. The answers of the API are parameters.
pub mod Submits
mod Tests
use dmtool.Base.{
  ℕ, suc, ◌*◌, Bool, true, false, not, ◌&&◌, ◌||◌, List, [], ◌∷◌, ◌++◌, Option, none, some, Text,
  codes, is_empty, trim, ltb, ◌==◌, if◌then◌else◌, Outcome, threw, returned,
}
use dmtool.Api.{show}
use dmtool.Billing.{round_div}
use dmtool.Roles.{is_role_code}

-- A finite JavaScript number, as a fraction whose divisor is the second number plus one, or NaN.
pub data Number : Type 0 where
  nan : Number
  plus minus : ℕ → ℕ → Number

abbrev pub whole : ℕ → Number
whole n = plus n 0

-- `x < 0` and `x < 1`; no comparison holds of NaN.
abbrev pub is_negative : Number → Bool
is_negative (minus n d) = not (n == 0)
is_negative _ = false

abbrev pub is_below_one : Number → Bool
is_below_one nan = false
is_below_one (plus n d) = ltb n (suc d)
is_below_one (minus n d) = true

pub record PlanFormValues : Type 0 where
  pub code : Text
  pub name : Text
  pub description : Text
  pub tier_rank : Number
  pub monthly_cents : Number
  pub yearly_cents : Number
  pub max_sites : Number
  pub is_active : Bool

pub record AdminPlan : Type 0 where
  pub id : ℕ
  pub code : Text
  pub name : Text
  pub description : Option Text
  pub tier_rank : ℕ
  pub monthly_cents : ℕ
  pub yearly_cents : ℕ
  pub max_sites : ℕ
  pub is_active : Bool

abbrev pub empty_values : PlanFormValues
empty_values = record {
  code = [];
  name = [];
  description = [];
  tier_rank = whole 0;
  monthly_cents = whole 0;
  yearly_cents = whole 0;
  max_sites = whole 1;
  is_active = true;
}

abbrev pub text_or_none : Option Text → Text
text_or_none none = []
text_or_none (some t) = t

unfoldable pub from_plan : AdminPlan → PlanFormValues
from_plan p = record {
  code = p.code;
  name = p.name;
  description = text_or_none p.description;
  tier_rank = whole p.tier_rank;
  monthly_cents = whole p.monthly_cents;
  yearly_cents = whole p.yearly_cents;
  max_sites = whole p.max_sites;
  is_active = p.is_active;
}

pub data Kind : Type 0 where
  create edit : Kind

pub record PlanModal : Type 0 where
  pub kind : Kind
  pub plan_id : ℕ
  pub values : PlanFormValues

abbrev pub is_edit : Kind → Bool
is_edit edit = true
is_edit create = false

-- What the user does to the form: the code is locked and the mark for active plans is shown on an
-- edit only.
pub data Change : Type 0 where
  set_code set_name set_description : Text → Change
  set_tier_rank set_monthly_cents set_yearly_cents set_max_sites : Number → Change
  set_is_active : Bool → Change

abbrev pub set_value : Kind → Change → PlanFormValues → PlanFormValues
set_value k (set_code t) v = if is_edit k then v else record v { code = t }
set_value k (set_name t) v = record v { name = t }
set_value k (set_description t) v = record v { description = t }
set_value k (set_tier_rank n) v = record v { tier_rank = n }
set_value k (set_monthly_cents n) v = record v { monthly_cents = n }
set_value k (set_yearly_cents n) v = record v { yearly_cents = n }
set_value k (set_max_sites n) v = record v { max_sites = n }
set_value k (set_is_active a) v = if is_edit k then record v { is_active = a } else v

unfoldable pub set_values : Kind → List Change → PlanFormValues → PlanFormValues
set_values k [] v = v
set_values k (c ∷ cs) v = set_values k cs (set_value k c v)

-- The bodies of the two calls: a new plan has no mark, a changed one no code.
pub record NewPlan : Type 0 where
  pub code : Text
  pub name : Text
  pub description : Text
  pub tier_rank : Number
  pub monthly_cents : Number
  pub yearly_cents : Number
  pub max_sites : Number

pub record PlanChanges : Type 0 where
  pub name : Text
  pub description : Text
  pub tier_rank : Number
  pub monthly_cents : Number
  pub yearly_cents : Number
  pub max_sites : Number
  pub is_active : Bool

abbrev pub new_plan : PlanFormValues → NewPlan
new_plan v = record {
  code = v.code;
  name = v.name;
  description = v.description;
  tier_rank = v.tier_rank;
  monthly_cents = v.monthly_cents;
  yearly_cents = v.yearly_cents;
  max_sites = v.max_sites;
}

abbrev pub plan_changes : PlanFormValues → PlanChanges
plan_changes v = record {
  name = v.name;
  description = v.description;
  tier_rank = v.tier_rank;
  monthly_cents = v.monthly_cents;
  yearly_cents = v.yearly_cents;
  max_sites = v.max_sites;
  is_active = v.is_active;
}

pub data PlanSubmit : Type 0 where
  required bad_code bad_price bad_sites : PlanSubmit
  create_plan : NewPlan → PlanSubmit
  update_plan : ℕ → PlanChanges → PlanSubmit

abbrev pub save : Kind → ℕ → PlanFormValues → PlanSubmit
save edit i v = update_plan i (plan_changes v)
save create i v = create_plan (new_plan v)

unfoldable pub submit_plan : PlanModal → PlanSubmit
submit_plan m =
    let v = m.values in
    if is_empty (trim v.code) || is_empty (trim v.name)
    then required
    else if not (is_role_code v.code)
    then bad_code
    else if is_negative v.monthly_cents || is_negative v.yearly_cents
    then bad_price
    else if is_below_one v.max_sites
    then bad_sites
    else save m.kind m.plan_id v

-- The list, and the dialog that is open over it.
pub record PlansPage : Type 0 where
  pub plans : List AdminPlan
  pub loading : Bool
  pub editing : Option PlanModal

abbrev pub listed : Outcome (List AdminPlan) → PlansPage → PlansPage
listed threw s = s
listed (returned ps) s = record s { plans = ps }

unfoldable pub refresh : Outcome (List AdminPlan) → PlansPage → PlansPage
refresh reply s = record (listed reply s) { loading = false }

abbrev pub open_create : PlansPage → PlansPage
open_create s = record s {
  editing = some (record { kind = create; plan_id = 0; values = empty_values });
}

abbrev pub open_edit : AdminPlan → PlansPage → PlansPage
open_edit p s = record s {
  editing = some (record { kind = edit; plan_id = p.id; values = from_plan p });
}

-- `onSaved`, for the answer to the save: the dialog closes and the list is read again; a failure
-- leaves the dialog open.
unfoldable pub on_saved : Outcome (Unit {0}) → Outcome (List AdminPlan) → PlansPage → PlansPage
unfolding refresh
on_saved threw reply s = s
on_saved (returned _) reply s = refresh reply (record s { editing = none })

unfoldable pub fmt_cents : ℕ → Text
fmt_cents cents = if cents == 0 then codes "—" else codes "$" ++ show (round_div cents 100)
