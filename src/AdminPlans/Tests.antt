-- ===== src/AdminPlans/Tests.antt =====
-- The dialog of a plan at concrete values.
use dmtool.Base.{◌≡◌, ◌↔◌, refl, true, [], ◌∷◌, codes, trim, if◌then◌else◌}
use dmtool.AdminPlans.{
  PlanFormValues, PlanModal, create, edit, is_edit, empty_values, set_code, set_values, submit_plan,
  new_plan, plan_changes, create_plan, update_plan, required,
}
use dmtool.AdminPlans.Submits.{IsSave, CanBeSaved, submit_plan_iff, set_values-locked}

abbrev team : PlanFormValues
team = record empty_values { code = codes "team"; name = codes "Team" }

abbrev new_team : PlanModal
new_team = record { kind = create; plan_id = 0; values = team }

blank_refused : submit_plan (record new_team { values = empty_values }) ≡ required
unfolding submit_plan trim
blank_refused = refl

submit_plan_example :
    (IsSave (submit_plan new_team) ↔ CanBeSaved team)
    × (CanBeSaved team
        → submit_plan new_team ≡ (
            if is_edit create
            then update_plan 0 (plan_changes team)
            else create_plan (new_plan team)))
submit_plan_example = submit_plan_iff new_team

set_values_example :
    ((set_values edit (set_code (codes "x") ∷ []) team).code ≡ codes "team")
    × ((set_values create (set_code (codes "x") ∷ []) team).is_active ≡ true)
set_values_example = set_values-locked (set_code (codes "x") ∷ []) team
