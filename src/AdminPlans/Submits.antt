-- ===== src/AdminPlans/Submits.antt =====
-- What the dialog of a plan sends, and when.
use dmtool.Base.{
  ℕ, ◌≡◌, ◌↔◌, refl, sym, ◌∙◌, true, false, ◌||◌, List, [], ◌∷◌, is_empty, trim, if◌then◌else◌,
  arith, Bool-cases, inl, inr,
}
use mathlib.Core.Path.{subst}
use dmtool.Roles.{is_role_code}
use dmtool.AdminPlans.{
  PlanFormValues, PlanModal, Kind, create, edit, is_edit, Change, set_code, set_name,
  set_description, set_tier_rank, set_monthly_cents, set_yearly_cents, set_max_sites, set_is_active,
  set_value, set_values, new_plan, plan_changes, PlanSubmit, create_plan, update_plan, save,
  submit_plan, is_negative, is_below_one,
}

-- The form can be saved: a code of the right form, a name that is not blank, no negative price and
-- at least one site.
pub record CanBeSaved (v : PlanFormValues) : Type 0 where
  pub name : is_empty (trim v.name) ≡ false
  pub filled : is_empty (trim v.code) ≡ false
  pub code : is_role_code v.code ≡ true
  pub monthly : is_negative v.monthly_cents ≡ false
  pub yearly : is_negative v.yearly_cents ≡ false
  pub sites : is_below_one v.max_sites ≡ false

submit-CanBeSaved :
    (k : Kind) (i : ℕ) (v : PlanFormValues)
    → CanBeSaved v
    → submit_plan (record { kind = k; plan_id = i; values = v }) ≡ save k i v
unfolding submit_plan
submit-CanBeSaved k i v c = rw (c.filled, c.name, c.code, c.monthly, c.yearly, c.sites) refl

-- Nothing else is sent.
abbrev pub IsSave : PlanSubmit → Type 0
IsSave (create_plan r) = Unit {0}
IsSave (update_plan i r) = Unit {0}
IsSave _ = ⊥

save-IsSave : (k : Kind) (i : ℕ) (v : PlanFormValues) → IsSave (save k i v)
save-IsSave create i v = tt
save-IsSave edit i v = tt

save_by_kind :
    (k : Kind) (i : ℕ) (v : PlanFormValues)
    → save k i v ≡ (if is_edit k then update_plan i (plan_changes v) else create_plan (new_plan v))
save_by_kind create i v = refl
save_by_kind edit i v = refl

IsSave-CanBeSaved : (m : PlanModal) → IsSave (submit_plan m) → CanBeSaved m.values
unfolding submit_plan
IsSave-CanBeSaved m =
    let v = m.values in
    elim (Bool-cases (is_empty (trim v.code) || is_empty (trim v.name))) [
      | inl y ↦ rw y (λ h. elim h [ ])
      | inr a ↦ rw a (elim (Bool-cases (is_role_code v.code)) [
        | inr y ↦ rw y (λ h. elim h [ ])
        | inl b ↦
            rw b (elim (Bool-cases (is_negative v.monthly_cents || is_negative v.yearly_cents)) [
              | inl y ↦ rw y (λ h. elim h [ ])
              | inr c ↦ rw c (elim (Bool-cases (is_below_one v.max_sites)) [
                | inl y ↦ rw y (λ h. elim h [ ])
                | inr d ↦ rw d (λ h. record {
                  name = ground (arith, a);
                  filled = ground (arith, a);
                  code = b;
                  monthly = ground (arith, c);
                  yearly = ground (arith, c);
                  sites = d;
                })
              ])
            ])
      ])
    ]

-- The dialog sends something exactly when the form can be saved; a new plan is sent with its code
-- and without a mark, a changed one under its own number, without a code, and in both all other
-- values are those of the form.
pub submit_plan_iff :
    (m : PlanModal)
    → (IsSave (submit_plan m) ↔ CanBeSaved m.values)
      × (CanBeSaved m.values
          → submit_plan m ≡ (
              if is_edit m.kind
              then update_plan m.plan_id (plan_changes m.values)
              else create_plan (new_plan m.values)))
submit_plan_iff m =
    let e = submit-CanBeSaved m.kind m.plan_id m.values in
    (
      (IsSave-CanBeSaved m, λ c. subst IsSave (sym (e c)) (save-IsSave m.kind m.plan_id m.values)),
      λ c. e c ∙ save_by_kind m.kind m.plan_id m.values,
    )

set_value-code : (c : Change) (v : PlanFormValues) → (set_value edit c v).code ≡ v.code
set_value-code (set_code t) v = refl
set_value-code (set_name t) v = refl
set_value-code (set_description t) v = refl
set_value-code (set_tier_rank n) v = refl
set_value-code (set_monthly_cents n) v = refl
set_value-code (set_yearly_cents n) v = refl
set_value-code (set_max_sites n) v = refl
set_value-code (set_is_active a) v = refl

set_value-is_active :
    (c : Change) (v : PlanFormValues) → (set_value create c v).is_active ≡ v.is_active
set_value-is_active (set_code t) v = refl
set_value-is_active (set_name t) v = refl
set_value-is_active (set_description t) v = refl
set_value-is_active (set_tier_rank n) v = refl
set_value-is_active (set_monthly_cents n) v = refl
set_value-is_active (set_yearly_cents n) v = refl
set_value-is_active (set_max_sites n) v = refl
set_value-is_active (set_is_active a) v = refl

-- Whatever the user does to the form of a plan that exists, its code stays, and whatever he does to
-- that of a new plan, it stays active.
pub set_values-locked :
    (cs : List Change) (v : PlanFormValues)
    → ((set_values edit cs v).code ≡ v.code) × ((set_values create cs v).is_active ≡ v.is_active)
unfolding set_values
set_values-locked [] v = (refl, refl)
set_values-locked (c ∷ cs) v = (
  (set_values-locked cs (set_value edit c v)).0 ∙ set_value-code c v,
  (set_values-locked cs (set_value create c v)).1 ∙ set_value-is_active c v,
)
