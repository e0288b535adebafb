-- ===== src/AdminUser/Ends.antt =====
-- What the actions on a user leave behind.
use dmtool.Base.{◌≡◌, refl, true, false, Option, none, some, Text, Outcome, threw, returned}
use dmtool.AdminUser.{
  Edit, Details, UserPage, update_user, reset_password, unsuspend_user, suspend_user, refresh, act,
  cancel_edit, save_edit, handle_reset_password, handle_unsuspend, handle_suspend,
}

module _ {S E V : Type 0} where
  -- The page that an action starts from and the one that it ends with: no action is under way, the
  -- tab and the activities are as before, and where the call failed or the user could not be read
  -- again, so are the user and the log.
  pub record IsDone (reply : Outcome (Unit {0})) (again : Outcome (Details S E))
      (before after : UserPage S E V) : Type 0 where
    pub free : after.busy ≡ false
    pub tab : after.active_tab ≡ before.active_tab
    pub activities : after.activities ≡ before.activities
    pub failed :
        reply ≡ threw
        → (after.user ≡ before.user)
          × (after.editing ≡ before.editing)
          × (after.loading ≡ before.loading)
    pub unread : again ≡ threw → after.user ≡ before.user
    pub read :
        (d : Details S E)
        → reply ≡ returned tt
        → again ≡ returned d
        → (after.user ≡ some d.user) × (after.loading ≡ false)

  -- The effect of a call on the form.
  act-IsDone :
      (form : Option Edit → Option Edit) (reply : Outcome (Unit {0}))
      → (again : Outcome (Details S E)) (s : UserPage S E V)
      → IsDone reply again s (act reply (λ t. record t { editing = form t.editing }) again s)
  unfolding refresh
  act-IsDone form threw again s = record {
    free = refl;
    tab = refl;
    activities = refl;
    failed = λ e. (refl, refl, refl);
    unread = λ e. refl;
    read = λ d e f. absurd (cc e);
  }
  act-IsDone form (returned _) threw s = record {
    free = refl;
    tab = refl;
    activities = refl;
    failed = λ e. absurd (cc e);
    unread = λ e. refl;
    read = λ d e f. absurd (cc f);
  }
  act-IsDone form (returned _) (returned c) s = record {
    free = refl;
    tab = refl;
    activities = refl;
    failed = λ e. absurd (cc e);
    unread = λ e. absurd (cc e);
    read = λ d e f. (cc f, refl);
  }

  saved_form :
      (reply : Outcome (Unit {0})) (again : Outcome (Details S E)) (s : UserPage S E V)
      → reply ≡ returned tt
      → (act reply cancel_edit again s).editing ≡ none
  unfolding refresh
  saved_form threw again s = λ h. absurd (cc h)
  saved_form (returned _) threw s = λ h. refl
  saved_form (returned _) (returned d) s = λ h. refl

-- What the four actions send and leave behind.
abbrev pub ActionsEnd :
    {S E V : Type 0}
    → Outcome (Unit {0})
    → Outcome (Details S E)
    → UserPage S E V
    → Edit
    → Text
    → Type 0
ActionsEnd reply again s e reason =
    (let t = record s { editing = some e } in
      (save_edit reply again t).0 ≡ some (update_user e)
      × IsDone reply again t (save_edit reply again t).1
      × (reply ≡ returned tt → (save_edit reply again t).1.editing ≡ none))
    × (save_edit reply again (record s { editing = none }) ≡ (none, record s { editing = none }))
    × ((handle_reset_password true reply again s).0 ≡ some reset_password)
    × IsDone reply again s (handle_reset_password true reply again s).1
    × (handle_reset_password false reply again s ≡ (none, s))
    × ((handle_unsuspend true reply again s).0 ≡ some unsuspend_user)
    × IsDone reply again s (handle_unsuspend true reply again s).1
    × (handle_unsuspend false reply again s ≡ (none, s))
    × ((handle_suspend (some reason) reply again s).0 ≡ some (suspend_user reason))
    × IsDone reply again s (handle_suspend (some reason) reply again s).1
    × (handle_suspend none reply again s ≡ (none, s))

-- Whatever the API answers: saving, resetting the password, reactivating and suspending end with the
-- page free again, show the user that was read where call and read succeed, and keep user, form and
-- log where the call fails; a save sends the form and closes it where it succeeds. A question that is
-- answered with no, a prompt that is cancelled and a save without a form send nothing and change
-- nothing.
pub actions_end :
    {S E V : Type 0} (reply : Outcome (Unit {0})) (again : Outcome (Details S E))
    → (s : UserPage S E V) (e : Edit) (reason : Text) → ActionsEnd reply again s e reason
unfolding save_edit handle_reset_password handle_unsuspend handle_suspend
actions_end reply again s e reason =
    let done = act-IsDone (λ x. x) reply again s in
    (
      (
        refl,
        act-IsDone (λ x. none) reply again (record s { editing = some e }),
        saved_form reply again (record s { editing = some e }),
      ),
      refl,
      refl,
      done,
      refl,
      refl,
      done,
      refl,
      refl,
      done,
      refl,
    )
