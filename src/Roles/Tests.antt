-- ===== src/Roles/Tests.antt =====
-- Dialogs on concrete roles.
use dmtool.Base.{◌≡◌, ◌≢◌, refl, true, List, [], ◌∷◌, none, some, codes, text_eq, trim}
use dmtool.Roles.{
  type_code, type_name, create, edit, Role, admin_access, includes, toggle, submit, create_role,
  no_access, Event, toggled, typed_code, typed_name, run, open_dialog, initial_values, is_role_code,
  empty_form,
}
use dmtool.Roles.Permissions.{Says, submit_lem, run-keeps_access, toggle_twice}

abbrev support : Role
support = record {
  id = 4;
  code = codes "support";
  name = codes "Support";
  description = none;
  permissions = some (admin_access ∷ codes "users.read" ∷ []);
}

abbrev typing : List Event
typing = typed_code (codes "qa_2") ∷ typed_name (codes "QA") ∷ toggled admin_access ∷ []

created :
    submit (run (open_dialog create none) typing)
    ≡ create_role (record empty_form { code = codes "qa_2"; name = codes "QA" })
unfolding submit run open_dialog initial_values empty_form toggle is_role_code type_code type_name
    text_eq trim
created = refl

submit_example : Says (open_dialog edit (some support)) (submit (open_dialog edit (some support)))
submit_example = submit_lem (open_dialog edit (some support))

starts_with_access : includes admin_access (initial_values none).permissions ≡ true
unfolding initial_values empty_form text_eq
starts_with_access = refl

run-keeps_access_example :
    (includes admin_access (run (open_dialog create none) typing).values.permissions ≡ true)
    × (submit (run (open_dialog create none) typing) ≢ no_access)
run-keeps_access_example = run-keeps_access create none typing starts_with_access

other : codes "users.read" ≢ admin_access
other = λ e. cc

toggle_twice_example :
    includes
      (codes "users.read")
      (toggle
        (codes "users.read")
        (toggle (codes "users.read") (open_dialog edit (some support)))).values.permissions
    ≡ includes (codes "users.read") (open_dialog edit (some support)).values.permissions
unfolding open_dialog
toggle_twice_example =
    toggle_twice (open_dialog edit (some support)) (codes "users.read") (codes "users.read") refl
      other
