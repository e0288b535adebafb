-- ===== src/AdminUser/Tests.antt =====
-- Concrete inputs for the actions on a user.
use dmtool.Base.{ℕ, ◌≡◌, refl, [], none, some, codes, returned, text_eq}
use dmtool.AdminUser.{User, Edit, Details, UserPage, opened, account_button, suspend, refresh}
use dmtool.AdminUser.Ends.{ActionsEnd, actions_end}

abbrev ann : User
ann = record {
  id = 7;
  email = codes "ann@x.org";
  name = codes "Ann";
  role = codes "owner";
  disabled_at = none;
}

abbrev ann_details : Details ℕ ℕ
ann_details = record { user = ann; subscription = 0; audit_log = [] }

ann_page : UserPage ℕ ℕ ℕ
unfolding refresh
ann_page = refresh (returned ann_details) opened

abbrev ann_edit : Edit
ann_edit = record { name = codes "Anna"; email = codes "ann@x.org"; role = codes "owner" }

button_run : account_button ann ≡ some suspend
unfolding account_button text_eq
button_run = refl

user_actions_example :
    ActionsEnd (returned tt) (returned ann_details) ann_page ann_edit (codes "spam")
user_actions_example =
    actions_end (returned tt) (returned ann_details) ann_page ann_edit (codes "spam")
