-- ===== src/Roles.antt =====
-- frontend/app/(dashboard)/admin/roles/page.tsx: the dialog in which an administrator creates and
-- edits a staff role.
pub mod Permissions
mod Tests
use dmtool.Base.{
  ℕ, ◌+◌, ◌≤◌, Bool, true, false, not, ◌&&◌, ◌||◌, List, [], ◌∷◌, ◌++◌, map, Option, none, some,
  Text, codes, text_eq, is_empty, trim, any, all, filter, length, leb, ◌==◌, if◌then◌else◌,
}

abbrev pub admin_access : Text
admin_access = codes "admin.access"

pub record RoleForm : Type 0 where
  pub code : Text
  pub name : Text
  pub description : Text
  pub permissions : List Text

pub data Mode : Type 0 where
  create edit view : Mode

-- What the dialog knows of the role that it was opened on; its permissions may be missing.
pub record Role : Type 0 where
  pub id : ℕ
  pub code : Text
  pub name : Text
  pub description : Option Text
  pub permissions : Option (List Text)

pub record Dialog : Type 0 where
  pub mode : Mode
  pub role : Option Role
  pub values : RoleForm

unfoldable pub empty_form : RoleForm
empty_form = record { code = []; name = []; description = []; permissions = admin_access ∷ [] }

abbrev pub or_empty {ℓ} : {A : Type ℓ} → Option (List A) → List A
or_empty none = []
or_empty (some l) = l

unfoldable pub initial_values : Option Role → RoleForm
unfolding empty_form
initial_values none = empty_form
initial_values (some r) = record {
  code = r.code;
  name = r.name;
  description = or_empty r.description;
  permissions = or_empty r.permissions;
}

unfoldable pub open_dialog : Mode → Option Role → Dialog
unfolding initial_values
open_dialog mode role = record { mode = mode; role = role; values = initial_values role }

abbrev pub is_view : Mode → Bool
is_view view = true
is_view _ = false

abbrev pub is_create : Mode → Bool
is_create create = true
is_create _ = false

abbrev pub includes : Text → List Text → Bool
includes t ts = any (λ u. text_eq u t) ts

abbrev pub flip_permission : Text → List Text → List Text
flip_permission code ps =
    if includes code ps then filter (λ c. not (text_eq c code)) ps else ps ++ code ∷ []

unfoldable pub toggle : Text → Dialog → Dialog
toggle code d = if is_view d.mode || text_eq code admin_access then d else record d {
  values = record d.values { permissions = flip_permission code d.values.permissions };
}

-- /^[a-z][a-z0-9_]{1,40}$/
abbrev pub is_lower : ℕ → Bool
is_lower c = leb 97 c && leb c 122

abbrev pub is_code_char : ℕ → Bool
is_code_char c = is_lower c || leb 48 c && leb c 57 || c == 95

unfoldable pub is_role_code : Text → Bool
is_role_code [] = false
is_role_code (c ∷ cs) = is_lower c && all is_code_char cs && leb 1 (length cs) && leb (length cs) 40

-- What a submit comes to: nothing, one of the error toasts, or a call of the API.
pub data Submit : Type 0 where
  ignored : Submit
  required bad_code no_access : Submit
  create_role : RoleForm → Submit
  update_role : ℕ → Text → Text → List Text → Submit
  saved_nothing : Submit

abbrev pub send : Mode → Option Role → RoleForm → Submit
send create role v = create_role v
send _ (some r) v = update_role r.id v.name v.description v.permissions
send _ none v = saved_nothing

unfoldable pub submit : Dialog → Submit
submit d =
    if is_view d.mode
    then ignored
    else if is_empty (trim d.values.name) || is_create d.mode && is_empty (trim d.values.code)
    then required
    else if is_create d.mode && not (is_role_code d.values.code)
    then bad_code
    else if not (includes admin_access d.values.permissions)
    then no_access
    else send d.mode d.role d.values

-- Typing into the fields, as far as they are enabled.
unfoldable pub type_code : Text → Dialog → Dialog
type_code t d = if is_create d.mode then record d { values = record d.values { code = t } } else d

unfoldable pub type_name : Text → Dialog → Dialog
type_name t d = if is_view d.mode then d else record d { values = record d.values { name = t } }

unfoldable pub type_description : Text → Dialog → Dialog
type_description t d =
    if is_view d.mode then d else record d { values = record d.values { description = t } }

pub data Event : Type 0 where
  toggled typed_code typed_name typed_description : Text → Event

abbrev pub step : Dialog → Event → Dialog
step d (toggled c) = toggle c d
step d (typed_code t) = type_code t d
step d (typed_name t) = type_name t d
step d (typed_description t) = type_description t d

unfoldable pub run : Dialog → List Event → Dialog
run d [] = d
run d (e ∷ es) = run (step d e) es
