-- ===== src/Roles/Permissions.antt =====
-- What the dialog keeps and what it sends.
use dmtool.Base.{
  ◌≡◌, ◌≢◌, refl, ap, ◌∙◌, ◌⊎◌, inl, inr, true, false, not, ◌&&◌, ◌||◌, List, [], ◌∷◌, ◌++◌, Option,
  none, some, Text, text_eq, text_eq_iff, is_empty, trim, filter, if◌then◌else◌, arith, Bool-cases,
}
use dmtool.Roles.{
  Dialog, Mode, create, edit, view, Role, admin_access, includes, flip_permission, toggle, is_view,
  is_role_code, submit, Submit, create_role, update_role, send, ignored, required, bad_code,
  no_access, saved_nothing, type_code, type_name, type_description, Event, toggled, typed_code,
  typed_name, typed_description, step, run, open_dialog, is_create, initial_values,
}

pub includes-append :
    (t u : Text) (ps : List Text) → includes t (ps ++ u ∷ []) ≡ (includes t ps || text_eq u t)
includes-append t u [] = ground arith
includes-append t u (p ∷ ps) = ground (arith, includes-append t u ps)

pub includes-filter :
    (t u : Text) (ps : List Text)
    → includes t (filter (λ c. not (text_eq c u)) ps) ≡ (not (text_eq t u) && includes t ps)
includes-filter t u [] = ground arith
includes-filter t u (p ∷ ps) =
    ground (arith, includes-filter t u ps, text_eq_iff p u, text_eq_iff p t, text_eq_iff t u)

-- The boxes after a click on one: that box is the opposite of what it was, every other is as it
-- was.
flip-includes :
    (t u : Text) (ps : List Text)
    → includes t (flip_permission u ps)
      ≡ (if text_eq t u then not (includes t ps) else includes t ps)
flip-includes t u ps =
    ground (arith, includes-append t u ps, includes-filter t u ps, text_eq_iff t u, text_eq_iff u t)

-- The dialog after a click on a box that may be clicked.
abbrev flipped : Text → Dialog → Dialog
flipped u d = record d {
  values = record d.values { permissions = flip_permission u d.values.permissions };
}

-- Toggling twice, a permission other than the one that opens the administration: each box of a
-- dialog that is not a view is as it was.
pub toggle_twice :
    (d : Dialog) (t u : Text)
    → is_view d.mode ≡ false
    → u ≢ admin_access
    → includes t (toggle u (toggle u d)).values.permissions ≡ includes t d.values.permissions
unfolding toggle
toggle_twice d t u w n =
    let e : text_eq u admin_access ≡ false = ground (arith, text_eq_iff u admin_access) in
    let once : toggle u d ≡ flipped u d = rw (w, e) refl in
    let twice : toggle u (flipped u d) ≡ flipped u (flipped u d) = rw (w, e) refl in
    ap (λ x. includes t x.values.permissions) (ap (toggle u) once ∙ twice)
    ∙ ground (
      arith,
      flip-includes t u d.values.permissions,
      flip-includes t u (flip_permission u d.values.permissions),
    )

toggle-mode : (u : Text) (d : Dialog) → (toggle u d).mode ≡ d.mode
unfolding toggle
toggle-mode u d = ground arith

step-mode : (d : Dialog) (e : Event) → (step d e).mode ≡ d.mode
unfolding type_code type_name type_description
step-mode d (toggled c) = toggle-mode c d
step-mode d (typed_code t) = ground arith
step-mode d (typed_name t) = ground arith
step-mode d (typed_description t) = ground arith

toggle-includes :
    (u : Text) (d : Dialog)
    → includes admin_access d.values.permissions ≡ true
    → includes admin_access (toggle u d).values.permissions ≡ true
unfolding toggle
toggle-includes u d h = elim (Bool-cases (is_view d.mode || text_eq u admin_access)) [
  | inl y ↦ rw y h
  | inr n ↦ rw n (
      ground (
        arith,
        n,
        h,
        flip-includes admin_access u d.values.permissions,
        text_eq_iff u admin_access,
        text_eq_iff admin_access u,
      ))
]

step-includes :
    (d : Dialog) (e : Event)
    → includes admin_access d.values.permissions ≡ true
    → includes admin_access (step d e).values.permissions ≡ true
unfolding type_code type_name type_description
step-includes d (toggled c) h = toggle-includes c d h
step-includes d (typed_code t) h = elim (Bool-cases (is_create d.mode)) [
  | inl y ↦ rw y h
  | inr n ↦ rw n h
]
step-includes d (typed_name t) h = elim (Bool-cases (is_view d.mode)) [
  | inl y ↦ rw y h
  | inr n ↦ rw n h
]
step-includes d (typed_description t) h = elim (Bool-cases (is_view d.mode)) [
  | inl y ↦ rw y h
  | inr n ↦ rw n h
]

run-includes :
    (es : List Event) (d : Dialog)
    → includes admin_access d.values.permissions ≡ true
    → includes admin_access (run d es).values.permissions ≡ true
unfolding run
run-includes [] d h = h
run-includes (e ∷ es) d h = run-includes es (step d e) (step-includes d e h)

run-mode : (es : List Event) (d : Dialog) → (run d es).mode ≡ d.mode
unfolding run
run-mode [] d = refl
run-mode (e ∷ es) d = run-mode es (step d e) ∙ step-mode d e

-- What each of the answers to a submit says of the dialog.
abbrev pub Says : Dialog → Submit → Type 0
Says d ignored = d.mode ≡ view
Says d required = (is_empty (trim d.values.name) ≡ true) ⊎ (is_empty (trim d.values.code) ≡ true)
Says d bad_code = (d.mode ≡ create) × (is_role_code d.values.code ≡ false)
Says d no_access = includes admin_access d.values.permissions ≡ false
Says d (create_role v) =
    (d.mode ≡ create)
    × (v ≡ d.values)
    × (is_empty (trim v.name) ≡ false)
    × (is_role_code v.code ≡ true)
    × (includes admin_access v.permissions ≡ true)
Says d (update_role i name description permissions) =
    (d.mode ≡ edit)
    × (name ≡ d.values.name)
    × (description ≡ d.values.description)
    × (permissions ≡ d.values.permissions)
    × (is_empty (trim name) ≡ false)
    × (includes admin_access permissions ≡ true)
Says d saved_nothing = (d.mode ≡ edit) × (d.role ≡ none)

Says-send :
    (m : Mode) (o : Option Role) (d : Dialog)
    → d.mode ≡ m
    → d.role ≡ o
    → is_view m ≡ false
    → is_empty (trim d.values.name) ≡ false
    → (is_create m ≡ true → is_role_code d.values.code ≡ true)
    → includes admin_access d.values.permissions ≡ true
    → Says d (send m o d.values)
Says-send create o d e r w n c p = (e, refl, n, c refl, p)
Says-send edit (some x) d e r w n c p = (e, refl, refl, refl, n, p)
Says-send edit none d e r w n c p = (e, r)
Says-send view o d e r w n c p = cc

view_mode : (m : Mode) → is_view m ≡ true → m ≡ view
view_mode view h = refl
view_mode create h = cc
view_mode edit h = cc

create_mode : (m : Mode) → is_create m ≡ true → m ≡ create
create_mode create h = refl
create_mode view h = cc
create_mode edit h = cc

submit_sends :
    (d : Dialog)
    → is_view d.mode ≡ false
    → is_empty (trim d.values.name) ≡ false
    → (is_create d.mode ≡ true → is_role_code d.values.code ≡ true)
    → Says d (
        if not (includes admin_access d.values.permissions)
        then no_access
        else send d.mode d.role d.values)
submit_sends d w n c = elim (Bool-cases (includes admin_access d.values.permissions)) [
  | inl y ↦ rw y (Says-send d.mode d.role d refl refl w n c y)
  | inr r ↦ rw r r
]

-- A submit sends a role only when its name is not blank, it has the permission that opens the
-- administration and, for a new role, its code is a role code; what it sends is what the dialog
-- shows. It does nothing in a view, and each refusal has the reason that it names.
pub submit_lem : (d : Dialog) → Says d (submit d)
unfolding submit
submit_lem d = elim (Bool-cases (is_view d.mode)) [
  | inl y ↦ rw y (view_mode d.mode y)
  | inr w ↦
      rw w
        (elim (Bool-cases
          (is_empty (trim d.values.name) || is_create d.mode && is_empty (trim d.values.code))) [
            | inl y ↦ rw y (ground (arith, y))
            | inr n ↦
                rw n (elim (Bool-cases (is_create d.mode && not (is_role_code d.values.code))) [
                  | inl y ↦ rw y (create_mode d.mode (ground (arith, y)), ground (arith, y))
                  | inr c ↦ rw c (submit_sends d w (ground (arith, n)) (λ m. ground (arith, c, m)))
                ])
          ])
]

Says-no_access :
    (d : Dialog) (r : Submit)
    → Says d r
    → includes admin_access d.values.permissions ≡ true
    → r ≢ no_access
Says-no_access d no_access h i e = cc
Says-no_access d ignored h i e = cc
Says-no_access d required h i e = cc
Says-no_access d bad_code h i e = cc
Says-no_access d (create_role v) h i e = cc
Says-no_access d (update_role i name description permissions) h j e = cc
Says-no_access d saved_nothing h i e = cc

-- Whatever is typed and clicked in a dialog that starts with the permission that opens the
-- administration, as the one for a new role does, the permission stays, and a submit is never
-- refused for the lack of it.
pub run-keeps_access :
    (mode : Mode) (role : Option Role) (es : List Event)
    → includes admin_access (initial_values role).permissions ≡ true
    → (includes admin_access (run (open_dialog mode role) es).values.permissions ≡ true)
      × (submit (run (open_dialog mode role) es) ≢ no_access)
unfolding open_dialog
run-keeps_access mode role es h =
    let d = run (open_dialog mode role) es in
    let k = run-includes es (open_dialog mode role) h in
    (k, Says-no_access d (submit d) (submit_lem d) k)
