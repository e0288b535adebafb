-- ===== src/Proxy/Paths.antt =====
-- Which paths want a session.
use dmtool.Base.{
  ◌≡◌, ◌↔◌, ◌⊎◌, inl, inr, sym, ◌∙◌, Bool, true, false, ◌||◌, ◌++◌, append_assoc, Text, codes,
  text_eq, text_eq_iff, text_eq_refl, strip_prefix, strip_prefix-append, strip_prefix_sound, arith,
  Bool-cases, Option-cases,
}
use dmtool.Proxy.{is_protected, starts_with}

-- A page or what stands below it.
abbrev pub IsBelow : Text → Text → Type 0
IsBelow p s = (s ≡ p) ⊎ ((rest : Text) × (s ≡ p ++ (codes "/" ++ rest)))

starts_with_sound : (p s : Text) → starts_with p s ≡ true → (rest : Text) × (s ≡ p ++ rest)
starts_with_sound p s h = elim (Option-cases (strip_prefix p s)) [
  | inl missed ↦ absurd (cc (h, missed))
  | inr (rest, found) ↦ (rest, strip_prefix_sound p s found)
]

starts_with-append : (p s : Text) → starts_with p (p ++ s) ≡ true
starts_with-append p s = rw (strip_prefix-append p s, starts_with)

IsBelow-sound : (p s : Text) → (text_eq s p || starts_with (p ++ codes "/") s) ≡ true → IsBelow p s
IsBelow-sound p s h = elim (Bool-cases (text_eq s p)) [
  | inl same ↦ inl ((text_eq_iff s p).0 same)
  | inr other ↦
      let (rest, e) = starts_with_sound (p ++ codes "/") s (rw other at h) in
      inr (rest, e ∙ append_assoc p (codes "/") rest)
]

or_true_right : (x : Bool) {y : Bool} → y ≡ true → (x || y) ≡ true
or_true_right x h = ground arith

IsBelow-complete :
    (p s : Text) → IsBelow p s → (text_eq s p || starts_with (p ++ codes "/") s) ≡ true
IsBelow-complete p s (inl e) = rw (e, text_eq_refl p)
IsBelow-complete p s (inr (rest, e)) =
    let whole : s ≡ (p ++ codes "/") ++ rest = e ∙ sym (append_assoc p (codes "/") rest) in
    let starts : starts_with (p ++ codes "/") s ≡ true =
      rw whole (starts_with-append (p ++ codes "/") rest) in
    or_true_right (text_eq s p) starts

either : (x y : Bool) → (x || (y || false)) ≡ true → (x ≡ true) ⊎ (y ≡ true)
either x y h = ground arith

either_left : (x y : Bool) → x ≡ true → (x || (y || false)) ≡ true
either_left x y h = ground arith

either_right : (x y : Bool) → y ≡ true → (x || (y || false)) ≡ true
either_right x y h = ground arith

-- A path is protected exactly when it is /dashboard or /admin, or stands below one of them.
pub is_protected_iff :
    (s : Text)
    → (is_protected s ≡ true) ↔ (IsBelow (codes "/dashboard") s ⊎ IsBelow (codes "/admin") s)
unfolding is_protected
is_protected_iff s = (
  λ h. elim (either _ _ h) [
    | inl x ↦ inl (IsBelow-sound (codes "/dashboard") s x)
    | inr x ↦ inr (IsBelow-sound (codes "/admin") s x)
  ],
  λ h. elim h [
    | inl x ↦ either_left _ _ (IsBelow-complete (codes "/dashboard") s x)
    | inr x ↦ either_right _ _ (IsBelow-complete (codes "/admin") s x)
  ],
)
