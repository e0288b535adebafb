-- ===== src/Projects/Latest/Sorting.antt =====
-- The order of the figures is total and transitive, and the sort sorts.
use dmtool.Base.{◌≡◌, ◌↔◌, true, false, List, [], ◌∷◌, All, arith, Bool-cases, inl, inr}
use mathlib.Core.List.{Memᴰ}
use dmtool.Projects.Latest.{Social, no_later, insert, sort}

pub no_later_refl : (a : Social) → no_later a a ≡ true
unfolding no_later
no_later_refl a = ground arith

no_later_total : (a b : Social) → no_later a b ≡ false → no_later b a ≡ true
unfolding no_later
no_later_total a b h = ground arith

no_later_trans : (a b c : Social) → no_later a b ≡ true → no_later b c ≡ true → no_later a c ≡ true
unfolding no_later
no_later_trans a b c h k = ground arith

abbrev pub IsFirst : Social → List Social → Type 0
IsFirst a bs = All (λ b. no_later a b ≡ true) bs

abbrev pub IsSorted : List Social → Type 0
IsSorted [] = Unit
IsSorted (a ∷ bs) = IsFirst a bs × IsSorted bs

IsFirst-trans :
    (a b : Social) (cs : List Social) → no_later a b ≡ true → IsFirst b cs → IsFirst a cs
IsFirst-trans a b [] h k = tt
IsFirst-trans a b (c ∷ cs) h (p, k) = (no_later_trans a b c h p, IsFirst-trans a b cs h k)

insert-IsFirst :
    (a b : Social) (cs : List Social) → no_later a b ≡ true → IsFirst a cs → IsFirst a (insert b cs)
unfolding insert
insert-IsFirst a b [] h k = (h, tt)
insert-IsFirst a b (c ∷ cs) h (p, k) = elim (Bool-cases (no_later b c)) [
  | inl y ↦ rw y (h, (p, k))
  | inr n ↦ rw n (p, insert-IsFirst a b cs h k)
]

insert-IsSorted : (a : Social) (bs : List Social) → IsSorted bs → IsSorted (insert a bs)
unfolding insert
insert-IsSorted a [] h = (tt, tt)
insert-IsSorted a (b ∷ bs) (p, h) = elim (Bool-cases (no_later a b)) [
  | inl y ↦ rw y ((y, IsFirst-trans a b bs y p), (p, h))
  | inr n ↦ rw n (insert-IsFirst b a bs (no_later_total a b n) p, insert-IsSorted a bs h)
]

pub sort-IsSorted : (items : List Social) → IsSorted (sort items)
unfolding sort
sort-IsSorted [] = tt
sort-IsSorted (a ∷ rest) = insert-IsSorted a (sort rest) (sort-IsSorted rest)

pub Memᴰ-IsFirst :
    (a b : Social) (cs : List Social) → IsFirst a cs → Memᴰ b cs → no_later a b ≡ true
Memᴰ-IsFirst a b [] h m = elim m [ ]
Memᴰ-IsFirst a b (c ∷ cs) (p, h) (Memᴰ.head e) = cc (e, p)
Memᴰ-IsFirst a b (c ∷ cs) (p, h) (Memᴰ.tail m) = Memᴰ-IsFirst a b cs h m

-- Two lists with the same members, below the same two heads in either order.
Memᴰ-swap :
    (a b x : Social) (bs cs : List Social)
    → Memᴰ x cs ↔ Memᴰ x (a ∷ bs)
    → Memᴰ x (b ∷ cs) ↔ Memᴰ x (a ∷ b ∷ bs)
Memᴰ-swap a b x bs cs h = (back, on)
  where
    back : Memᴰ x (b ∷ cs) → Memᴰ x (a ∷ b ∷ bs)
    back (Memᴰ.head e) = Memᴰ.tail (Memᴰ.head e)
    back (Memᴰ.tail m) = elim (h.0 m) [
      | Memᴰ.head e ↦ Memᴰ.head e
      | Memᴰ.tail k ↦ Memᴰ.tail (Memᴰ.tail k)
    ]

    on : Memᴰ x (a ∷ b ∷ bs) → Memᴰ x (b ∷ cs)
    on (Memᴰ.head e) = Memᴰ.tail (h.1 (Memᴰ.head e))
    on (Memᴰ.tail (Memᴰ.head e)) = Memᴰ.head e
    on (Memᴰ.tail (Memᴰ.tail k)) = Memᴰ.tail (h.1 (Memᴰ.tail k))

insert-Memᴰ : (a x : Social) (bs : List Social) → Memᴰ x (insert a bs) ↔ Memᴰ x (a ∷ bs)
unfolding insert
insert-Memᴰ a x [] = (λ m. m, λ m. m)
insert-Memᴰ a x (b ∷ bs) = elim (Bool-cases (no_later a b)) [
  | inl y ↦ rw y (λ m. m, λ m. m)
  | inr n ↦ rw n (Memᴰ-swap a b x bs (insert a bs) (insert-Memᴰ a x bs))
]

Memᴰ-cons :
    (a x : Social) (bs cs : List Social) → Memᴰ x bs ↔ Memᴰ x cs → Memᴰ x (a ∷ bs) ↔ Memᴰ x (a ∷ cs)
Memᴰ-cons a x bs cs h = (back, on)
  where
    back : Memᴰ x (a ∷ bs) → Memᴰ x (a ∷ cs)
    back (Memᴰ.head e) = Memᴰ.head e
    back (Memᴰ.tail m) = Memᴰ.tail (h.0 m)

    on : Memᴰ x (a ∷ cs) → Memᴰ x (a ∷ bs)
    on (Memᴰ.head e) = Memᴰ.head e
    on (Memᴰ.tail m) = Memᴰ.tail (h.1 m)

pub sort-Memᴰ : (x : Social) (items : List Social) → Memᴰ x (sort items) ↔ Memᴰ x items
unfolding sort
sort-Memᴰ x [] = (λ m. m, λ m. m)
sort-Memᴰ x (a ∷ rest) =
    let i = insert-Memᴰ a x (sort rest) in
    let j = Memᴰ-cons a x (sort rest) rest (sort-Memᴰ x rest) in
    (λ m. j.0 (i.0 m), λ m. i.1 (j.1 m))
