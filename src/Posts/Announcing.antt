-- ===== src/Posts/Announcing.antt =====
-- What the effect of frontend/app/(dashboard)/system/calendar/page.tsx announces as the posts change.
use dmtool.Base.{
  ℕ, zero, suc, ◌+◌, ◌≤◌, ◌≡◌, refl, ap, ◌∙◌, Bool, true, false, ◌&&◌, List, [], ◌∷◌, ◌++◌, All,
  any, filter, length, ◌==◌, ==_iff, arith, Bool-cases, ◌⊎◌, inl, inr,
}
use dmtool.Posts.{Post, is_published}
use dmtool.Posts.Effects.{find_post, was_unpublished, has_any, announced}

-- The posts that are announced while the page shows one list after another, behind `previous`.
unfoldable pub announcements : List Post → List (List Post) → List Post
announcements previous [] = []
announcements previous (ps ∷ pss) = announced previous ps ++ announcements ps pss

-- How often a post of that number is in a list.
abbrev pub count : ℕ → List Post → ℕ
count i ps = length (filter (λ p. p.id == i) ps)

-- In the list, every post of that number is published.
abbrev pub IsOut : ℕ → List Post → Type 0
IsOut i ps = All (λ p. (p.id == i) ≡ true → is_published p ≡ true) ps

-- In the list, a post of that number is there and is published.
abbrev pub HasOut : ℕ → List Post → Type 0
HasOut i ps = any (λ p. p.id == i && is_published p) ps ≡ true

-- The server does not take a publication back: once a list shows the post as published, every later
-- one that has it shows it so. A list may lack the post, as that of another project does.
abbrev pub StaysOut : ℕ → List Post → List (List Post) → Type 0
StaysOut i ps [] = Unit
StaysOut i ps (qs ∷ pss) = (HasOut i ps → All (IsOut i) (qs ∷ pss)) × StaysOut i qs pss

StaysOut-later :
    (i : ℕ) (ps : List Post) (pss : List (List Post))
    → StaysOut i ps pss
    → HasOut i ps
    → All (IsOut i) pss
StaysOut-later i ps [] k h = tt
StaysOut-later i ps (qs ∷ pss) (f, k) h = f h

count-append : (i : ℕ) (ps qs : List Post) → count i (ps ++ qs) ≡ count i ps + count i qs
count-append i [] qs = omega arith
count-append i (p ∷ ps) qs = elim (Bool-cases (p.id == i)) [
  | inl y ↦ rw y (omega (arith, count-append i ps qs))
  | inr n ↦ rw n (count-append i ps qs)
]

count-filter_none :
    (f : Post → Bool) (i : ℕ) (ps : List Post)
    → ((p : Post) → (p.id == i) ≡ true → f p ≡ false)
    → count i (filter f ps) ≡ 0
count-filter_none f i [] h = refl
count-filter_none f i (p ∷ ps) h = elim (Bool-cases (p.id == i)) [
  | inl y ↦ rw (h p y) (count-filter_none f i ps h)
  | inr n ↦ elim (Bool-cases (f p)) [
    | inl z ↦ rw (z, n) (count-filter_none f i ps h)
    | inr z ↦ rw z (count-filter_none f i ps h)
  ]
]

count-filter_le : (f : Post → Bool) (i : ℕ) (ps : List Post) → count i (filter f ps) ≤ count i ps
count-filter_le f i [] = omega arith
count-filter_le f i (p ∷ ps) = elim (Bool-cases (p.id == i)) [
  | inl y ↦ elim (Bool-cases (f p)) [
    | inl z ↦ rw (z, y) (omega (arith, count-filter_le f i ps))
    | inr z ↦ rw (z, y) (omega (arith, count-filter_le f i ps))
  ]
  | inr n ↦ elim (Bool-cases (f p)) [
    | inl z ↦ rw (z, n) (count-filter_le f i ps)
    | inr z ↦ rw (z, n) (count-filter_le f i ps)
  ]
]

was_unpublished-IsOut :
    (i : ℕ) (ps : List Post) → IsOut i ps → was_unpublished (find_post i ps) ≡ false
unfolding find_post
was_unpublished-IsOut i [] h = refl
was_unpublished-IsOut i (p ∷ ps) (h, k) = elim (Bool-cases (p.id == i)) [
  | inl y ↦ rw (y, h y) refl
  | inr n ↦ rw n (was_unpublished-IsOut i ps k)
]

announced-IsOut :
    (i : ℕ) (previous ps : List Post) → IsOut i previous → count i (announced previous ps) ≡ 0
unfolding announced
announced-IsOut i previous ps h = elim (Bool-cases (has_any previous && has_any ps)) [
  | inl y ↦ rw y (
      count-filter_none (λ p. was_unpublished (find_post p.id previous) && is_published p) i ps
        (λ p e.
          let same = (==_iff p.id i).0 e in
          let out : was_unpublished (find_post p.id previous) ≡ false =
            ap (λ j. was_unpublished (find_post j previous)) same
            ∙ was_unpublished-IsOut i previous h in
          rw out refl))
  | inr n ↦ rw n refl
]

-- Where no list shows the post as anything but published, nothing is announced of it.
announcements-IsOut :
    (i : ℕ) (previous : List Post) (pss : List (List Post))
    → IsOut i previous
    → All (IsOut i) pss
    → count i (announcements previous pss) ≡ 0
unfolding announcements
announcements-IsOut i previous [] h k = refl
announcements-IsOut i previous (ps ∷ pss) h (o, k) = omega (
  arith,
  count-append i (announced previous ps) (announcements ps pss),
  announced-IsOut i previous ps h,
  announcements-IsOut i ps pss o k,
)

IsOut-none : (i : ℕ) (ps : List Post) → count i ps ≡ 0 → IsOut i ps
IsOut-none i [] h = tt
IsOut-none i (p ∷ ps) h = elim (Bool-cases (p.id == i)) [
  | inl y ↦ absurd (ground (arith, h, y))
  | inr n ↦ ((λ e. absurd (ground (arith, e, n))), IsOut-none i ps (ground (arith, h, n)))
]

-- Where the one post of that number passes a test that only published posts pass, it is out.
IsOut-filter :
    (f : Post → Bool) (i : ℕ) (ps : List Post)
    → ((p : Post) → f p ≡ true → is_published p ≡ true)
    → count i ps ≤ 1
    → 1 ≤ count i (filter f ps)
    → IsOut i ps
IsOut-filter f i [] g h k = tt
IsOut-filter f i (p ∷ ps) g h k = elim (Bool-cases (p.id == i)) [
  | inl y ↦
      let none_behind : count i ps ≡ 0 = ground (arith, h, y) in
      let le = count-filter_le f i ps in
      elim (Bool-cases (f p)) [
        | inl z ↦ ((λ e. g p z), IsOut-none i ps none_behind)
        | inr z ↦ absurd (ground (arith, k, z, le, none_behind))
      ]
  | inr n ↦ (
    (λ e. absurd (ground (arith, e, n))),
    IsOut-filter f i ps g (ground (arith, h, n)) (elim (Bool-cases (f p)) [
      | inl z ↦ ground (arith, k, z, n)
      | inr z ↦ ground (arith, k, z)
    ]),
  )
]

HasOut-filter :
    (f : Post → Bool) (i : ℕ) (ps : List Post)
    → ((p : Post) → f p ≡ true → is_published p ≡ true)
    → 1 ≤ count i (filter f ps)
    → HasOut i ps
HasOut-filter f i [] g k = absurd (omega (arith, k))
HasOut-filter f i (p ∷ ps) g k = elim (Bool-cases (p.id == i)) [
  | inl y ↦ elim (Bool-cases (f p)) [
    | inl z ↦ rw (y, g p z) refl
    | inr z ↦ ground (arith, HasOut-filter f i ps g (ground (arith, k, z)))
  ]
  | inr n ↦ rw n (
      HasOut-filter f i ps g (elim (Bool-cases (f p)) [
        | inl z ↦ ground (arith, k, z, n)
        | inr z ↦ ground (arith, k, z)
      ]))
]

announced-some :
    (i : ℕ) (previous ps : List Post)
    → count i ps ≤ 1
    → (count i (announced previous ps) ≡ 0)
      ⊎ ((count i (announced previous ps) ≤ 1) × HasOut i ps × IsOut i ps)
unfolding announced
announced-some i previous ps h = elim (Bool-cases (has_any previous && has_any ps)) [
  | inr n ↦ rw n (inl refl)
  | inl y ↦ rw y (by_count (count i (filter news ps)) refl)
]
  where
    news : Post → Bool
    news p = was_unpublished (find_post p.id previous) && is_published p

    by_count :
        (n : ℕ)
        → count i (filter news ps) ≡ n
        → (count i (filter news ps) ≡ 0)
          ⊎ ((count i (filter news ps) ≤ 1) × HasOut i ps × IsOut i ps)
    by_count zero e = inl e
    by_count (suc n) e = inr (
      omega (arith, count-filter_le news i ps, h),
      HasOut-filter news i ps (λ p z. ground (arith, z)) (omega (arith, e)),
      IsOut-filter news i ps (λ p z. ground (arith, z)) h (omega (arith, e)),
    )

-- Whatever lists the page shows one after another, it announces the publication of a post at most
-- once, where no list holds two posts of its number and, once a list has shown the post as
-- published, no later list shows it otherwise. Lists without the post may come at any place.
pub announcements_once :
    (i : ℕ) (previous : List Post) (pss : List (List Post))
    → All (λ ps. count i ps ≤ 1) pss
    → StaysOut i previous pss
    → count i (announcements previous pss) ≤ 1
unfolding announcements
announcements_once i previous [] u k = omega arith
announcements_once i previous (ps ∷ pss) (h, u) (f, k) = elim (announced-some i previous ps h) [
  | inl zero_now ↦ omega (
    arith,
    count-append i (announced previous ps) (announcements ps pss),
    zero_now,
    announcements_once i ps pss u k,
  )
  | inr (once, has, out) ↦ omega (
    arith,
    count-append i (announced previous ps) (announcements ps pss),
    once,
    announcements-IsOut i ps pss out (StaysOut-later i ps pss k has),
  )
]
