-- ===== src/Insights/Counting.antt =====
-- The numbers that frontend/app/(dashboard)/social/insights/page.tsx shows, what a click on Dismiss
-- takes away.
use dmtool.Base.{
  ℕ, ◌+◌, ◌≡◌, refl, ap, ◌∙◌, Bool, true, false, not, ◌&&◌, ◌||◌, List, [], ◌∷◌, ◌++◌, Text, codes,
  text_eq, filter, any, length, ◌==◌, ==_iff, arith, Bool-cases, inl, inr,
}
use dmtool.Insights.{
  Insight, Social, is_dismissed, passes, filtered_insights, social_insights_only, count_of,
  critical_count, opp_count, dismiss, set_filter,
}

-- The state without what is dismissed.
abbrev set_dismissed : Social → Social
set_dismissed d = record d { dismissed = [] }

module _ {A : Type 0} where
  -- Filters by two tests and by both at once.
  length-filter :
      (p q r : A → Bool) (xs : List A)
      → ((x : A) → r x ≡ (p x && q x))
      → length (filter p (filter q xs)) ≡ length (filter r xs)
  length-filter p q r [] h = refl
  length-filter p q r (x ∷ xs) h =
      let rest = length-filter p q r xs h in
      let e = h x in
      elim (Bool-cases (q x)) [
        | inl y ↦ elim (Bool-cases (p x)) [
          | inl z ↦
              let f : r x ≡ true = ground (arith, e, y, z) in rw (y, z, f) (omega (arith, rest))
          | inr z ↦ let f : r x ≡ false = ground (arith, e, y, z) in rw (y, z, f) rest
        ]
        | inr n ↦ let f : r x ≡ false = ground (arith, e, n) in rw (n, f) rest
      ]

  filter-length :
      (p : A → Bool) (xs : List A)
      → length (filter (λ x. not (p x)) xs) + length (filter p xs) ≡ length xs
  filter-length p [] = refl
  filter-length p (x ∷ xs) = elim (Bool-cases (p x)) [
    | inl y ↦ rw y (omega (arith, filter-length p xs))
    | inr n ↦ rw n (omega (arith, filter-length p xs))
  ]

  filter-both :
      (p q r s : A → Bool) (xs : List A)
      → ((x : A) → s x ≡ (r x && q x))
      → filter p (filter s xs) ≡ filter q (filter p (filter r xs))
  filter-both p q r s [] h = refl
  filter-both p q r s (x ∷ xs) h =
      let rest = filter-both p q r s xs h in
      let e = h x in
      elim (Bool-cases (r x)) [
        | inl y ↦ elim (Bool-cases (q x)) [
          | inl z ↦
              let f : s x ≡ true = ground (arith, e, y, z) in
              elim (Bool-cases (p x)) [
                | inl k ↦ rw (y, f, k, z, rest) refl
                | inr k ↦ rw (y, f, k, rest) refl
              ]
          | inr z ↦
              let f : s x ≡ false = ground (arith, e, y, z) in
              elim (Bool-cases (p x)) [
                | inl k ↦ rw (y, f, k, z, rest) refl
                | inr k ↦ rw (y, f, k, rest) refl
              ]
        ]
        | inr n ↦ let f : s x ≡ false = ground (arith, e, n) in rw (n, f, rest) refl
      ]

module _ (to_lower : Text → Text) where
  filtered-count_of :
      (f : Text) (d : Social)
      → text_eq f (codes "all") ≡ false
      → length (filtered_insights to_lower (set_filter f d)) ≡ count_of to_lower f d
  unfolding filtered_insights
  filtered-count_of f d n =
      length-filter (passes to_lower f) (λ i. not (is_dismissed to_lower d i))
        (λ i. text_eq i.kind f && not (is_dismissed to_lower d i)) (social_insights_only to_lower d)
        (λ i. rw n refl)

  -- The number of critical insights and that of opportunities is the number of those that the page
  -- lists under that filter; the number on the button of all insights is that of the insights it
  -- lists and of those that are dismissed.
  pub filtered_insights-counts :
      (d : Social)
      → (length (filtered_insights to_lower (set_filter (codes "CRITICAL") d))
          ≡ critical_count to_lower d)
        × (length (filtered_insights to_lower (set_filter (codes "OPPORTUNITY") d))
            ≡ opp_count to_lower d)
        × (length (filtered_insights to_lower (set_filter (codes "all") d))
              + length (filter (is_dismissed to_lower d) (social_insights_only to_lower d))
            ≡ length (social_insights_only to_lower d))
  unfolding filtered_insights critical_count opp_count
  filtered_insights-counts d = (
    filtered-count_of (codes "CRITICAL") d (unfold text_eq in refl),
    filtered-count_of (codes "OPPORTUNITY") d (unfold text_eq in refl),
    ap (λ n. n + length (filter (is_dismissed to_lower d) (social_insights_only to_lower d)))
          (length-filter (passes to_lower (codes "all")) (λ i. not (is_dismissed to_lower d i))
            (λ i. not (is_dismissed to_lower d i)) (social_insights_only to_lower d)
            (λ i. unfold text_eq in refl))
        ∙ filter-length (is_dismissed to_lower d) (social_insights_only to_lower d),
  )

  any-append : (p : ℕ → Bool) (n : ℕ) (ns : List ℕ) → any p (ns ++ n ∷ []) ≡ (any p ns || p n)
  any-append p n [] = ground arith
  any-append p n (m ∷ ns) = ground (arith, any-append p n ns)

  any_equal :
      (n i : ℕ) (ns : List ℕ) → any (λ m. m == n) ns ≡ true → i ≡ n → any (λ m. m == i) ns ≡ true
  any_equal n i ns h e = ap (λ k. any (λ m. m == k) ns) e ∙ h

  is_dismissed-dismiss :
      (n : ℕ) (d : Social) (i : Insight)
      → is_dismissed to_lower (dismiss n d) i ≡ (is_dismissed to_lower d i || i.id == n)
  unfolding dismiss
  is_dismissed-dismiss n d i = elim (Bool-cases (any (λ m. m == n) d.dismissed)) [
    | inl y ↦ elim (Bool-cases (i.id == n)) [
      | inl e ↦
          let same = (==_iff i.id n).0 e in
          rw y (any_equal n i.id d.dismissed y same ∙ ground (arith, e))
      | inr e ↦ rw y (ground (arith, e))
    ]
    | inr m ↦ rw m (any-append (λ m. m == i.id) n d.dismissed ∙ ground arith)
  ]

  dismiss_keeps : (n : ℕ) (d : Social) → set_dismissed (dismiss n d) ≡ set_dismissed d
  unfolding dismiss
  dismiss_keeps n d = elim (Bool-cases (any (λ m. m == n) d.dismissed)) [
    | inl y ↦ rw y refl
    | inr m ↦ rw m refl
  ]

  -- A click on Dismiss takes the insights of that number off the list, and leaves the others in
  -- their order.
  pub filtered_insights-dismiss :
      (n : ℕ) (d : Social)
      → filtered_insights to_lower (dismiss n d)
        ≡ filter (λ i. not (i.id == n)) (filtered_insights to_lower d)
  unfolding filtered_insights
  filtered_insights-dismiss n d =
      let kept = dismiss_keeps n d in
      ap
        (λ e. filter (passes to_lower e.filter_on) (
          filter (λ i. not (is_dismissed to_lower (dismiss n d) i))
            (social_insights_only to_lower e)))
        kept
      ∙ filter-both (passes to_lower d.filter_on) (λ i. not (i.id == n))
          (λ i. not (is_dismissed to_lower d i)) (λ i. not (is_dismissed to_lower (dismiss n d) i))
          (social_insights_only to_lower d) (λ i. ground (arith, is_dismissed-dismiss n d i))
