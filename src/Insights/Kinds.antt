-- ===== src/Insights/Kinds.antt =====
-- How frontend/app/(dashboard)/ai-insights/page.tsx reads the kinds of the insights. The server
-- writes CRITICAL, OPPORTUNITY or INFO (backend/internal/models/insight.go); the page compares with
-- the words in lower case.
use dmtool.Base.{
  ℕ, zero, suc, ◌≤◌, ◌≡◌, refl, ap, ◌∙◌, sym, Bool, true, false, ◌||◌, List, [], ◌∷◌, ◌++◌, map,
  Option, none, some, Text, codes, All, text_eq, text_eq_iff, filter, length, arith, Bool-cases,
  ◌⊎◌, inl, inr,
}
use mathlib.Core.Path.{subst}
use dmtool.ActionCenter.Figures.{take}
use dmtool.Insights.Ai.{
  Raw, Card, brand, is_kind, color_of, to_card, of_kind, opportunities, warnings, criticals,
  predictive_cards, kind_passes, filtered_cards, count_by_type, Ai,
}

-- A kind that the server writes.
abbrev pub IsServerKind : Option Text → Type 0
IsServerKind k =
    is_kind (codes "CRITICAL") k || is_kind (codes "OPPORTUNITY") k || is_kind (codes "INFO") k
    ≡ true

module _ {A : Type 0} where
  length-take : (n : ℕ) (xs : List A) → length (take n xs) ≤ n
  length-take zero xs = omega arith
  length-take (suc n) [] = omega arith
  length-take (suc n) (x ∷ xs) = omega (arith, length-take n xs)

  take-append : (n : ℕ) (xs ys : List A) → n ≤ length xs → take n (xs ++ ys) ≡ take n xs
  take-append zero xs ys h = refl
  take-append (suc n) [] ys h = absurd (omega (arith, h))
  take-append (suc n) (x ∷ xs) ys h = ap (λ t. x ∷ t) (take-append n xs ys (omega (arith, h)))

-- The cards of what is coming: three at most, and where there are three opportunities they are all
-- that is shown, whatever is critical.
pub predictive_cards_bounds :
    (is : List Card)
    → (length (predictive_cards is) ≤ 3)
      × (3 ≤ length (opportunities is) → predictive_cards is ≡ take 3 (opportunities is))
unfolding predictive_cards
predictive_cards_bounds is = (
  length-take 3 (opportunities is ++ (warnings is ++ criticals is)),
  λ h. take-append 3 (opportunities is) (warnings is ++ criticals is) h,
)

server_kinds :
    (k : Option Text)
    → IsServerKind k
    → (k ≡ some (codes "CRITICAL")) ⊎ (k ≡ some (codes "OPPORTUNITY")) ⊎ (k ≡ some (codes "INFO"))
server_kinds none h = absurd (ground arith)
server_kinds (some t) h = elim (Bool-cases (text_eq t (codes "CRITICAL"))) [
  | inl y ↦ inl (ap some ((text_eq_iff t (codes "CRITICAL")).0 y))
  | inr n ↦ elim (Bool-cases (text_eq t (codes "OPPORTUNITY"))) [
    | inl y ↦ inr (inl (ap some ((text_eq_iff t (codes "OPPORTUNITY")).0 y)))
    | inr m ↦ inr (inr (ap some ((text_eq_iff t (codes "INFO")).0 (ground arith))))
  ]
]

-- What holds of the three kinds holds of every kind that the server writes.
by_server_kind :
    (P : Option Text → Type 0)
    → P (some (codes "CRITICAL"))
    → P (some (codes "OPPORTUNITY"))
    → P (some (codes "INFO"))
    → (k : Option Text) → IsServerKind k
    → P k
by_server_kind P a b c k h = elim (server_kinds k h) [
  | inl e ↦ subst P (sym e) a
  | inr (inl e) ↦ subst P (sym e) b
  | inr (inr e) ↦ subst P (sym e) c
]

unread_kind :
    (k : Option Text)
    → IsServerKind k
    → (is_kind (codes "critical") k ≡ false)
      × (is_kind (codes "opportunity") k ≡ false)
      × (is_kind (codes "warning") k ≡ false)
      × (color_of k ≡ brand)
unfolding color_of text_eq
unread_kind =
    by_server_kind
      (λ k.
        (is_kind (codes "critical") k ≡ false)
        × (is_kind (codes "opportunity") k ≡ false)
        × (is_kind (codes "warning") k ≡ false)
        × (color_of k ≡ brand))
      (refl, refl, refl, refl) (refl, refl, refl, refl) (refl, refl, refl, refl)

filter_nothing : (p : Card → Bool) (is : List Card) → All (λ i. p i ≡ false) is → filter p is ≡ []
filter_nothing p [] h = refl
filter_nothing p (i ∷ is) (n, h) = rw n (filter_nothing p is h)

-- The cards of an answer of the server.
abbrev pub FromServer : List Raw → Type 0
FromServer raws = All (λ r. IsServerKind r.kind) raws

none_of :
    (t : Text) (raws : List Raw)
    → ((k : Option Text) → IsServerKind k → is_kind t k ≡ false)
    → FromServer raws
    → of_kind t (map to_card raws) ≡ []
unfolding to_card
none_of t [] f h = refl
none_of t (r ∷ raws) f (k, h) = rw (f r.kind k) (none_of t raws f h)

nothing_predicted :
    (is : List Card)
    → of_kind (codes "opportunity") is ≡ []
    → of_kind (codes "warning") is ≡ []
    → of_kind (codes "critical") is ≡ []
    → predictive_cards is ≡ []
unfolding predictive_cards
nothing_predicted is o w c = rw (o, w, c) refl

brand_cards : (raws : List Raw) → FromServer raws → All (λ c. c.color ≡ brand) (map to_card raws)
unfolding to_card
brand_cards [] h = tt
brand_cards (r ∷ raws) (k, h) = ((unread_kind r.kind k).3, brand_cards raws h)

module _ (to_lower : Text → Text) where
  -- `toLowerCase` on the words that are compared.
  pub record LowersKinds : Type 0 where
    pub of_critical : to_lower (codes "CRITICAL") ≡ codes "critical"
    pub of_opportunity : to_lower (codes "OPPORTUNITY") ≡ codes "opportunity"
    pub of_info : to_lower (codes "INFO") ≡ codes "info"
    pub of_filter : to_lower (codes "critical") ≡ codes "critical"

  kind_passes-critical :
      LowersKinds
      → (k : Option Text) → IsServerKind k
      → kind_passes to_lower (codes "critical") k ≡ is_kind (codes "CRITICAL") k
  unfolding text_eq
  kind_passes-critical l =
      by_server_kind (λ k. kind_passes to_lower (codes "critical") k ≡ is_kind (codes "CRITICAL") k)
        (rw (l.of_critical, l.of_filter) refl) (rw (l.of_opportunity, l.of_filter) refl)
        (rw (l.of_info, l.of_filter) refl)

  listed_critical :
      (raws : List Raw)
      → LowersKinds
      → FromServer raws
      → filter (λ i. kind_passes to_lower (codes "critical") i.kind) (map to_card raws)
        ≡ of_kind (codes "CRITICAL") (map to_card raws)
  unfolding to_card
  listed_critical [] l h = refl
  listed_critical (r ∷ raws) l (k, h) =
      rw (kind_passes-critical l r.kind k, listed_critical raws l h) refl

  -- Of an answer whose insights are all critical, an opportunity or an information, as the server
  -- writes these kinds, the page counts no critical insight and no opportunity, colours no card by
  -- its kind and shows no card of what is coming, while its filter for the critical ones does list
  -- exactly those. `toLowerCase` must do its work on the words that are compared.
  pub cards_unread :
      (raws : List Raw) (d : Ai)
      → LowersKinds
      → FromServer raws
      → d.insights ≡ map to_card raws
      → (count_by_type (codes "critical") d ≡ 0)
        × (count_by_type (codes "opportunity") d ≡ 0)
        × All (λ c. c.color ≡ brand) d.insights
        × (predictive_cards d.insights ≡ [])
        × (filtered_cards to_lower (record d { filter_on = codes "critical" })
            ≡ of_kind (codes "CRITICAL") d.insights)
  unfolding count_by_type filtered_cards text_eq
  cards_unread raws d l h e =
      let c = none_of (codes "critical") raws (λ k s. (unread_kind k s).0) h in
      let o = none_of (codes "opportunity") raws (λ k s. (unread_kind k s).1) h in
      let w = none_of (codes "warning") raws (λ k s. (unread_kind k s).2) h in
      (
        ap (λ x. length (of_kind (codes "critical") x)) e ∙ ap length c,
        ap (λ x. length (of_kind (codes "opportunity") x)) e ∙ ap length o,
        subst (λ x. All (λ k. k.color ≡ brand) x) (sym e) (brand_cards raws h),
        ap predictive_cards e ∙ nothing_predicted (map to_card raws) o w c,
        ap (filter (λ i. kind_passes to_lower (codes "critical") i.kind)) e
            ∙ listed_critical raws l h
            ∙ ap (of_kind (codes "CRITICAL")) (sym e),
      )
