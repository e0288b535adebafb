-- ===== src/Keywords/Merging.antt =====
-- The merge keeps what is there and adds nothing twice over it, and the filters agree with the
-- labels.
use dmtool.Base.{
  ◌≡◌, ◌↔◌, refl, Bool, true, false, not, ◌||◌, List, [], ◌∷◌, ◌++◌, any, filter, Text, codes,
  text_eq, arith, Bool-cases, inl, inr, ap, ◌∙◌, text_eq_iff,
}
use dmtool.Keywords.{Keyword, easy, medium, hard, is_listed, difficulty_label, has_keyword, merge}

-- A filter lists a keyword exactly when its label is the filter's.
pub is_listed-difficulty_label :
    (k : Keyword)
    → ((is_listed easy k ≡ true) ↔ (difficulty_label k.kd ≡ codes "Easy"))
      × ((is_listed medium k ≡ true) ↔ (difficulty_label k.kd ≡ codes "Medium"))
      × ((is_listed hard k ≡ true) ↔ (difficulty_label k.kd ≡ codes "Hard"))
unfolding difficulty_label
is_listed-difficulty_label k = (ground arith, ground arith, ground arith)

any-append : (p : Keyword → Bool) (xs ys : List Keyword) → any p (xs ++ ys) ≡ any p xs || any p ys
any-append p [] ys = refl
any-append p (x ∷ xs) ys = ground (arith, any-append p xs ys)

-- Filtering by a test on the word that holds of `t` keeps whether `t` is a word of the list.
any-filter :
    (p : Text → Bool) (t : Text) (xs : List Keyword)
    → p t ≡ true
    → any (λ k. text_eq k.keyword t) (filter (λ k. p k.keyword) xs)
      ≡ any (λ k. text_eq k.keyword t) xs
any-filter p t [] h = refl
any-filter p t (x ∷ xs) h = elim (Bool-cases (p x.keyword)) [
  | inl y ↦ rw y (ap (λ b. text_eq x.keyword t || b) (any-filter p t xs h))
  | inr n ↦ elim (Bool-cases (text_eq x.keyword t)) [
    | inl e ↦ absurd (cc ((text_eq_iff x.keyword t).0 e, n, h))
    | inr d ↦ rw (n, d) (any-filter p t xs h)
  ]
]

or_true : (a b : Bool) → a || true ≡ b || true
or_true true true = refl
or_true true false = refl
or_true false true = refl
or_true false false = refl

-- After a merge the page holds the keywords that were found and those that it held, and no others.
pub has_keyword-merge :
    (t : Text) (new before : List Keyword)
    → has_keyword (merge new before) t ≡ has_keyword new t || has_keyword before t
unfolding has_keyword merge
has_keyword-merge t new before =
    let is_new : Text → Bool = λ w. not (any (λ j. text_eq j.keyword w) before) in
    any-append (λ k. text_eq k.keyword t) (filter (λ k. is_new k.keyword) new) before
    ∙ elim (Bool-cases (any (λ k. text_eq k.keyword t) before)) [
      | inl y ↦ rw y (or_true _ _)
      | inr n ↦
          ap (λ b. b || any (λ k. text_eq k.keyword t) before) (any-filter is_new t new (ap not n))
    ]
