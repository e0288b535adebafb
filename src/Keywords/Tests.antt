-- ===== src/Keywords/Tests.antt =====
-- Concrete inputs for the keywords.
use dmtool.Base.{◌≡◌, refl, [], ◌∷◌, Text, codes, map, text_eq}
use dmtool.Keywords.{Keyword, merge, difficulty_label}

abbrev word : Text → Keyword
word t = record { keyword = t; volume = 10; kd = 40 }

merge_run :
    map (λ k. k.keyword) (merge (word (codes "a") ∷ word (codes "b") ∷ []) (word (codes "b") ∷ []))
    ≡ codes "a" ∷ codes "b" ∷ []
unfolding merge text_eq
merge_run = refl

label_run : difficulty_label 60 ≡ codes "Hard"
unfolding difficulty_label
label_run = refl
