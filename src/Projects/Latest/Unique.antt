-- ===== src/Projects/Latest/Unique.antt =====
-- What the selection of the latest figures promises, and that the loop keeps it.
use dmtool.Base.{
  ◌≡◌, ◌≢◌, ◌≤◌, refl, sym, ap, ◌∙◌, true, false, ◌||◌, List, [], ◌∷◌, All, Text, text_eq,
  text_eq_iff, text_ne, is_empty, any, arith, Bool-cases, inl, inr,
}
use mathlib.Core.List.{Memᴰ}
use dmtool.Projects.Latest.{Social, no_later, sort, key, keep_first, dedupe_latest_metrics}
use dmtool.Projects.Latest.Sorting.{no_later_refl, IsSorted, sort-IsSorted, Memᴰ-IsFirst, sort-Memᴰ}

-- `b` is to be shown rather than `a`, or as well: it is simulated only if `a` is, and of two that
-- are simulated alike it is not the earlier one.
abbrev pub Outranks : Social → Social → Type 0
Outranks b a =
    (b.is_simulated ≡ true → a.is_simulated ≡ true)
    × (b.is_simulated ≡ a.is_simulated → a.recorded_at ≤ b.recorded_at)

no_later-Outranks : (b a : Social) → no_later b a ≡ true → Outranks b a
unfolding no_later
no_later-Outranks b a h = (λ s. ground arith, λ e. ground arith)

module _ (to_lower : Text → Text) where
  -- No two entries are of one network.
  abbrev pub IsUnique : List Social → Type 0
  IsUnique [] = Unit
  IsUnique (a ∷ bs) = All (λ b. key to_lower b ≢ key to_lower a) bs × IsUnique bs

  -- The selection from `items`: one entry for each network that has a name, an entry of the input
  -- that outranks every entry of its network.
  pub record IsSelection (items out : List Social) : Type 0 where
    pub unique : IsUnique out
    pub from_input : (b : Social) → Memᴰ b out → Memᴰ b items
    pub best :
        (a : Social)
        → Memᴰ a items
        → is_empty (key to_lower a) ≡ false
        → (b : Social) × Memᴰ b out × (key to_lower b ≡ key to_lower a) × Outranks b a

  abbrev IsNew : List Text → Social → Type 0
  IsNew seen b = any (text_eq (key to_lower b)) seen ≡ false

  IsNew-cons :
      (k : Text) (seen : List Text) (bs : List Social)
      → All (IsNew (k ∷ seen)) bs
      → All (IsNew seen) bs × All (λ b. key to_lower b ≢ k) bs
  IsNew-cons k seen [] h = (tt, tt)
  IsNew-cons k seen (b ∷ bs) (p, h) =
      let (i, j) = IsNew-cons k seen bs h in
      ((ground arith, i), (text_ne (key to_lower b) k (ground arith), j))

  keep_first-IsNew :
      (seen : List Text) (items : List Social) → All (IsNew seen) (keep_first to_lower seen items)
  unfolding keep_first
  keep_first-IsNew seen [] = tt
  keep_first-IsNew seen (a ∷ rest) =
      elim (Bool-cases (is_empty (key to_lower a) || any (text_eq (key to_lower a)) seen)) [
        | inl old ↦ rw old (keep_first-IsNew seen rest)
        | inr new ↦ rw new (
          ground arith,
          (IsNew-cons (key to_lower a) seen _ (keep_first-IsNew (key to_lower a ∷ seen) rest)).0,
        )
      ]

  pub keep_first-IsUnique :
      (seen : List Text) (items : List Social) → IsUnique (keep_first to_lower seen items)
  unfolding keep_first
  keep_first-IsUnique seen [] = tt
  keep_first-IsUnique seen (a ∷ rest) =
      elim (Bool-cases (is_empty (key to_lower a) || any (text_eq (key to_lower a)) seen)) [
        | inl old ↦ rw old (keep_first-IsUnique seen rest)
        | inr new ↦ rw new (
          (IsNew-cons (key to_lower a) seen _ (keep_first-IsNew (key to_lower a ∷ seen) rest)).1,
          keep_first-IsUnique (key to_lower a ∷ seen) rest,
        )
      ]

  keep_first-Memᴰ :
      (seen : List Text) (items : List Social) (b : Social)
      → Memᴰ b (keep_first to_lower seen items)
      → Memᴰ b items
  unfolding keep_first
  keep_first-Memᴰ seen [] b = λ m. m
  keep_first-Memᴰ seen (a ∷ rest) b =
      let old = keep_first-Memᴰ seen rest b in
      let new = keep_first-Memᴰ (key to_lower a ∷ seen) rest b in
      elim (Bool-cases (is_empty (key to_lower a) || any (text_eq (key to_lower a)) seen)) [
        | inl y ↦ rw y (λ m. Memᴰ.tail (old m))
        | inr n ↦ rw n (λ m. elim m [ Memᴰ.head e ↦ Memᴰ.head e | Memᴰ.tail k ↦ Memᴰ.tail (new k) ])
      ]

  -- What stands for the entry `a` in a selection.
  abbrev Best : Social → List Social → Type 0
  Best a out = (b : Social) × Memᴰ b out × (key to_lower b ≡ key to_lower a) × (no_later b a ≡ true)

  Best-tail : (a c : Social) (out : List Social) → Best a out → Best a (c ∷ out)
  Best-tail a c out (b, m, e, l) = (b, Memᴰ.tail m, e, l)

  -- An entry of another network than the head of the list stands behind it.
  Memᴰ-tail :
      (a c : Social) (rest : List Social)
      → text_eq (key to_lower a) (key to_lower c) ≡ false
      → Memᴰ a (c ∷ rest)
      → Memᴰ a rest
  Memᴰ-tail a c rest n (Memᴰ.head e) = absurd (text_ne _ _ n (ap (key to_lower) e))
  Memᴰ-tail a c rest n (Memᴰ.tail k) = k

  -- In a sorted list, the first entry of a network that is not seen stands for the others.
  keep_first-Best :
      (seen : List Text) (items : List Social) (a : Social)
      → IsSorted items
      → Memᴰ a items
      → is_empty (key to_lower a) || any (text_eq (key to_lower a)) seen ≡ false
      → Best a (keep_first to_lower seen items)
  unfolding keep_first
  keep_first-Best seen [] a s m h = elim m [ ]
  keep_first-Best seen (c ∷ rest) a (f, s) m h =
      elim (Bool-cases (text_eq (key to_lower a) (key to_lower c))) [
        | inl same ↦
            let e = (text_eq_iff (key to_lower a) (key to_lower c)).0 same in
            let n : is_empty (key to_lower c) || any (text_eq (key to_lower c)) seen ≡ false =
              ap (λ k. is_empty k || any (text_eq k) seen) (sym e) ∙ h in
            rw n (c, Memᴰ.head refl, sym e, Memᴰ-IsFirst c a (c ∷ rest) (no_later_refl c, f) m)
        | inr other ↦
            let k = Memᴰ-tail a c rest other m in
            let new : is_empty (key to_lower a)
                  || any (text_eq (key to_lower a)) (key to_lower c ∷ seen)
                ≡ false =
              ground (arith, h, other) in
            elim (Bool-cases (is_empty (key to_lower c) || any (text_eq (key to_lower c)) seen)) [
              | inl y ↦ rw y (keep_first-Best seen rest a s k h)
              | inr n ↦
                  rw n (Best-tail a c _ (keep_first-Best (key to_lower c ∷ seen) rest a s k new))
            ]
      ]

  -- What the page shows of the figures is a selection of the latest: no two entries of one network,
  -- each an entry of the answer, and for every entry of the answer whose network has a name an
  -- entry of that network which is simulated only if it is, and not recorded before it where the
  -- two are simulated alike.
  pub dedupe_latest_metrics-IsSelection :
      (items : List Social) → IsSelection items (dedupe_latest_metrics to_lower items)
  unfolding dedupe_latest_metrics
  dedupe_latest_metrics-IsSelection items = record {
    unique = keep_first-IsUnique [] (sort items);
    from_input = λ b m. (sort-Memᴰ b items).0 (keep_first-Memᴰ [] (sort items) b m);
    best = λ a m h.
        let (b, n, e, l) =
          keep_first-Best [] (sort items) a (sort-IsSorted items) ((sort-Memᴰ a items).1 m)
            (ground (arith, h)) in
        (b, n, e, no_later-Outranks b a l);
  }
