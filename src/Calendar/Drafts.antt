-- ===== src/Calendar/Drafts.antt =====
-- The list of drafts under the clicks of the user.
use dmtool.Base.{
  ℕ, zero, suc, ◌+◌, ◌≤◌, ◌<◌, ◌≡◌, refl, Bool, List, [], ◌∷◌, Option, Text, length, length-append,
  arith,
}
use dmtool.Calendar.{
  File, ScheduledDraft, Project, Field, update_draft, add_draft_row, remove_draft_row, remove_at,
  map_at, set_field, handle_file_change,
}

pub data Edit : Type 0 where
  updated : ℕ → Field → Text → Edit
  filed : ℕ → Bool → Option File → Edit
  added : Edit
  removed : ℕ → Edit

module _ (create_object_url : File → Text) (p : Option Project) where
  abbrev pub step : List ScheduledDraft → Edit → List ScheduledDraft
  step ds (updated i f v) = update_draft i f v ds
  step ds (filed i b file) = handle_file_change create_object_url i b file ds
  step ds added = add_draft_row p ds
  step ds (removed i) = remove_draft_row i ds

  unfoldable pub run : List ScheduledDraft → List Edit → List ScheduledDraft
  run ds [] = ds
  run ds (e ∷ es) = run (step ds e) es

length-map_at {ℓ} :
    {A : Type ℓ} (i : ℕ) (f : A → A) (xs : List A) → length (map_at i f xs) ≡ length xs
unfolding map_at
length-map_at i f [] = refl
length-map_at zero f (x ∷ xs) = refl
length-map_at (suc i) f (x ∷ xs) = omega (arith, length-map_at i f xs)

length-remove_at {ℓ} :
    {A : Type ℓ} (i : ℕ) (xs : List A)
    → (length xs ≤ length (remove_at i xs) + 1)
      × (i < length xs → length (remove_at i xs) + 1 ≡ length xs)
      × (length xs ≤ i → remove_at i xs ≡ xs)
unfolding remove_at
length-remove_at i [] = (omega arith, λ h. omega (arith, h), λ h. refl)
length-remove_at zero (x ∷ xs) = (omega arith, λ h. omega arith, λ h. ground (arith, h))
length-remove_at (suc i) (x ∷ xs) =
    let (a, b, c) = length-remove_at i xs in
    (omega (arith, a), λ h. ground (arith, b, h), λ h. ground (arith, c, h))

-- Taking a draft away: the only one stays; of several, the one with that index goes, and an index
-- that no draft has changes nothing.
pub remove_draft_row_lem :
    (i : ℕ) (ds : List ScheduledDraft)
    → (length ds ≡ 1 → remove_draft_row i ds ≡ ds)
      × (2 ≤ length ds → i < length ds → length (remove_draft_row i ds) + 1 ≡ length ds)
      × (length ds ≤ i → remove_draft_row i ds ≡ ds)
unfolding remove_draft_row remove_at
remove_draft_row_lem i [] = (λ h. refl, λ h. omega (arith, h), λ h. refl)
remove_draft_row_lem i (d ∷ []) = (λ h. refl, λ h. omega (arith, h), λ h. refl)
remove_draft_row_lem i (d ∷ e ∷ ds) =
    let (a, b, c) = length-remove_at i (d ∷ e ∷ ds) in (λ h. ground (arith, h), λ h. b, c)

remove-positive :
    (i : ℕ) (ds : List ScheduledDraft) → 1 ≤ length ds → 1 ≤ length (remove_draft_row i ds)
unfolding remove_draft_row
remove-positive i [] h = omega (arith, h)
remove-positive i (d ∷ []) h = h
remove-positive i (d ∷ e ∷ ds) h = omega (arith, (length-remove_at i (d ∷ e ∷ ds)).0)

module _ (create_object_url : File → Text) (p : Option Project) where
  step-positive :
      (ds : List ScheduledDraft) (e : Edit)
      → 1 ≤ length ds
      → 1 ≤ length (step create_object_url p ds e)
  unfolding update_draft handle_file_change add_draft_row
  step-positive ds (updated i f v) h = omega (arith, h, length-map_at i (set_field f v) ds)
  step-positive ds (filed i b file) h = omega (arith, h, length-map_at i _ ds)
  step-positive ds added h = omega (arith, h, length-append ds)
  step-positive ds (removed i) h = remove-positive i ds h

  -- However the drafts are changed, added to and taken away, there is always at least one.
  pub run_positive :
      (ds : List ScheduledDraft) (es : List Edit)
      → 1 ≤ length ds
      → 1 ≤ length (run create_object_url p ds es)
  unfolding run
  run_positive ds [] h = h
  run_positive ds (e ∷ es) h =
      run_positive (step create_object_url p ds e) es (step-positive ds e h)
