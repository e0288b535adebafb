-- ===== src/Projects/Choice.antt =====
-- Which project the pages choose, and that they agree on it.
use dmtool.Base.{
  ℕ, zero, suc, ◌≡◌, refl, sym, ap, ◌∙◌, Bool, true, false, List, [], ◌∷◌, Option, none, some, Text,
  ◌==◌, ==_iff, returned, arith, Bool-cases, inl, inr,
}
use mathlib.Core.List.{Memᴰ}
use dmtool.Api.{show}
use dmtool.Calendar.Numbers.{Parsed, plus, parse_int}
use dmtool.Projects.{
  LocalStorage, Project, project_key, find, or_else, or_zero, last, saved_id, is_saved,
  default_project, choose, Page, chosen, stop_loading, Load, fetch_data,
}
use dmtool.Projects.Digits.{parse_int-show, show-cons}

-- A search finds an entry that passes its test, if one does.
pub find-Memᴰ :
    (p : Project → Bool) (x : Project) (xs : List Project)
    → Memᴰ x xs
    → p x ≡ true
    → (y : Project) × (find p xs ≡ some y) × Memᴰ y xs × (p y ≡ true)
unfolding find
find-Memᴰ p x [] m h = elim m [ ]
find-Memᴰ p x (z ∷ xs) (Memᴰ.head e) h =
    let y : p z ≡ true = ap p (sym e) ∙ h in (z, rw y refl, Memᴰ.head refl, y)
find-Memᴰ p x (z ∷ xs) (Memᴰ.tail k) h = elim (Bool-cases (p z)) [
  | inl y ↦ (z, rw y refl, Memᴰ.head refl, y)
  | inr n ↦ let (y, e, i, q) = find-Memᴰ p x xs k h in (y, rw n e, Memᴰ.tail i, q)
]

or_else-find :
    (p : Project → Bool) (d : Project) (xs ys : List Project)
    → Memᴰ d ys
    → ((y : Project) → Memᴰ y xs → Memᴰ y ys)
    → Memᴰ (or_else (find p xs) d) ys
unfolding find
or_else-find p d [] ys m h = m
or_else-find p d (x ∷ xs) ys m h = elim (Bool-cases (p x)) [
  | inl y ↦ rw y (h x (Memᴰ.head refl))
  | inr n ↦ rw n (or_else-find p d xs ys m (λ z k. h z (Memᴰ.tail k)))
]

last-Memᴰ : (p : Project) (ps : List Project) → Memᴰ (last p ps) (p ∷ ps)
unfolding last
last-Memᴰ p [] = Memᴰ.head refl
last-Memᴰ p (q ∷ qs) = Memᴰ.tail (last-Memᴰ q qs)

default_project-Memᴰ :
    (saved : Option Parsed) (p : Project) (ps : List Project)
    → Memᴰ (default_project saved p ps) (p ∷ ps)
unfolding default_project
default_project-Memᴰ saved p ps =
    or_else-find (is_saved saved) (last p ps) (p ∷ ps) (p ∷ ps) (last-Memᴰ p ps) (λ y m. m)

choose-Memᴰ :
    (target : Option ℕ) (saved : Option Parsed) (p : Project) (ps : List Project)
    → Memᴰ (choose target saved p ps) (p ∷ ps)
unfolding choose
choose-Memᴰ none saved p ps = default_project-Memᴰ saved p ps
choose-Memᴰ (some zero) saved p ps = default_project-Memᴰ saved p ps
choose-Memᴰ (some (suc n)) saved p ps =
    or_else-find (λ q. q.id == suc n) (default_project saved p ps) (p ∷ ps) (p ∷ ps)
      (default_project-Memᴰ saved p ps) (λ y m. m)

-- A default that is in the list is chosen again.
pub default_project-id :
    (q p : Project) (ps : List Project)
    → Memᴰ q (p ∷ ps)
    → (default_project (some (plus q.id)) p ps).id ≡ q.id
unfolding default_project
default_project-id q p ps m =
    let (r, e, k, h) = find-Memᴰ (is_saved (some (plus q.id))) q (p ∷ ps) m (ground arith) in
    ap (λ o. (or_else o (last p ps)).id) e ∙ (==_iff r.id q.id).0 h

pub saved_id-show : (n : ℕ) → saved_id (returned (some (show n))) ≡ some (plus n)
saved_id-show n =
    let (c, s, e) = show-cons n in
    ap (λ t. some (parse_int (or_zero (some t)))) e
    ∙ ap (λ t. some (parse_int t)) (sym e)
    ∙ ap some (parse_int-show n)

-- A page that leaves the number of the project in the storage alone.
abbrev pub KeepsProject : (store : LocalStorage) {D : Type 0} → Load store D → Type 0
KeepsProject store {D} load =
    (p : Project) (s : store.State) (d : D)
    → store.get_item project_key (load p (s, d)).0 ≡ store.get_item project_key s

-- The storage takes every write, as it does unless it is blocked or full.
abbrev pub IsWritable : LocalStorage → Type 0
IsWritable store =
    (k v : Text) (s : store.State) → (t : store.State) × (store.set_item k v s ≡ returned t)

module _ (store : LocalStorage) {D : Type 0} (load : Load store D) where
  -- What a page ends with, where the answer holds a project and the storage takes the write.
  pub fetch_data-chosen :
      (target : Option ℕ) (p : Project) (ps : List Project) (s t : store.State) (w : Page D)
      → store.set_item project_key
          (show (choose target (saved_id (store.get_item project_key s)) p ps).id)
          s
        ≡ returned t
      → fetch_data store load target (returned (some (p ∷ ps))) (s, w) ≡ (
          let q = choose target (saved_id (store.get_item project_key s)) p ps in
          let a = load q (t, w.content) in
          (a.0, record w { projects = p ∷ ps; project = some q; content = a.1; loading = false }))
  unfolding fetch_data
  fetch_data-chosen target p ps s t w h =
      let q = choose target (saved_id (store.get_item project_key s)) p ps in
      ap
        (λ o.
          stop_loading store
            (chosen store load q o (s, record w { projects = p ∷ ps; loading = true })))
        h

-- Where the storage takes writes: the project that one page ends with is one of those that the API
-- lists, and the page that is opened next shows the project of that number, whatever projects were
-- added or put in another order, as long as it is still among them; both pages stop loading. The
-- first page must leave the number of the project in the storage alone.
pub fetch_data-next_page :
    (store : LocalStorage)
    → IsWritable store
    → {D E : Type 0} (load : Load store D) (load_next : Load store E) → KeepsProject store load
    → (target : Option ℕ) (p p2 : Project) (ps ps2 : List Project) (s : store.State)
    → (w : Page D) (v : Page E)
    → Memᴰ (choose target (saved_id (store.get_item project_key s)) p ps) (p2 ∷ ps2)
    → (let a = fetch_data store load target (returned (some (p ∷ ps))) (s, w) in
        let b = fetch_data store load_next none (returned (some (p2 ∷ ps2))) (a.0, v) in
        (q r : Project) × Memᴰ q (p ∷ ps)
        × (a.1.project ≡ some q)
        × (b.1.project ≡ some r)
        × (r.id ≡ q.id)
        × (a.1.loading ≡ false)
        × (b.1.loading ≡ false))
unfolding choose
fetch_data-next_page store ok {D} {E} load load_next keeps target p p2 ps ps2 s w v m =
    let q = choose target (saved_id (store.get_item project_key s)) p ps in
    let (t, h) = ok project_key (show q.id) s in
    let e = fetch_data-chosen store load target p ps s t w h in
    let u = (fetch_data store load target (returned (some (p ∷ ps))) (s, w)).0 in
    let kept : store.get_item project_key u ≡ returned (some (show q.id)) =
      ap (λ z. store.get_item project_key z.0) e
      ∙ keeps q t w.content
      ∙ store.get_item-set_item_same project_key (show q.id) s t h in
    let r = choose none (saved_id (store.get_item project_key u)) p2 ps2 in
    let same : r.id ≡ q.id =
      ap (λ o. (default_project (saved_id o) p2 ps2).id) kept
      ∙ ap (λ o. (default_project o p2 ps2).id) (saved_id-show q.id)
      ∙ default_project-id q p2 ps2 m in
    let (t2, h2) = ok project_key (show r.id) u in
    let e2 = fetch_data-chosen store load_next none p2 ps2 u t2 v h2 in
    (
      q,
      r,
      choose-Memᴰ target (saved_id (store.get_item project_key s)) p ps,
      ap (λ z. z.1.project) e,
      ap (λ z. z.1.project) e2,
      same,
      ap (λ z. z.1.loading) e,
      ap (λ z. z.1.loading) e2,
    )
