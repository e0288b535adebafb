-- ===== src/Posts/Choosing.antt =====
-- Which project frontend/app/(dashboard)/system/calendar/page.tsx shows, against the other pages.
use dmtool.Base.{
  ℕ, zero, suc, ◌≡◌, ◌≢◌, refl, sym, ap, ◌∙◌, false, List, ◌∷◌, Option, none, some, Text, ◌==◌,
  returned, arith, Outcome, threw,
}
use mathlib.Core.List.{Memᴰ}
use dmtool.Api.{show}
use dmtool.Calendar.Numbers.{plus}
use dmtool.Projects.{
  LocalStorage, Project, project_key, find, or_else, or_zero, last, saved_id, default_project,
  choose, Page, Load, or_none,
}
use dmtool.Projects
use dmtool.Projects.Choice.{IsWritable, KeepsProject, fetch_data-chosen, default_project-id}
use dmtool.Projects.Digits.{show-cons}
use dmtool.Posts.{
  Dates, Task, Board, asked, or_saved, select_project, fetch_data, kept, chosen, loaded,
  calendar_answered,
}

-- With a number other than 0 in the storage, the choice is that of the other pages.
select_project-choose :
    (target : Option ℕ) (n : ℕ) (p : Project) (ps : List Project)
    → n ≢ 0
    → select_project target (some n) p ps ≡ choose target (some (plus n)) p ps
unfolding select_project choose default_project
select_project-choose target n p ps h = by_target target
  where
    not_zero : (n == 0) ≡ false
    not_zero = ground (arith, h)

    default_same :
        or_else (asked (some n) (p ∷ ps)) (last p ps) ≡ default_project (some (plus n)) p ps
    default_same = rw not_zero refl

    by_found :
        (o : Option Project)
        → or_else (or_saved o (some n) (p ∷ ps)) (last p ps)
          ≡ or_else o (default_project (some (plus n)) p ps)
    by_found none = default_same
    by_found (some q) = refl

    by_target : (t : Option ℕ) → select_project t (some n) p ps ≡ choose t (some (plus n)) p ps
    by_target none = default_same
    by_target (some zero) = default_same
    by_target (some (suc k)) =
        let one : (suc k == 0) ≡ false = ground arith in
        rw one (by_found (find (λ q. q.id == suc k) (p ∷ ps)))

answered_project :
    (dates : Dates) (to_number : Text → Option ℕ) (store : LocalStorage)
    → (get_calendar : ℕ → Outcome (Option (List Task))) (o : Outcome (Option (List Task)))
    → (b : Board) → (calendar_answered dates to_number store get_calendar o b).project ≡ b.project
answered_project dates to_number store get_calendar threw b = refl
answered_project dates to_number store get_calendar (returned ts) b = refl

or_zero-show : (n : ℕ) → or_zero (some (show n)) ≡ show n
or_zero-show n = let (c, s, e) = show-cons n in ap (λ t. or_zero (some t)) e ∙ sym e

-- Where the storage takes writes and `Number` reads a number that was printed: the calendar that is
-- opened after another page shows the project of the number that this page ended with, as long as
-- it is still listed, and stops loading. The page must leave the number of the project in the
-- storage alone, and the number must not be 0.
pub fetch_data-calendar :
    (dates : Dates) (to_number : Text → Option ℕ) (store : LocalStorage)
    → (get_calendar : ℕ → Outcome (Option (List Task))) → IsWritable store
    → ((n : ℕ) → to_number (show n) ≡ some n)
    → {D : Type 0} (load : Load store D) → KeepsProject store load
    → (target : Option ℕ) (p p2 : Project) (ps ps2 : List Project) (s : store.State) (w : Page D)
    → (b : Board) → (choose target (saved_id (store.get_item project_key s)) p ps).id ≢ 0
    → Memᴰ (choose target (saved_id (store.get_item project_key s)) p ps) (p2 ∷ ps2)
    → (let q = choose target (saved_id (store.get_item project_key s)) p ps in
        let a = Projects.fetch_data store load target (returned (some (p ∷ ps))) (s, w) in
        let c =
          fetch_data dates to_number store get_calendar none
            (returned (some (p2 ∷ ps2)))
            (a.0, b) in
        (r : Project) × (a.1.project ≡ some q)
        × (c.1.project ≡ some r)
        × (r.id ≡ q.id)
        × (c.1.loading ≡ false))
unfolding fetch_data choose default_project
fetch_data-calendar dates to_number store get_calendar ok reads load keeps target p p2 ps ps2 s w b
      nonzero m =
    let q = choose target (saved_id (store.get_item project_key s)) p ps in
    let (t, h) = ok project_key (show q.id) s in
    let e = fetch_data-chosen store load target p ps s t w h in
    let u = (Projects.fetch_data store load target (returned (some (p ∷ ps))) (s, w)).0 in
    let kept_id : store.get_item project_key u ≡ returned (some (show q.id)) =
      ap (λ z. store.get_item project_key z.0) e
      ∙ keeps q t w.content
      ∙ store.get_item-set_item_same project_key (show q.id) s t h in
    let r = select_project none (some q.id) p2 ps2 in
    let same : r.id ≡ q.id =
      ap (λ z. z.id) (select_project-choose none q.id p2 ps2 nonzero)
      ∙ default_project-id q p2 ps2 m in
    let (v, k) = ok project_key (show r.id) u in
    let read =
      ap
        (λ o. loaded dates to_number store get_calendar (
          chosen dates to_number store get_calendar none p2 ps2 o
            (u, record b { projects = p2 ∷ ps2 })))
        kept_id in
    let number : to_number (or_zero (some (show q.id))) ≡ some q.id =
      ap to_number (or_zero-show q.id) ∙ reads q.id in
    let c = record b { projects = p2 ∷ ps2 } in
    (
      r,
      ap (λ z. z.1.project) e,
      ap (λ z. z.1.project) read
          ∙ ap
              (λ n.
                let x = select_project none n p2 ps2 in
                (kept dates to_number store get_calendar x
                  (store.set_item project_key (show x.id) u)
                  (u, record c { project = some x })).1.project)
              number
          ∙ ap
              (λ o.
                (kept dates to_number store get_calendar r o
                  (u, record c { project = some r })).1.project)
              k
          ∙ answered_project dates to_number store get_calendar (get_calendar r.id)
              (record c { project = some r }),
      same,
      refl,
    )
