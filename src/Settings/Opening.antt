-- ===== src/Settings/Opening.antt =====
-- From the list of frontend/app/(dashboard)/projects/page.tsx to the pages of a project.
use dmtool.Base.{
  ℕ, ◌+◌, ◌<◌, ◌≡◌, ◌≢◌, refl, ap, ◌∙◌, sym, true, false, List, [], ◌∷◌, none, some, Text, codes,
  All, text_eq, text_eq_iff, text_ne, is_empty, arith, Bool-cases, inl, inr, returned,
}
use mathlib.Core.List.{Memᴰ}
use dmtool.Api.{show}
use dmtool.Uri.{is_unreserved}
use dmtool.Projects.{LocalStorage, Project, project_key, Page, Load, fetch_data, saved_id, choose}
use dmtool.Projects.Choice.{IsWritable, fetch_data-chosen}
use dmtool.Projects.Digits.{show-All, show-injective, show-cons}
use dmtool.Settings.{
  Site, form_of, Settings, SearchParams, find_site, or_last, picked, pick_site, load_project,
}
use dmtool.Settings.Cards.{settings_link, open_card, opened_card, selected_key}

-- A project of the list is found by its number.
find_site-show :
    (q : Site) (ps : List Site)
    → Memᴰ q ps
    → (r : Site) × (find_site (show q.id) ps ≡ some r) × (r.id ≡ q.id)
unfolding find_site
find_site-show q [] m = elim m [ ]
find_site-show q (x ∷ xs) m = elim (Bool-cases (text_eq (show x.id) (show q.id))) [
  | inl y ↦ (x, rw y refl, show-injective x.id q.id ((text_eq_iff (show x.id) (show q.id)).0 y))
  | inr n ↦ let (r, e, h) = find_site-show q xs (not_first m n) in (r, rw n e, h)
]
  where
    not_first : Memᴰ q (x ∷ xs) → text_eq (show x.id) (show q.id) ≡ false → Memᴰ q xs
    not_first (Memᴰ.head e) n = absurd (text_ne _ _ n (ap (λ z. show z.id) (sym e)))
    not_first (Memᴰ.tail k) n = k

pick_site-show :
    (q : Site) (ps : List Site)
    → Memᴰ q ps
    → (r : Site) × (pick_site (some (show q.id)) ps ≡ some r) × (r.id ≡ q.id)
pick_site-show q ps m =
    let (r, e, h) = find_site-show q ps m in
    let (c, t, k) = show-cons q.id in
    let some_text : is_empty (show q.id) ≡ false = ap is_empty k in
    (r, rw some_text (ap (λ o. or_last o ps) e), h)

digit_passes : (d : ℕ) → d < 10 → is_unreserved (48 + d) ≡ true
unfolding is_unreserved
digit_passes d h = ground (arith, h)

-- The link on the card of a project opens the settings of that project: where the answer lists it,
-- the page shows a project of its number, with its form, and is no longer loading.
pub load_project-settings_link :
    (params : SearchParams) (q : Site) (ps : List Site) (s : Settings)
    → Memᴰ q ps
    → (let t =
          load_project
            (params.get (codes "project_id") (settings_link q.id))
            (returned (some ps))
            s in
        (r : Site) × (r.id ≡ q.id)
        × (t.project ≡ some r)
        × (t.form_data ≡ form_of r)
        × (t.loading ≡ false))
unfolding load_project settings_link
load_project-settings_link params q ps s m =
    let digits_pass : All (λ c. is_unreserved c ≡ true) (show q.id) =
      show-All (λ c. is_unreserved c ≡ true) (λ d h. digit_passes d h) q.id in
    let asked =
      params.get-param (codes "/projects/settings") (codes "project_id") (show q.id) (ground arith)
        (unfold is_unreserved in ground arith) digits_pass in
    let (r, e, h) = pick_site-show q ps m in
    let found = ap (λ o. pick_site o ps) asked ∙ e in
    (r, h, ap (λ o. (picked o s).project) found, ap (λ o. (picked o s).form_data) found, refl)

-- What the storage answers to a write, with the state behind a click on a card.
keys_differ : project_key ≢ selected_key
keys_differ = text_ne project_key selected_key (unfold text_eq in refl)

-- A click on a card, where the storage takes the write, leaves the number that the pages read.
open_card-keeps :
    (store : LocalStorage) (stringify : Project → Text) (p : Project) (s : store.State)
    → IsWritable store
    → (store.get_item project_key (open_card store stringify p s).0 ≡ store.get_item project_key s)
      × ((open_card store stringify p s).1 ≡ some (codes "/dashboard"))
unfolding open_card
open_card-keeps store stringify p s ok =
    let (t, e) = ok selected_key (stringify p) s in
    (
      ap (λ o. store.get_item project_key (opened_card store stringify o s).0) e
          ∙ store.get_item-set_item_other project_key selected_key (stringify p) s t keys_differ e,
      ap (λ o. (opened_card store stringify o s).1) e,
    )

-- Where the storage takes writes: a click on the card of a project opens the dashboard, and the
-- dashboard then shows the project that it would have shown without the click, whichever card it
-- was. The list that the dashboard reads must not be empty.
pub open_card-ignored :
    (store : LocalStorage)
    → IsWritable store
    → {D : Type 0} (load : Load store D) (stringify : Project → Text) (clicked p : Project)
    → (ps : List Project) (s : store.State) (w : Page D)
    → (let o = open_card store stringify clicked s in
        let reply = returned (some (p ∷ ps)) in
        (o.1 ≡ some (codes "/dashboard"))
        × ((fetch_data store load none reply (o.0, w)).1.project
            ≡ (fetch_data store load none reply (s, w)).1.project))
open_card-ignored store ok load stringify clicked p ps s w =
    let t = (open_card store stringify clicked s).0 in
    let (kept, opened) = open_card-keeps store stringify clicked s ok in
    let same = ap (λ o. choose none (saved_id o) p ps) kept in
    let q = choose none (saved_id (store.get_item project_key t)) p ps in
    let r = choose none (saved_id (store.get_item project_key s)) p ps in
    let (u, e) = ok project_key (show q.id) t in
    let (v, f) = ok project_key (show r.id) s in
    (
      opened,
      ap (λ z. z.1.project) (fetch_data-chosen store load none p ps t u w e)
          ∙ ap some same
          ∙ sym (ap (λ z. z.1.project) (fetch_data-chosen store load none p ps s v w f)),
    )
