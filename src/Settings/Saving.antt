-- ===== src/Settings/Saving.antt =====
-- What a save of frontend/app/(dashboard)/projects/settings/page.tsx leaves on the page.
use dmtool.Base.{
  ℕ, ◌≡◌, refl, ap, ◌∙◌, sym, true, false, List, [], ◌∷◌, Option, none, some, Text, codes, text_eq,
  text_eq_iff, is_empty, length, map, ◌==◌, ==_iff, eq_false, if◌then◌else◌, Outcome, threw,
  returned, arith, Bool-cases, inl, inr,
}
use mathlib.Core.List.{Memᴰ}
use dmtool.Api.{show}
use dmtool.Projects.Digits.{show-injective, show-cons}
use dmtool.Insights.{or_text}
use dmtool.Projects.{Project}
use dmtool.Settings.{
  Site, Form, form_of, merged, Settings, handle_save, save_for, on_saved, load_project, find_site,
  queried, or_last, picked,
}
use dmtool.Settings.Cards.{shown_handles, no_connections}

-- A save from the click to its answer, which comes only where something was sent.
abbrev pub answer_to : Option Site → Outcome (Unit {0}) → Option (ℕ × Form) × Settings → Settings
answer_to p reply (none, s) = s
answer_to p reply (some (i, f), s) = (on_saved p f reply s).0

unfoldable pub save_answered : Outcome (Unit {0}) → Settings → Settings
unfolding handle_save on_saved
save_answered reply s = answer_to s.project reply (handle_save s)

-- What the server holds once it has taken what was sent.
unfoldable pub update_site : ℕ → Form → List Site → List Site
unfolding merged
update_site i f ps = map (λ x. if x.id == i then merged x f else x) ps

or_text_same : (t : Text) → or_text (some t) [] ≡ t
or_text_same [] = refl
or_text_same (c ∷ t) = refl

or_text_filled : (t d : Text) → is_empty t ≡ false → or_text (some t) d ≡ t
or_text_filled t d h = rw h refl

-- A project with the form put in has that form, where the goal is not empty.
form_of-merged : (p : Site) (f : Form) → is_empty f.goal ≡ false → form_of (merged p f) ≡ f
unfolding form_of merged
form_of-merged p f h =
    rw
      (
        or_text_same f.name,
        or_text_same f.url,
        or_text_filled f.goal (codes "both") h,
        or_text_same f.ig_handle,
        or_text_same f.twitter_handle,
        or_text_same f.linkedin_handle,
        or_text_same f.fb_handle,
      )
      refl

-- The server's project of a number, behind a save.
find_site-first :
    (y x : Site) (f : Form) (ys : List Site)
    → y.id ≡ x.id
    → find_site (show x.id) (merged y f ∷ ys) ≡ some (merged y f)
unfolding find_site merged
find_site-first y x f ys e =
    let t : text_eq (show y.id) (show x.id) ≡ true =
      (text_eq_iff (show y.id) (show x.id)).1 (ap show e) in
    rw t refl

find_site-other :
    (y x : Site) (ys : List Site)
    → (y.id == x.id) ≡ false
    → find_site (show x.id) (y ∷ ys) ≡ find_site (show x.id) ys
unfolding find_site
find_site-other y x ys n =
    let t : text_eq (show y.id) (show x.id) ≡ false =
      eq_false _ _ (λ h. absurd (ground (arith, show-injective y.id x.id h, n))) in
    rw t refl

find_site-update_site :
    (x : Site) (f : Form) (ps : List Site)
    → Memᴰ x ps
    → (r : Site) × (find_site (show x.id) (update_site x.id f ps) ≡ some (merged r f))
unfolding update_site
find_site-update_site x f [] m = elim m [ ]
find_site-update_site x f (y ∷ ys) (Memᴰ.head e) =
    let same : y.id ≡ x.id = ap (λ z. z.id) (sym e) in
    let b = (==_iff y.id x.id).1 same in (y, rw b (find_site-first y x f _ same))
find_site-update_site x f (y ∷ ys) (Memᴰ.tail k) = elim (Bool-cases (y.id == x.id)) [
  | inl b ↦ (y, rw b (find_site-first y x f _ ((==_iff y.id x.id).0 b)))
  | inr n ↦
      let (r, e) = find_site-update_site x f ys k in
      (r, rw n (find_site-other y x (update_site x.id f ys) n ∙ e))
]

-- What is saved is what the settings show the next time they are opened, where the server holds the
-- project and keeps what was sent, the save went through and the goal is not empty; the form
-- itself stays as it was typed.
pub load_project-save_answered :
    (p : Site) (s w : Settings) (ps : List Site)
    → s.project ≡ some p
    → Memᴰ p ps
    → is_empty s.form_data.goal ≡ false
    → (let t = save_answered (returned tt) s in
        let reply = returned (some (update_site p.id s.form_data ps)) in
        ((load_project (some (show p.id)) reply w).form_data ≡ s.form_data)
        × (t.form_data ≡ s.form_data)
        × (t.project ≡ some (merged p s.form_data))
        × (t.saving ≡ false))
unfolding load_project save_answered handle_save on_saved
load_project-save_answered p s w ps h m g =
    let f = s.form_data in
    let (r, e) = find_site-update_site p f ps m in
    let (c, t, k) = show-cons p.id in
    let some_text : is_empty (show p.id) ≡ false = ap is_empty k in
    let us = update_site p.id f ps in
    let q : queried (some (show p.id)) us ≡ some (merged r f) = rw some_text e in
    (
      ap (λ o. (picked (or_last o us) w).form_data) q ∙ form_of-merged r f g,
      ap (λ o. (answer_to o (returned tt) (save_for o s)).form_data) h,
      ap (λ o. (answer_to o (returned tt) (save_for o s)).project) h,
      ap (λ o. (answer_to o (returned tt) (save_for o s)).saving) h,
    )

failed_keeps :
    (p : Option Site) (s : Settings)
    → ((answer_to p threw (save_for p s)).project ≡ s.project)
      × ((answer_to p threw (save_for p s)).form_data ≡ s.form_data)
unfolding on_saved
failed_keeps none s = (refl, refl)
failed_keeps (some p) s = (refl, refl)

-- A save that fails leaves the project and the form as they were.
pub save_answered-failed :
    (s : Settings)
    → ((save_answered threw s).project ≡ s.project)
      × ((save_answered threw s).form_data ≡ s.form_data)
unfolding save_answered handle_save
save_answered-failed s = failed_keeps s.project s

-- A card says that there are no connections exactly where it shows no network.
pub no_connections-shown_handles :
    (p : Project) → no_connections p ≡ (length (shown_handles p) == 0)
unfolding no_connections shown_handles
no_connections-shown_handles p = ground arith
