-- ===== src/Settings/Tests.antt =====
-- Concrete inputs for the theorems on the list of projects and their settings.
use dmtool.Base.{ℕ, ◌≡◌, refl, [], ◌∷◌, Option, none, some, codes, text_eq, returned, false}
use mathlib.Core.List.{Memᴰ}
use dmtool.Api.{show, digits}
use dmtool.Projects.{Project, Page, fetch_data}
use dmtool.Projects.Memory.{memory, memory-IsWritable}
use dmtool.Projects.Pages.{load_ranks}
use dmtool.Settings.{Site, Form, Settings, merged, load_project, find_site, last_site}
use dmtool.Settings.Cards.{open_card}
use dmtool.Settings.Opening.{open_card-ignored}
use dmtool.Settings.Saving.{save_answered, update_site, load_project-save_answered}

abbrev shop : Site
shop = record {
  id = 7;
  name = some (codes "Shop");
  url = none;
  goal = none;
  ig_handle = none;
  twitter_handle = none;
  linkedin_handle = none;
  fb_handle = none;
}

abbrev typed : Form
typed = record {
  name = codes "Shop";
  url = codes "https://shop.test";
  goal = codes "both";
  ig_handle = [];
  twitter_handle = [];
  linkedin_handle = [];
  fb_handle = [];
}

abbrev opened : Settings
opened = record {
  project = some shop;
  form_data = typed;
  loading = false;
  saving = false;
  save_success = false;
}

-- A number that the list does not hold opens the last project.
falls_back :
    (load_project (some (codes "8")) (returned (some (shop ∷ []))) opened).project ≡ some shop
unfolding load_project find_site last_site show digits text_eq
falls_back = refl

load_project_example :
    (let t = save_answered (returned tt) opened in
      let reply = returned (some (update_site 7 typed (shop ∷ []))) in
      ((load_project (some (show 7)) reply opened).form_data ≡ typed)
      × (t.form_data ≡ typed)
      × (t.project ≡ some (merged shop typed))
      × (t.saving ≡ false))
load_project_example =
    load_project-save_answered shop opened opened (shop ∷ []) refl (Memᴰ.head refl) refl

abbrev card : Project
card = record {
  id = 3;
  ig_handle = none;
  fb_handle = none;
  facebook_handle = none;
  twitter_handle = none;
  linkedin_handle = none;
}

abbrev other_card : Project
other_card = record card { id = 5 }

abbrev page : Page (Option ℕ)
page = record { projects = []; project = none; content = none; loading = false; syncing = false }

open_card_example :
    (let load = load_ranks memory (λ i. returned (some i)) in
      let o = open_card memory (λ p. codes "{}") card [] in
      let reply = returned (some (card ∷ other_card ∷ [])) in
      (o.1 ≡ some (codes "/dashboard"))
      × ((fetch_data memory load none reply (o.0, page)).1.project
          ≡ (fetch_data memory load none reply ([], page)).1.project))
open_card_example =
    open_card-ignored memory memory-IsWritable (load_ranks memory (λ i. returned (some i)))
      (λ p. codes "{}") card card (other_card ∷ []) [] page
