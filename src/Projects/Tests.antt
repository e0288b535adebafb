-- ===== src/Projects/Tests.antt =====
-- Concrete inputs for the theorems on the project that the pages share.
use dmtool.Base.{
  ℕ, ◌+◌, ◌≡◌, refl, ◌&&◌, false, List, [], ◌∷◌, map, Option, none, some, Text, codes, text_eq,
  trim, strip_prefix, leb, if◌then◌else◌, threw, returned,
}
use mathlib.Core.List.{Memᴰ}
use dmtool.AdminPlans.{plus}
use dmtool.Projects.{Project, Page, project_key, saved_id, choose, fetch_data, handle_sync}
use dmtool.Projects.Choice.{fetch_data-next_page}
use dmtool.Projects.Memory.{memory, memory-IsWritable}
use dmtool.Projects.Keeping.{load_growth-KeepsProject}
use dmtool.Projects.Syncing.{ShowsStill, handle_sync-ShowsStill}
use dmtool.Projects.Latest.{Social, dedupe_latest_metrics}
use dmtool.Projects.Latest.Unique.{IsSelection, dedupe_latest_metrics-IsSelection}
use dmtool.Projects.Pages.{load_ranks, position_label}
use dmtool.Projects.Networks.{Growth, GrowthApi, load_growth, handle_for_platform}

abbrev site : ℕ → Text → Project
site i handle = record {
  id = i;
  ig_handle = some handle;
  fb_handle = none;
  facebook_handle = none;
  twitter_handle = none;
  linkedin_handle = none;
}

abbrev figures : Text → ℕ → Social
figures platform time = record {
  platform = platform;
  is_simulated = false;
  recorded_at = time;
  reach = 1;
  engagement = 1;
  profile_visits = 0;
  link_taps = 0;
}

abbrev growth_api : GrowthApi
growth_api = record {
  get_metrics = λ i. returned none;
  get_social_insights = λ i. returned (some (figures (codes "instagram") 5 ∷ []));
  get_social_history = λ i d. threw;
}

abbrev growth_page : Page Growth
growth_page = record {
  projects = [];
  project = none;
  content = record { metrics = []; social_metrics = []; social_history = []; active_platform = [] };
  loading = false;
  syncing = false;
}

abbrev rank_page : Page (Option ℕ)
rank_page = record {
  projects = [];
  project = none;
  content = none;
  loading = false;
  syncing = false;
}

-- The second of three projects is opened on one page and found again on the next, with a new list.
abbrev two : Project
two = site 2 (codes "two")

abbrev four : Project
four = site 4 (codes "four")

abbrev nine : Project
nine = site 9 (codes "nine")

fetch_data_example :
    (let s =
        fetch_data memory
          (load_growth memory growth_api)
          (some 4)
          (returned (some (two ∷ four ∷ nine ∷ [])))
          ([], growth_page) in
      let b =
        fetch_data memory
          (load_ranks memory (λ i. returned (some i)))
          none
          (returned (some (nine ∷ four ∷ [])))
          (s.0, rank_page) in
      (q r : Project) × Memᴰ q (two ∷ four ∷ nine ∷ [])
      × (s.1.project ≡ some q)
      × (b.1.project ≡ some r)
      × (r.id ≡ q.id)
      × (s.1.loading ≡ false)
      × (b.1.loading ≡ false))
fetch_data_example =
    fetch_data-next_page memory memory-IsWritable (load_growth memory growth_api)
      (load_ranks memory (λ i. returned (some i))) (load_growth-KeepsProject memory growth_api)
      (some 4) two nine (four ∷ nine ∷ []) (four ∷ []) [] growth_page rank_page four_listed
  where
    four_listed :
        Memᴰ
          (choose (some 4) (saved_id (memory.get_item project_key [])) two (four ∷ nine ∷ []))
          (nine ∷ four ∷ [])
    four_listed = unfold choose in Memᴰ.tail (Memᴰ.head refl)

handle_sync_example :
    ShowsStill four
      (handle_sync memory
        (load_growth memory growth_api)
        (some four)
        (returned tt)
        (returned (some (two ∷ four ∷ [])))
        ([], record growth_page { project = some four })).1
handle_sync_example =
    handle_sync-ShowsStill memory memory-IsWritable (load_growth memory growth_api) four
      (returned tt) (returned (some (two ∷ four ∷ []))) []
      (record growth_page { project = some four }) (λ e. cc e) refl (Memᴰ.tail (Memᴰ.head refl))

abbrev lower : Text → Text
lower = map (λ c. if leb 65 c && leb c 90 then c + 32 else c)

abbrev three_figures : List Social
three_figures =
    figures (codes " Instagram") 5
    ∷ figures (codes "facebook") 1
    ∷ figures (codes "instagram") 7
    ∷ []

dedupe_example : IsSelection lower three_figures (dedupe_latest_metrics lower three_figures)
dedupe_example = dedupe_latest_metrics-IsSelection lower three_figures

dedupe_run : map (λ m. m.recorded_at) (dedupe_latest_metrics lower three_figures) ≡ 7 ∷ 1 ∷ []
unfolding dedupe_latest_metrics trim text_eq
dedupe_run = refl

label_run : position_label (plus 7 1) ≡ codes "Page 1"
unfolding position_label
label_run = refl

handle_run : handle_for_platform lower (some two) (codes "My Instagram") ≡ codes "two"
unfolding handle_for_platform trim strip_prefix
handle_run = refl
