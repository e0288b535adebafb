-- ===== src/Projects/Networks.antt =====
-- What frontend/app/(dashboard)/social/growth/page.tsx and social/profile-analyzer/page.tsx read of
-- the project that was chosen, and the platform that they share by the same storage.
use dmtool.Base.{
  ℕ, Bool, ◌&&◌, ◌||◌, List, [], ◌∷◌, Option, none, some, Text, codes, text_eq, is_empty, any, all,
  length, ◌==◌, if◌then◌else◌, Outcome, threw, returned, strip_prefix,
}
use dmtool.Cookie.Store.{is_some}
use dmtool.Calendar.{is_filled}
use dmtool.Projects.{LocalStorage, Load, Project, platform_key, or_none}
use dmtool.Projects.Latest.{Social, normalize_platform, dedupe_latest_metrics}
use dmtool.Projects.Pages.{both, Metric}

-- The platform that the pages share, by the same storage.
module _ (store : LocalStorage) where
  -- `saved` where an entry has it, else the first entry's; a read or a write that throws ends it.
  abbrev pub target_platform : Option Text → Social → List Social → Text
  target_platform none a rest = a.platform
  target_platform (some t) a rest =
      if any (λ m. text_eq m.platform t) (a ∷ rest) then t else a.platform

  abbrev pub keep_platform : Outcome store.State → store.State → store.State
  keep_platform threw s = s
  keep_platform (returned t) s = t

  abbrev pub show_platform :
      Outcome (Option Text) → List Social → store.State × Text → store.State × Text
  show_platform threw ms (s, t) = (s, t)
  show_platform (returned saved) [] (s, t) = (s, t)
  show_platform (returned saved) (a ∷ rest) (s, t) =
      let target = target_platform saved a rest in
      (keep_platform (store.set_item platform_key target s) s, target)

  unfoldable pub choose_platform : List Social → store.State × Text → store.State × Text
  choose_platform ms (s, t) = show_platform (store.get_item platform_key s) ms (s, t)

-- The growth page.
pub record Growth : Type 0 where
  pub metrics : List Metric
  pub social_metrics : List Social
  pub social_history : List Social
  pub active_platform : Text

pub record GrowthApi : Type 0 where
  pub get_metrics : ℕ → Outcome (Option (List Metric))
  pub get_social_insights : ℕ → Outcome (Option (List Social))
  pub get_social_history : ℕ → ℕ → Outcome (Option (List Social))

module _ (store : LocalStorage) where
  abbrev pub with_platform : Growth → store.State × Text → store.State × Growth
  with_platform d (s, t) = (s, record d { active_platform = t })

  abbrev pub growth_answered :
      Outcome (Option (List Metric) × (Option (List Social) × Option (List Social)))
      → store.State × Growth
      → store.State × Growth
  growth_answered threw (s, d) = (s, d)
  growth_answered (returned (ms, (social, history))) (s, d) =
      with_platform
        (record d {
          metrics = or_none ms;
          social_metrics = or_none social;
          social_history = or_none history;
        })
        (choose_platform store (or_none social) (s, d.active_platform))

  unfoldable pub load_growth : GrowthApi → Load store Growth
  unfolding choose_platform
  load_growth api p (s, d) =
      growth_answered
        (both (api.get_metrics p.id)
          (both (api.get_social_insights p.id) (api.get_social_history p.id 30)))
        (s, d)

-- The analysis of a profile: what it shows, and the two rounds of answers it may read.
pub record Profile : Type 0 where
  pub social_metrics : List Social
  pub social_history : List Social
  pub active_platform : Text

pub record ProfileApi : Type 0 where
  pub get_social_insights : ℕ → Outcome (Option (List Social))
  pub get_social_history : ℕ → ℕ → Outcome (Option (List Social))
  pub refreshed_insights : ℕ → Outcome (Option (List Social))
  pub refreshed_history : ℕ → ℕ → Outcome (Option (List Social))

abbrev pub has_meta_social : Project → Bool
has_meta_social p = is_filled p.ig_handle || is_filled p.fb_handle || is_filled p.facebook_handle

abbrev pub is_silent : Social → Bool
is_silent m = m.reach == 0 && m.engagement == 0 && m.profile_visits == 0 && m.link_taps == 0

unfoldable pub needs_live_refresh : Project → List Social → Bool
needs_live_refresh p ms =
    has_meta_social p && (length ms == 0 || all (λ m. m.is_simulated) ms || any is_silent ms)

module _ (to_lower : Text → Text) (store : LocalStorage) where
  abbrev pub with_profile : Profile → store.State × Text → store.State × Profile
  with_profile d (s, t) = (s, record d { active_platform = t })

  abbrev pub show_profile :
      List Social → List Social → store.State × Profile → store.State × Profile
  show_profile ms history (s, d) =
      with_profile (record d { social_metrics = ms; social_history = history })
        (choose_platform store ms (s, d.active_platform))

  abbrev pub refreshed :
      Outcome (Option (List Social) × Option (List Social))
      → store.State × Profile
      → store.State × Profile
  refreshed threw w = w
  refreshed (returned (ms, history)) w =
      show_profile (dedupe_latest_metrics to_lower (or_none ms)) (or_none history) w

  abbrev pub profile_answered :
      ProfileApi
      → Project
      → Outcome (Option (List Social) × Option (List Social))
      → store.State × Profile
      → store.State × Profile
  profile_answered api p threw w = w
  profile_answered api p (returned (ms, history)) w =
      let ns = dedupe_latest_metrics to_lower (or_none ms) in
      if needs_live_refresh p ns
      then refreshed (both (api.refreshed_insights p.id) (api.refreshed_history p.id 90)) w
      else show_profile ns (or_none history) w

  unfoldable pub load_profile : ProfileApi → Load store Profile
  unfolding choose_platform dedupe_latest_metrics needs_live_refresh
  load_profile api p w =
      profile_answered api p (both (api.get_social_insights p.id) (api.get_social_history p.id 90))
        w

-- `s.includes(t)`.
unfoldable pub includes : Text → Text → Bool
includes [] t = is_empty t
includes (c ∷ s) t = let rest = includes s t in is_some (strip_prefix t (c ∷ s)) || rest

-- `a || b || "username"`.
abbrev pub first_handle : List (Option Text) → Text
first_handle [] = codes "username"
first_handle (none ∷ hs) = first_handle hs
first_handle (some h ∷ hs) = if is_empty h then first_handle hs else h

unfoldable pub handle_for_platform : (Text → Text) → Option Project → Text → Text
unfolding normalize_platform includes
handle_for_platform to_lower none platform = codes "username"
handle_for_platform to_lower (some p) platform =
    let name = normalize_platform to_lower platform in
    if includes name (codes "instagram")
    then first_handle (p.ig_handle ∷ [])
    else if includes name (codes "twitter")
    then first_handle (p.twitter_handle ∷ [])
    else if includes name (codes "linkedin")
    then first_handle (p.linkedin_handle ∷ [])
    else if includes name (codes "facebook")
    then first_handle (p.facebook_handle ∷ p.fb_handle ∷ [])
    else codes "username"
