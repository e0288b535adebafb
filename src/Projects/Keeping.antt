-- ===== src/Projects/Keeping.antt =====
-- The loads of the pages write the platform and nothing else into the storage.
use dmtool.Base.{
  ◌≡◌, ◌≢◌, ◌⊎◌, refl, sym, ap, ◌∙◌, true, List, [], ◌∷◌, Option, none, some, Text, Outcome, threw,
  returned, text_eq, text_eq_iff, text_ne, any, arith, Bool-cases, inl, inr, map,
}
use mathlib.Core.List.{Memᴰ}
use dmtool.Projects.{LocalStorage, Project, project_key, platform_key, or_none}
use dmtool.Projects.Choice.{KeepsProject}
use dmtool.Projects.Latest.{Social, dedupe_latest_metrics}
use dmtool.Projects.Pages.{both, TrafficApi, load_traffic}
use dmtool.Projects.Networks.{
  target_platform, keep_platform, show_platform, choose_platform, GrowthApi, growth_answered,
  load_growth, Profile, ProfileApi, profile_answered, refreshed, needs_live_refresh, load_profile,
  show_profile,
}

keys_differ : project_key ≢ platform_key
keys_differ = text_ne project_key platform_key (unfold text_eq in refl)

module _ (store : LocalStorage) where
  -- Splits on what the storage answers to a write and keeps the equation.
  write_cases : (o : Outcome store.State) → (o ≡ threw) ⊎ ((t : store.State) × (o ≡ returned t))
  write_cases threw = inl refl
  write_cases (returned t) = inr (t, refl)

  show_platform-keeps :
      (saved : Outcome (Option Text)) (ms : List Social) (s : store.State) (t : Text)
      → store.get_item project_key (show_platform store saved ms (s, t)).0
        ≡ store.get_item project_key s
  show_platform-keeps threw ms s t = refl
  show_platform-keeps (returned saved) [] s t = refl
  show_platform-keeps (returned saved) (a ∷ rest) s t =
      let target = target_platform store saved a rest in
      elim (write_cases (store.set_item platform_key target s)) [
        | inl y ↦ ap (λ o. store.get_item project_key (keep_platform store o s)) y
        | inr (u, y) ↦
            ap (λ o. store.get_item project_key (keep_platform store o s)) y
            ∙ store.get_item-set_item_other project_key platform_key target s u keys_differ y
      ]

  choose_platform-keeps :
      (ms : List Social) (s : store.State) (t : Text)
      → store.get_item project_key (choose_platform store ms (s, t)).0
        ≡ store.get_item project_key s
  unfolding choose_platform
  choose_platform-keeps ms s t = show_platform-keeps (store.get_item platform_key s) ms s t

  pub load_growth-KeepsProject : (api : GrowthApi) → KeepsProject store (load_growth store api)
  unfolding load_growth
  load_growth-KeepsProject api p s d = growth_keeps (
      both (api.get_metrics p.id)
        (both (api.get_social_insights p.id) (api.get_social_history p.id 30)))
    where
      growth_keeps :
          (o : _)
          → store.get_item project_key (growth_answered store o (s, d)).0
            ≡ store.get_item project_key s
      growth_keeps threw = refl
      growth_keeps (returned (ms, (none, history))) = choose_platform-keeps [] s d.active_platform
      growth_keeps (returned (ms, (some social, history))) =
          choose_platform-keeps social s d.active_platform

  pub load_traffic-KeepsProject :
      {T : Type 0} (api : TrafficApi T) → KeepsProject store (load_traffic store api)
  unfolding load_traffic
  load_traffic-KeepsProject api p s d = refl

  module _ (to_lower : Text → Text) where
    show_profile-keeps :
        (ms history : List Social) (w : store.State × Profile)
        → store.get_item project_key (show_profile to_lower store ms history w).0
          ≡ store.get_item project_key w.0
    show_profile-keeps ms history (s, d) = choose_platform-keeps ms s d.active_platform

    refreshed-keeps :
        (o : Outcome (Option (List Social) × Option (List Social))) (w : store.State × Profile)
        → store.get_item project_key (refreshed to_lower store o w).0
          ≡ store.get_item project_key w.0
    refreshed-keeps threw w = refl
    refreshed-keeps (returned (ms, history)) w =
        show_profile-keeps (dedupe_latest_metrics to_lower (or_none ms)) (or_none history) w

    profile_answered-keeps :
        (api : ProfileApi) (p : Project)
        → (o : Outcome (Option (List Social) × Option (List Social))) (w : store.State × Profile)
        → store.get_item project_key (profile_answered to_lower store api p o w).0
          ≡ store.get_item project_key w.0
    profile_answered-keeps api p threw w = refl
    profile_answered-keeps api p (returned (ms, history)) w =
        let ns = dedupe_latest_metrics to_lower (or_none ms) in
        elim (Bool-cases (needs_live_refresh p ns)) [
          | inl y ↦ rw y (
              refreshed-keeps (both (api.refreshed_insights p.id) (api.refreshed_history p.id 90))
                w)
          | inr n ↦ rw n (show_profile-keeps ns (or_none history) w)
        ]

    pub load_profile-KeepsProject :
        (api : ProfileApi) → KeepsProject store (load_profile to_lower store api)
    unfolding load_profile
    load_profile-KeepsProject api p s d =
        profile_answered-keeps api p
          (both (api.get_social_insights p.id) (api.get_social_history p.id 90)) (s, d)

  -- The platform that is shown is that of an entry, where the storage can be read.
  target_platform-Memᴰ :
      (saved : Option Text) (a : Social) (rest : List Social)
      → Memᴰ (target_platform store saved a rest) (map (λ m. m.platform) (a ∷ rest))
  target_platform-Memᴰ none a rest = Memᴰ.head refl
  target_platform-Memᴰ (some t) a rest =
      elim (Bool-cases (any (λ m. text_eq m.platform t) (a ∷ rest))) [
        | inl y ↦ rw y (any-Memᴰ (a ∷ rest) y)
        | inr n ↦ rw n (Memᴰ.head refl)
      ]
    where
      any-Memᴰ :
          (ms : List Social)
          → any (λ m. text_eq m.platform t) ms ≡ true
          → Memᴰ t (map (λ m. m.platform) ms)
      any-Memᴰ [] h = absurd (ground arith)
      any-Memᴰ (m ∷ ms) h = elim (Bool-cases (text_eq m.platform t)) [
        | inl y ↦ Memᴰ.head (sym ((text_eq_iff m.platform t).0 y))
        | inr n ↦ Memᴰ.tail (any-Memᴰ ms (ground arith))
      ]
