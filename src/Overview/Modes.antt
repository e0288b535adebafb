-- ===== src/Overview/Modes.antt =====
-- The overview of a mode: frontend/app/(dashboard)/dashboard/[mode]/overview-client.tsx.
use dmtool.Base.{
  ℕ, ◌≡◌, refl, sym, ap, ◌∙◌, Bool, true, false, List, [], ◌∷◌, ◌++◌, all, any, Option, none, some,
  Text, codes, text_eq, if◌then◌else◌, Outcome, threw, returned,
}
use dmtool.Api.{show}
use dmtool.Calendar.Numbers.{Parsed, plus, parse_int}
use dmtool.Cookie.{Mode, search, social, combined}
use dmtool.Projects.Choice.{IsWritable, saved_id-show}
use dmtool.Projects.Digits.{parse_int-show}
use dmtool.Projects.{choose, LocalStorage, Project, project_key, default_project, or_none, saved_id}

-- The links of the modes.
unfoldable pub tabs : Mode → List Text
tabs search =
    codes "/dashboard"
    ∷ codes "/seo/site-explorer"
    ∷ codes "/seo/keywords"
    ∷ codes "/seo/rank-tracking"
    ∷ codes "/ai-insights"
    ∷ codes "/action-center"
    ∷ []
tabs social =
    codes "/dashboard"
    ∷ codes "/social/profile-analyzer"
    ∷ codes "/social/insights"
    ∷ codes "/social/growth"
    ∷ codes "/ai-insights"
    ∷ codes "/action-center"
    ∷ []
tabs combined =
    codes "/dashboard"
    ∷ codes "/seo/site-explorer"
    ∷ codes "/seo/keywords"
    ∷ codes "/seo/rank-tracking"
    ∷ codes "/social/profile-analyzer"
    ∷ codes "/social/insights"
    ∷ codes "/social/growth"
    ∷ codes "/ai-insights"
    ∷ codes "/action-center"
    ∷ codes "/analytics/traffic"
    ∷ codes "/analytics/custom"
    ∷ []

pub record ModeOverview : Type 0 where
  pub projects : List Project
  pub active_project : Option Project
  pub is_loading : Bool
  pub load_error : Option Text

-- `getItem(…) ?? "0"`: an empty text stays one.
abbrev pub or_missing : Option Text → Text
or_missing none = codes "0"
or_missing (some t) = t

abbrev pub read_saved : Outcome (Option Text) → Parsed
read_saved threw = plus 0
read_saved (returned t) = parse_int (or_missing t)

module _ (store : LocalStorage) where
  abbrev pub kept :
      Outcome store.State → store.State → ModeOverview → Text → store.State × ModeOverview
  kept threw s v why = (s, record v { load_error = some why })
  kept (returned t) s v why = (t, v)

  abbrev pub activated :
      Text → List Project → store.State × ModeOverview → store.State × ModeOverview
  activated why [] (s, v) = (s, record v { active_project = none })
  activated why (p ∷ ps) (s, v) =
      let q = default_project (some (read_saved (store.get_item project_key s))) p ps in
      kept (store.set_item project_key (show q.id) s) s (record v { active_project = some q }) why

  abbrev pub taken :
      Text
      → Outcome (Option (List Project))
      → store.State × ModeOverview
      → store.State × ModeOverview
  taken why threw (s, v) = (s, record v { load_error = some why })
  taken why (returned ps) (s, v) =
      activated why (or_none ps) (s, record v { projects = or_none ps })

  abbrev pub settled : store.State × ModeOverview → store.State × ModeOverview
  settled (s, v) = (s, record v { is_loading = false })

  -- The effect, for the text of what is thrown; behind the end of the page nothing is done.
  unfoldable pub load_projects :
      Bool
      → Text
      → Outcome (Option (List Project))
      → store.State × ModeOverview
      → store.State × ModeOverview
  unfolding default_project
  load_projects cancelled why reply w = if cancelled then w else settled (taken why reply w)

-- The link of a card.
abbrev pub active_href : Option Project → Text → Text
active_href none href = href
active_href (some p) href = href ++ (codes "?project_id=" ++ show p.id)

-- The combined mode has every link of the two others.
tabs-combined : (m : Mode) → all (λ t. any (text_eq t) (tabs combined)) (tabs m) ≡ true
unfolding tabs text_eq
tabs-combined search = refl
tabs-combined social = refl
tabs-combined combined = refl

-- With a number in the storage, and where the storage takes writes, the overview of a mode shows the
-- project that the other pages choose.
pub load_projects-choose :
    (store : LocalStorage)
    → IsWritable store
    → (n : ℕ) (why : Text) (p : Project) (ps : List Project) (s : store.State) → (v : ModeOverview)
    → store.get_item project_key s ≡ returned (some (show n))
    → (load_projects store false why (returned (some (p ∷ ps))) (s, v)).1.active_project
      ≡ some (choose none (saved_id (store.get_item project_key s)) p ps)
unfolding load_projects choose
load_projects-choose store ok n why p ps s v h =
    let read : some (read_saved (store.get_item project_key s))
        ≡ saved_id (store.get_item project_key s) =
      ap (λ o. some (read_saved o)) h
      ∙ ap some (parse_int-show n)
      ∙ sym (ap saved_id h ∙ saved_id-show n) in
    let q = default_project (some (read_saved (store.get_item project_key s))) p ps in
    let (t, e) = ok project_key (show q.id) s in
    let w = record v { projects = p ∷ ps; active_project = some q } in
    ap (λ o. (settled store (kept store o s w why)).1.active_project) e
    ∙ ap (λ i. some (default_project i p ps)) read
