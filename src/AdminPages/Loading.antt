-- ===== src/AdminPages/Loading.antt =====
-- What the pages of the administration show where nothing can be read.
use dmtool.Base.{
  ◌≡◌, ◌≢◌, Bool, not, any, ◌&&◌, ◌||◌, refl, ap, ◌∙◌, sym, true, false, List, [], ◌∷◌, Text,
  Outcome, threw, returned, arith, Bool-cases, inl, inr,
}
use dmtool.AdminLists.Labels
use dmtool.AdminPages.{waiting, figures, opening, answered, shown, Stats, may_see, revenue_shown}
use dmtool.AdminPages.Detail
use dmtool.AdminPages.Detail.{
  Kinds, Detail, Event, overview_answered, seo_answered, social_answered, metrics_answered,
  both_answered, tab_chosen, handle, says_loading, is_missing, goal_label,
}

-- A page that has been answered no longer waits: it shows the figures of the answer, or that there
-- are none; those of the revenue are not shown to those who may not see them.
pub revenue_shown-answered :
    (reply : Outcome Stats)
    → (revenue_shown (answered false reply opening) ≢ waiting)
      × ((s : Stats)
          → revenue_shown (answered false reply opening) ≡ figures s
          → (reply ≡ returned s) × (may_see s.revenue_available ≡ true))
unfolding revenue_shown answered shown
revenue_shown-answered threw = ((λ e. cc e), (λ s e. absurd (cc e)))
revenue_shown-answered (returned d) = elim (Bool-cases (may_see d.revenue_available)) [
  | inl y ↦ rw y (
    (λ e. cc e),
    λ s e.
        let f : d ≡ s = cc e in (ap returned f, ap (λ z. may_see z.revenue_available) (sym f) ∙ y),
  )
  | inr n ↦ rw n ((λ e. cc e), (λ s e. absurd (cc e)))
]

-- The answer that brings the project.
abbrev pub brings_project : {k : Kinds} → Event k → Bool
brings_project (overview_answered (returned o)) = true
brings_project e = false

-- The reads of the opening have all ended, whether they were answered or not.
abbrev pub is_both_answered : {k : Kinds} → Event k → Bool
is_both_answered both_answered = true
is_both_answered e = false

-- The events, the first one first.
abbrev pub handle_each : {k : Kinds} → List (Event k) → Detail k → Detail k
handle_each [] d = d
handle_each {k} (e ∷ es) d = handle_each es (handle k e d)

handle-loading :
    (k : Kinds) (e : Event k) (d : Detail k)
    → (handle k e d).loading ≡ (not (is_both_answered e) && d.loading)
unfolding handle
handle-loading k (overview_answered threw) d = refl
handle-loading k (overview_answered (returned o)) d = refl
handle-loading k (seo_answered threw) d = refl
handle-loading k (seo_answered (returned q)) d = refl
handle-loading k (social_answered threw) d = refl
handle-loading k (social_answered (returned (latest, history))) d = refl
handle-loading k (metrics_answered threw) d = refl
handle-loading k (metrics_answered (returned ms)) d = refl
handle-loading k both_answered d = refl
handle-loading k (tab_chosen t) d = refl

handle-is_missing :
    (k : Kinds) (e : Event k) (d : Detail k)
    → is_missing k (handle k e d).project ≡ (not (brings_project e) && is_missing k d.project)
unfolding handle
handle-is_missing k (overview_answered threw) d = refl
handle-is_missing k (overview_answered (returned o)) d = refl
handle-is_missing k (seo_answered threw) d = refl
handle-is_missing k (seo_answered (returned q)) d = refl
handle-is_missing k (social_answered threw) d = refl
handle-is_missing k (social_answered (returned (latest, history))) d = refl
handle-is_missing k (metrics_answered threw) d = refl
handle-is_missing k (metrics_answered (returned ms)) d = refl
handle-is_missing k both_answered d = refl
handle-is_missing k (tab_chosen t) d = refl

handle_each-loading :
    (k : Kinds) (es : List (Event k)) (d : Detail k)
    → (handle_each es d).loading ≡ (not (any is_both_answered es) && d.loading)
handle_each-loading k [] d = refl
handle_each-loading k (e ∷ es) d =
    ground (arith, handle_each-loading k es (handle k e d), handle-loading k e d)

handle_each-is_missing :
    (k : Kinds) (es : List (Event k)) (d : Detail k)
    → is_missing k (handle_each es d).project
      ≡ (not (any brings_project es) && is_missing k d.project)
handle_each-is_missing k [] d = refl
handle_each-is_missing k (e ∷ es) d =
    ground (arith, handle_each-is_missing k es (handle k e d), handle-is_missing k e d)

-- After any events, the page says that it loads exactly when the reads of its opening have not all
-- ended or no answer among them has brought the project; so a page whose project cannot be read
-- says so for ever.
pub handle_each-says_loading :
    (k : Kinds) (es : List (Event k))
    → says_loading k (handle_each es (Detail.opening k))
      ≡ (not (any is_both_answered es) || not (any brings_project es))
unfolding says_loading
handle_each-says_loading k es = ground (
  arith,
  handle_each-loading k es (Detail.opening k),
  handle_each-is_missing k es (Detail.opening k),
)

-- The two pages on a project name its goal alike.
pub goal_label-goal_label : (g : Text) → goal_label g ≡ Labels.goal_label g
unfolding goal_label Labels.goal_label
goal_label-goal_label g = refl
