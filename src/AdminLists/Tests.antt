-- ===== src/AdminLists/Tests.antt =====
-- Concrete inputs for the lists of the administration.
use dmtool.Base.{ℕ, ◌≤◌, ◌≡◌, ◌⊎◌, refl, List, [], ◌∷◌, codes, text_eq, returned, replicate}
use dmtool.AdminLists.{
  ProjectFilter, goal, ListPage, Query, Reply, Event, set_filter, next, prev, fetch, run, opened,
  first_shown, last_shown,
}
use dmtool.AdminLists.Labels.{goal_label, same_project_filter}
use dmtool.AdminLists.Paging.{IsCurrent, run-IsOnList}

-- A server with sixty projects, each entry the number of its page.
abbrev sixty : Query ProjectFilter → Reply ℕ
sixty q = record { entries = replicate 25 q.page; total = 60 }

abbrev clicks : List (Event ProjectFilter)
clicks = next ∷ next ∷ next ∷ prev ∷ []

abbrev after_clicks : ListPage ProjectFilter ℕ
after_clicks =
    run same_project_filter (λ q. returned (sixty q)) clicks
      (fetch (λ q. returned (sixty q)) (opened (λ f. [])))

paging_example :
    IsCurrent sixty after_clicks
    × (1 ≤ after_clicks.page)
    × (after_clicks.page ≡ 1 ⊎ first_shown after_clicks ≤ after_clicks.total)
paging_example = run-IsOnList same_project_filter sixty (λ q n. refl) (λ f. []) clicks

-- The third `Next` is disabled, and `Prev` goes back to the second page.
clicks_run : after_clicks.page ≡ 2
unfolding run opened
clicks_run = refl

shown_run : last_shown after_clicks ≡ 50
unfolding last_shown run opened
shown_run = refl

filter_run :
    (run same_project_filter
      (λ q. returned (sixty q))
      (next ∷ set_filter goal (codes "seo") ∷ [])
      (fetch (λ q. returned (sixty q)) (opened (λ f. [])))).page
    ≡ 1
unfolding run opened
filter_run = refl

label_run : goal_label (codes "both") ≡ codes "SEO + Social"
unfolding goal_label text_eq
label_run = refl
