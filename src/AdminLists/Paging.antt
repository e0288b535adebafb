-- ===== src/AdminLists/Paging.antt =====
-- The pages of a list stay on the list, and the list shown is the one asked for.
use dmtool.Base.{
  ℕ, ◌+◌, ◌-◌, ◌*◌, ◌≤◌, ◌<◌, ◌≡◌, ◌⊎◌, inl, inr, refl, sym, ◌∙◌, Bool, true, false, List, [], ◌∷◌,
  Text, leb, if◌then◌else◌, Outcome, returned, arith,
}
use mathlib.Core.Path.{subst}
use dmtool.AdminLists.{
  put, size, ListPage, Query, Reply, query, fetch, Event, set_search, set_filter, clear_filters,
  toggle_filters, prev, next, handle, put, step, run, settle, prev_enabled, next_enabled, opened,
  first_shown,
}

prev_page :
    (page total : ℕ)
    → prev_enabled page total ≡ true
    → (1 ≤ page) × (page ≡ 1 ⊎ (page - 1) * size < total)
    → let p = if leb (page - 1) 1 then 1 else page - 1 in (1 ≤ p) × (p ≡ 1 ⊎ (p - 1) * size < total)
prev_page page total h k = ground arith

next_page :
    (page total : ℕ)
    → next_enabled page total ≡ true
    → (1 ≤ page + 1) × (page + 1 ≡ 1 ⊎ ((page + 1) - 1) * size < total)
next_page page total h = ground arith

module _ {F A : Type 0} (server : Query F → Reply A) where
  -- The list and its length are those that the server gives for what the page asks.
  pub record IsCurrent (s : ListPage F A) : Type 0 where
    pub entries : s.entries ≡ (server (query s)).entries
    pub total : s.total ≡ (server (query s)).total
    pub not_loading : s.loading ≡ false

  -- The page is one of the list's, the first one if the list is empty.
  abbrev pub IsOnList : ListPage F A → Type 0
  IsOnList s = (1 ≤ s.page) × (s.page ≡ 1 ⊎ (s.page - 1) * size < s.total)

  fetch-IsCurrent : (s : ListPage F A) → IsCurrent (fetch (λ q. returned (server q)) s)
  unfolding fetch query
  fetch-IsCurrent s = record { entries = refl; total = refl; not_loading = refl }

  -- The server's length of a list does not depend on the page that is asked for.
  abbrev pub SameTotal : Type 0
  SameTotal = (q : Query F) (n : ℕ) → (server (record q { page = n })).total ≡ (server q).total

  abbrev IsFine : ListPage F A → Type 0
  IsFine s = IsCurrent s × IsOnList s

  abbrev api : Query F → Outcome (Reply A)
  api q = returned (server q)

  -- Another page of the list that is shown, if it is on the list.
  turn-IsFine :
      SameTotal
      → (s : ListPage F A) (p : ℕ) → IsCurrent s
      → (1 ≤ p) × (p ≡ 1 ⊎ (p - 1) * size < s.total)
      → IsFine (fetch api (record s { page = p; loading = true }))
  unfolding fetch query
  turn-IsFine total s p c (a, b) =
      let e : s.total ≡ (server (query (record s { page = p; loading = true }))).total =
        c.total ∙ sym (total (query s) p) in
      (
        record { entries = refl; total = refl; not_loading = refl },
        (a, subst (λ n. p ≡ 1 ⊎ (p - 1) * size < n) e b),
      )

  first-IsFine : (s : ListPage F A) → s.page ≡ 1 → IsFine (fetch api s)
  unfolding fetch
  first-IsFine s h = (fetch-IsCurrent s, (omega (arith, h), inl h))

module _ {F A : Type 0} (same : F → F → Bool) (server : Query F → Reply A) where
  -- A button that leads to the page `p`, or does nothing.
  button-IsFine :
      SameTotal server
      → (s : ListPage F A) (p : ℕ) (b : Bool) → IsFine server s
      → (b ≡ true → (1 ≤ p) × (p ≡ 1 ⊎ (p - 1) * size < s.total))
      → IsFine server (settle same (api server) b (if b then record s { page = p } else s))
  button-IsFine total s p true (c, o) h = turn-IsFine server total s p c (h refl)
  button-IsFine total s p false f h = f

  step-IsFine :
      SameTotal server
      → (e : Event F) (s : ListPage F A) → IsFine server s
      → IsFine server (step same (api server) e s)
  unfolding step handle query
  step-IsFine total (set_search t) s f =
      first-IsFine server (record s { search = t; page = 1; loading = true }) refl
  step-IsFine total (set_filter g t) s f =
      first-IsFine server (record s { filters = put same g t s.filters; page = 1; loading = true })
        refl
  step-IsFine total clear_filters s f =
      first-IsFine server (record s { filters = λ f. []; page = 1; loading = true }) refl
  step-IsFine total toggle_filters s (c, o) =
      (record { entries = c.entries; total = c.total; not_loading = c.not_loading }, o)
  step-IsFine total prev s (c, o) =
      button-IsFine total s _ (prev_enabled s.page s.total) (c, o)
        (λ h. prev_page s.page s.total h o)
  step-IsFine total next s (c, o) =
      button-IsFine total s _ (next_enabled s.page s.total) (c, o) (λ h. next_page s.page s.total h)

  run-IsFine :
      SameTotal server
      → (es : List (Event F)) (s : ListPage F A) → IsFine server s
      → IsFine server (run same (api server) es s)
  unfolding run
  run-IsFine total [] s f = f
  run-IsFine total (e ∷ es) s f =
      run-IsFine total es (step same (api server) e s) (step-IsFine total e s f)

-- For a server that answers each request before the next click, with a length of the list that does
-- not depend on the page: whatever the user searches, filters and turns since the list was opened, it shows the
-- entries and the length that the server gives for the search, the filters and the page that are
-- set, and that page is on the list: it is the first one, or the first entry that it says it shows
-- is one of the list.
pub run-IsOnList :
    {F : Type 0} (same : F → F → Bool) {A : Type 0} (server : Query F → Reply A)
    → SameTotal server
    → (filters : F → Text) (es : List (Event F))
    → (let s =
          run same
            (λ q. returned (server q))
            es
            (fetch (λ q. returned (server q)) (opened filters)) in
        IsCurrent server s × (1 ≤ s.page) × (s.page ≡ 1 ⊎ first_shown s ≤ s.total))
unfolding first_shown opened
run-IsOnList {F} same {A} server total filters es =
    let (c, (a, b)) =
      run-IsFine same server total es (fetch (λ q. returned (server q)) (opened filters))
        (first-IsFine server (opened filters) refl) in
    (c, a, elim b [ inl p ↦ inl p | inr q ↦ inr (omega (arith, q)) ])
