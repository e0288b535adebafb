-- ===== src/AdminPages/Orders.antt =====
-- The order of the answers to frontend/app/(dashboard)/admin/audit-log/page.tsx.
use dmtool.Base.{
  ℕ, suc, ◌≤◌, ◌≡◌, refl, sym, ap, false, List, [], ◌∷◌, Option, Text, All, text_eq, ◌==◌, ==_iff,
  Outcome, threw, returned, arith, Bool-cases, inl, inr,
}
use mathlib.Core.List.{Memᴰ}
use mathlib.Core.Path.{subst}
use dmtool.AdminPages.AuditLog.{
  Log, opening, action_param, set_action_filter, shown, on_answer, LogStep, typed, answer, LogSteps,
  none_left, next,
}

All-lookup : {A : Type 0} (P : A → Type 0) (x : A) (xs : List A) → All P xs → Memᴰ x xs → P x
All-lookup P x [] h m = elim m [ ]
All-lookup P x (y ∷ ys) (p, h) (Memᴰ.head e) = subst P (sym e) p
All-lookup P x (y ∷ ys) (p, h) (Memᴰ.tail k) = All-lookup P x ys h k

module _ (A : Type 0) where
  -- The page shows an answer; one that fails leaves what was there.
  abbrev pub ShowsAnswer : Outcome (List A × ℕ) → Log A → Type 0
  ShowsAnswer threw s = Unit
  ShowsAnswer (returned (es, n)) s = (s.entries ≡ es) × (s.total ≡ n)

module _ {A : Type 0} (server : Option Text → Outcome (List A × ℕ)) where
  -- A page that waits for nothing shows what the server says of the filter in the box; the other
  -- facts are about the requests.
  pub record IsCurrent (s : Log A) : Type 0 where
    pub bounded : All (λ q. q.0 ≤ s.current) s.asked
    pub latest : All (λ q. q.0 ≡ s.current → q.1 ≡ s.action_filter) s.asked
    pub shows : s.loading ≡ false → ShowsAnswer A (server (action_param A s.action_filter)) s

  later :
      (n : ℕ) (f : Text) (qs : List (ℕ × Text))
      → All (λ q. q.0 ≤ n) qs
      → All (λ q. q.0 ≤ suc n) qs × All (λ q. q.0 ≡ suc n → q.1 ≡ f) qs
  later n f [] h = (tt, tt)
  later n f (q ∷ qs) (p, h) =
      let (a, b) = later n f qs h in
      ((omega (arith, p), a), ((λ e. absurd (omega (arith, e, p))), b))

  set_action_filter-IsCurrent :
      (f : Text) (s : Log A) → IsCurrent s → IsCurrent (set_action_filter A f s)
  unfolding set_action_filter
  set_action_filter-IsCurrent f s c = elim (Bool-cases (text_eq f s.action_filter)) [
    | inl y ↦ rw y c
    | inr n ↦
        let (a, b) = later s.current f s.asked c.bounded in
        rw n (record {
          bounded = (omega arith, a);
          latest = ((λ e. refl), b);
          shows = λ h. absurd (cc h);
        })
  ]

  shown-IsCurrent :
      (o : Outcome (List A × ℕ)) (s : Log A)
      → IsCurrent s
      → o ≡ server (action_param A s.action_filter)
      → IsCurrent (shown A o s)
  shown-IsCurrent threw s c e = record {
    bounded = c.bounded;
    latest = c.latest;
    shows = λ h. subst (λ o. ShowsAnswer A o (shown A threw s)) e tt;
  }
  shown-IsCurrent (returned (es, n)) s c e = record {
    bounded = c.bounded;
    latest = c.latest;
    shows = λ h. subst (λ o. ShowsAnswer A o (shown A (returned (es, n)) s)) e (refl, refl);
  }

  on_answer-IsCurrent :
      (k : ℕ) (f : Text) (s : Log A)
      → Memᴰ (k, f) s.asked
      → IsCurrent s
      → IsCurrent (on_answer A k (server (action_param A f)) s)
  unfolding on_answer
  on_answer-IsCurrent k f s m c = elim (Bool-cases (k == s.current)) [
    | inl y ↦
        let same =
          All-lookup (λ q. q.0 ≡ s.current → q.1 ≡ s.action_filter) (k, f) s.asked c.latest m
            ((==_iff k s.current).0 y) in
        rw y (
          shown-IsCurrent (server (action_param A f)) s c
            (ap (λ t. server (action_param A t)) same))
    | inr n ↦ rw n c
  ]

  LogStep-IsCurrent : {s t : Log A} → LogStep A server s t → IsCurrent s → IsCurrent t
  LogStep-IsCurrent (typed f s) c = set_action_filter-IsCurrent f s c
  LogStep-IsCurrent (answer k f s m) c = on_answer-IsCurrent k f s m c

  LogSteps-IsCurrent : {s t : Log A} → LogSteps A server s t → IsCurrent s → IsCurrent t
  LogSteps-IsCurrent (none_left s) c = c
  LogSteps-IsCurrent (next s t u x xs) c = LogSteps-IsCurrent xs (LogStep-IsCurrent x c)

  opening-IsCurrent : IsCurrent (opening A)
  opening-IsCurrent = record {
    bounded = (omega arith, tt);
    latest = ((λ e. refl), tt);
    shows = λ h. absurd (cc h);
  }

-- Whatever is typed, and in whatever order the server answers the requests that were made (twice,
-- late or never): a page that waits for nothing shows what the server says of the filter that stands
-- in the box, unless that answer failed. No answer to an older filter is shown in its place.
pub opened-IsCurrent :
    {A : Type 0} (server : Option Text → Outcome (List A × ℕ)) (t : Log A)
    → LogSteps A server (opening A) t
    → t.loading ≡ false
    → ShowsAnswer A (server (action_param A t.action_filter)) t
opened-IsCurrent server t steps h =
    (LogSteps-IsCurrent server steps (opening-IsCurrent server)).shows h
