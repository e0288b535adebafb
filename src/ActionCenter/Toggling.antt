-- ===== src/ActionCenter/Toggling.antt =====
-- The marks of the tasks after toggles, of which some fail.
use dmtool.Base.{
  ℕ, zero, suc, ◌==◌, if◌then◌else◌, Bool-cases, inl, inr, ◌≡◌, ◌≢◌, refl, sym, ap, ◌∙◌, Bool, true,
  false, not, List, [], ◌∷◌, map, Outcome, threw, returned, ==_iff,
}
use mathlib.Core.List.{Memᴰ}
use dmtool.ActionCenter.{Task, ActionPage, flip, toggle_task, on_toggled}

-- A toggle whose answer comes before the next one starts.
unfoldable pub toggle_answered : ℕ → Outcome (Unit {0}) → ActionPage → ActionPage
unfolding toggle_task on_toggled
toggle_answered i reply s = let (prev, t) = toggle_task i s in on_toggled prev reply t

unfoldable pub toggle_each : List (ℕ × Outcome (Unit {0})) → ActionPage → ActionPage
unfolding toggle_answered
toggle_each [] s = s
toggle_each ((i, reply) ∷ es) s = toggle_each es (toggle_answered i reply s)

-- How many of the calls for a task succeeded.
abbrev pub successes : ℕ → List (ℕ × Outcome (Unit {0})) → ℕ
successes i [] = 0
successes i ((j, threw) ∷ es) = successes i es
successes i ((j, returned _) ∷ es) = let n = successes i es in if i == j then suc n else n

-- A mark that is turned so many times.
abbrev pub turned : ℕ → Bool → Bool
turned zero b = b
turned (suc n) b = not (turned n b)

-- The task with its mark turned once for each call for its number that succeeded.
abbrev pub marked : List (ℕ × Outcome (Unit {0})) → Task → Task
marked es t = record t { is_done = turned (successes t.id es) t.is_done }

turned-not : (n : ℕ) (b : Bool) → turned n (not b) ≡ not (turned n b)
turned-not zero b = refl
turned-not (suc n) b = ap not (turned-not n b)

map-marked_none : (ts : List Task) → map (marked []) ts ≡ ts
map-marked_none [] = refl
map-marked_none (t ∷ ts) = ap (λ us. t ∷ us) (map-marked_none ts)

marked-flip :
    (i : ℕ) (es : List (ℕ × Outcome (Unit {0}))) (t : Task)
    → marked es (flip i t) ≡ marked ((i, returned tt) ∷ es) t
marked-flip i es t = elim (Bool-cases (t.id == i)) [
  | inl y ↦ rw y (ap (λ b. record t { is_done = b }) (turned-not (successes t.id es) t.is_done))
  | inr n ↦ rw n refl
]

map-marked-flip :
    (i : ℕ) (es : List (ℕ × Outcome (Unit {0}))) (ts : List Task)
    → map (marked es) (map (flip i) ts) ≡ map (marked ((i, returned tt) ∷ es)) ts
map-marked-flip i es [] = refl
map-marked-flip i es (t ∷ ts) = cc (marked-flip i es t, map-marked-flip i es ts)

-- As long as each toggle is answered before the next, the page shows every task, in its place, with
-- its mark turned once for each of the calls for its number that succeeded, and otherwise as it was.
pub toggle_each-marked :
    (es : List (ℕ × Outcome (Unit {0}))) (s : ActionPage)
    → (toggle_each es s).tasks ≡ map (marked es) s.tasks
unfolding toggle_each toggle_answered
toggle_each-marked [] s = sym (map-marked_none s.tasks)
toggle_each-marked ((i, threw) ∷ es) s = toggle_each-marked es (toggle_answered i threw s)
toggle_each-marked ((i, returned _) ∷ es) s =
    toggle_each-marked es (toggle_answered i (returned tt) s) ∙ map-marked-flip i es s.tasks

-- Two toggles at a time: the second is made before the first is answered, and succeeds; the first
-- fails.
unfoldable pub overlapping : ℕ → ℕ → ActionPage → ActionPage
unfolding toggle_task on_toggled
overlapping i j s =
    let (prev, t) = toggle_task i s in
    let (prev2, u) = toggle_task j t in on_toggled prev threw (on_toggled prev2 (returned tt) u)

first_mark : List Task → Bool
first_mark [] = true
first_mark (t ∷ ts) = t.is_done

not_fixed : (b : Bool) → not b ≢ b
not_fixed true = λ h. cc h
not_fixed false = λ h. cc h

flip-is_done : (j : ℕ) (t : Task) → t.id ≡ j → (flip j t).is_done ≡ not t.is_done
flip-is_done j t e = let h = (==_iff t.id j).1 e in rw h refl

pub flip-changes : (j : ℕ) (ts : List Task) (t : Task) → Memᴰ t ts → t.id ≡ j → map (flip j) ts ≢ ts
flip-changes j [] t m e = elim m [ ]
flip-changes j (x ∷ ts) t (Memᴰ.head p) e = λ q.
    let h = flip-is_done j x (ap (λ y. y.id) (sym p) ∙ e) in
    not_fixed x.is_done (sym h ∙ unfold first_mark in ap first_mark q)
flip-changes j (x ∷ ts) t (Memᴰ.tail m) e = λ q. flip-changes j ts t m e (cc q)

-- Two toggles that overlap lose one: where the second task is on the page, and its toggle succeeds
-- before that of the first fails, the page shows the tasks as they were before both, and not with
-- the mark that the successful call has turned.
pub overlapping-lost :
    (i j : ℕ) (s : ActionPage) (t : Task)
    → Memᴰ t s.tasks
    → t.id ≡ j
    → ((overlapping i j s).tasks ≡ s.tasks)
      × ((overlapping i j s).tasks ≢ map (marked ((j, returned tt) ∷ (i, threw) ∷ [])) s.tasks)
unfolding overlapping
overlapping-lost i j s t m e = (
  refl,
  λ q. flip-changes j s.tasks t m e (
      sym (map-marked_none (map (flip j) s.tasks))
      ∙ map-marked-flip j ((i, threw) ∷ []) s.tasks
      ∙ sym q),
)
