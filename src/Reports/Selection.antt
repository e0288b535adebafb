-- ===== src/Reports/Selection.antt =====
-- The metrics that are selected in frontend/app/(dashboard)/analytics/custom/page.tsx, and their
-- totals.
use dmtool.Base.{
  ℕ, ◌≡◌, ◌≢◌, ◌<◌, refl, ap, ◌∙◌, sym, true, false, not, List, [], ◌∷◌, ◌++◌, Option, none, some,
  Text, All, text_eq, text_eq_iff, text_ne, filter, length, ltb, leb, if◌then◌else◌, arith,
  Bool-cases, inl, inr,
}
use dmtool.Roles.{includes}
use dmtool.Roles.Permissions.{includes-append, includes-filter}
use dmtool.Reports.{
  Row, metric_keys, toggle_metric, sum_of, assign_total, totals_onto, Report, totals,
}

-- No key twice.
abbrev pub IsDistinct : List Text → Type 0
IsDistinct [] = Unit
IsDistinct (k ∷ ks) = All (λ j. j ≢ k) ks × IsDistinct ks

-- What the page keeps of its selection.
pub record IsChoice (sel : List Text) : Type 0 where
  pub some_selected : 0 < length sel
  pub distinct : IsDistinct sel
  pub listed : All (λ k. includes k metric_keys ≡ true) sel

All-filter :
    (P : Text → Type 0) (key : Text) (ks : List Text)
    → All P ks
    → All P (filter (λ k. not (text_eq k key)) ks)
All-filter P key [] h = tt
All-filter P key (k ∷ ks) (p, h) = elim (Bool-cases (text_eq k key)) [
  | inl y ↦ rw y (All-filter P key ks h)
  | inr n ↦ rw n (p, All-filter P key ks h)
]

IsDistinct-filter :
    (key : Text) (ks : List Text)
    → IsDistinct ks
    → IsDistinct (filter (λ k. not (text_eq k key)) ks)
IsDistinct-filter key [] h = tt
IsDistinct-filter key (k ∷ ks) (p, h) = elim (Bool-cases (text_eq k key)) [
  | inl y ↦ rw y (IsDistinct-filter key ks h)
  | inr n ↦ rw n (All-filter (λ j. j ≢ k) key ks p, IsDistinct-filter key ks h)
]

-- Of two different keys one stays.
filter_stays :
    (key : Text) (ks : List Text)
    → IsDistinct ks
    → ltb 1 (length ks) ≡ true
    → 0 < length (filter (λ k. not (text_eq k key)) ks)
filter_stays key [] d h = absurd (ground arith)
filter_stays key (a ∷ []) d h = absurd (ground arith)
filter_stays key (a ∷ b ∷ ks) ((n, p), d) h = ground (arith, text_eq_iff a key, text_eq_iff b key)

IsDistinct-append :
    (key : Text) (ks : List Text)
    → includes key ks ≡ false
    → IsDistinct ks
    → IsDistinct (ks ++ key ∷ [])
IsDistinct-append key [] h d = (tt, tt)
IsDistinct-append key (k ∷ ks) h (p, d) = (
  All-snoc ks p (λ e. text_ne k key (ground arith) (sym e)),
  IsDistinct-append key ks (ground arith) d,
)
  where
    All-snoc : (js : List Text) → All (λ j. j ≢ k) js → key ≢ k → All (λ j. j ≢ k) (js ++ key ∷ [])
    All-snoc [] q n = (n, tt)
    All-snoc (j ∷ js) (q, r) n = (q, All-snoc js r n)

All-listed :
    (ks : List Text) (key : Text)
    → All (λ k. includes k metric_keys ≡ true) ks
    → includes key metric_keys ≡ true
    → All (λ k. includes k metric_keys ≡ true) (ks ++ key ∷ [])
All-listed [] key h y = (y, tt)
All-listed (k ∷ ks) key (p, h) y = (p, All-listed ks key h y)

toggle_metric-IsChoice :
    (key : Text) (sel : List Text)
    → includes key metric_keys ≡ true
    → IsChoice sel
    → IsChoice (toggle_metric key sel)
unfolding toggle_metric
toggle_metric-IsChoice key sel y c = elim (Bool-cases (includes key sel)) [
  | inl old ↦ elim (Bool-cases (ltb 1 (length sel))) [
    | inl many ↦
        rw (old, many)
          (record {
            some_selected = filter_stays key sel c.distinct many;
            distinct = IsDistinct-filter key sel c.distinct;
            listed = All-filter (λ k. includes k metric_keys ≡ true) key sel c.listed;
          })
    | inr one ↦ rw (old, one) c
  ]
  | inr new ↦ rw new (record {
    some_selected = append_some sel;
    distinct = IsDistinct-append key sel new c.distinct;
    listed = All-listed sel key c.listed y;
  })
]
  where
    append_some : (ks : List Text) → 0 < length (ks ++ key ∷ [])
    append_some [] = omega arith
    append_some (k ∷ ks) = omega arith

-- The clicks on the metrics, the first one first.
abbrev pub toggle_metrics : List Text → List Text → List Text
toggle_metrics [] sel = sel
toggle_metrics (key ∷ keys) sel = toggle_metrics keys (toggle_metric key sel)

-- Whatever metrics of the list are clicked, and in whatever order, the selection that began with at
-- least one metric of the list and none twice is such a selection at the end: it is never empty, and
-- no metric stands in it twice.
pub toggle_metrics-IsChoice :
    (keys sel : List Text)
    → All (λ k. includes k metric_keys ≡ true) keys
    → IsChoice sel
    → IsChoice (toggle_metrics keys sel)
toggle_metrics-IsChoice [] sel h c = c
toggle_metrics-IsChoice (key ∷ keys) sel (y, h) c =
    toggle_metrics-IsChoice keys (toggle_metric key sel) h (toggle_metric-IsChoice key sel y c)

-- A click changes only that metric: it is selected where it was not, and no longer selected where it
-- was, unless it is the only one.
pub toggle_metric-includes :
    (t key : Text) (sel : List Text)
    → includes t (toggle_metric key sel) ≡ (
        if text_eq t key
        then (if includes key sel then leb (length sel) 1 else true)
        else includes t sel)
unfolding toggle_metric
toggle_metric-includes t key sel = ground (
  arith,
  includes-append t key sel,
  includes-filter t key sel,
  text_eq_iff t key,
  text_eq_iff key t,
)

-- The total that is kept under a key.
unfoldable pub total_of : Text → List (Text × ℕ) → Option ℕ
total_of key [] = none
total_of key ((k, n) ∷ acc) = if text_eq key k then some n else total_of key acc

total_of-assign_total :
    (j key : Text) (n : ℕ) (acc : List (Text × ℕ))
    → total_of j (assign_total key n acc) ≡ (if text_eq j key then some n else total_of j acc)
unfolding total_of
total_of-assign_total j key n [] = refl
total_of-assign_total j key n ((k, m) ∷ acc) = ground (
  arith,
  total_of-assign_total j key n acc,
  text_eq_iff j key,
  text_eq_iff j k,
  text_eq_iff k key,
)

total_of-totals_onto :
    (j : Text) (ms : List Row) (keys : List Text) (acc : List (Text × ℕ))
    → total_of j (totals_onto ms keys acc)
      ≡ (if includes j keys then some (sum_of j ms) else total_of j acc)
unfolding totals_onto
total_of-totals_onto j ms [] acc = refl
total_of-totals_onto j ms (key ∷ keys) acc =
    total_of-totals_onto j ms keys (assign_total key (sum_of key ms) acc)
    ∙ elim (Bool-cases (text_eq j key)) [
      | inl y ↦
          let e = (text_eq_iff j key).0 y in
          let f : sum_of j ms ≡ sum_of key ms = ap (λ k. sum_of k ms) e in
          ground (arith, total_of-assign_total j key (sum_of key ms) acc, text_eq_iff key j, f)
      | inr n ↦ ground (
        arith,
        total_of-assign_total j key (sum_of key ms) acc,
        text_eq_iff key j,
        text_eq_iff j key,
      )
    ]

-- Exactly the metrics that are selected have a total, and it is the sum of the figures of the rows.
pub total_of-totals :
    (j : Text) (r : Report)
    → total_of j (totals r)
      ≡ (if includes j r.selected_metrics then some (sum_of j r.metrics) else none)
total_of-totals j r = unfold total_of in total_of-totals_onto j r.metrics r.selected_metrics []
