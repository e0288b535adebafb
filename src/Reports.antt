-- ===== src/Reports.antt =====
-- The reports that a user builds: frontend/app/(dashboard)/analytics/custom/page.tsx. The figures
-- are numbers that may be missing; the calendar of `toLocaleDateString` is a parameter.
pub mod Csv
pub mod Selection
mod Tests
use dmtool.Base.{
  ℕ, ◌+◌, Bool, true, false, List, [], ◌∷◌, ◌++◌, map, filter, Option, none, some, Text, codes,
  text_eq, is_empty, not, ltb, length, join, if◌then◌else◌, Outcome, threw, returned,
}
use dmtool.Api.{show}
use dmtool.Cookie.Store.{lookup}
use dmtool.Roles.{includes}
use dmtool.Projects.{LocalStorage, Project, Page, Load, or_none, or_else, fetch_data}
use dmtool.Projects.Own.{Fetch, project_id}

pub record Range : Type 0 where
  pub label : Text
  pub days : ℕ

abbrev pub ranges : List Range
ranges =
    record { label = codes "Last 7 days"; days = 7 }
    ∷ record { label = codes "Last 14 days"; days = 14 }
    ∷ record { label = codes "Last 30 days"; days = 30 }
    ∷ record { label = codes "Last 90 days"; days = 90 }
    ∷ []

-- The keys of `METRICS`.
abbrev pub metric_keys : List Text
metric_keys = codes "clicks" ∷ codes "impressions" ∷ codes "reach" ∷ codes "engagement" ∷ []

pub record Row : Type 0 where
  pub source : Text
  pub date : Option Text
  pub name : Option Text
  pub clicks : Option ℕ
  pub impressions : Option ℕ
  pub reach : Option ℕ
  pub engagement : Option ℕ

-- `m[key] || 0`, for the keys of `METRICS`.
unfoldable pub value : Text → Row → ℕ
value key m =
    if text_eq key (codes "clicks")
    then or_else m.clicks 0
    else if text_eq key (codes "impressions")
    then or_else m.impressions 0
    else if text_eq key (codes "reach")
    then or_else m.reach 0
    else if text_eq key (codes "engagement")
    then or_else m.engagement 0
    else 0

pub data ChartType : Type 0 where
  bar line : ChartType

pub record Report : Type 0 where
  pub selected_range : Range
  pub selected_metrics : List Text
  pub metrics : List Row
  pub exporting : Bool
  pub chart_type : ChartType

abbrev pub initial_report : Report
initial_report = record {
  selected_range = record { label = codes "Last 30 days"; days = 30 };
  selected_metrics = codes "clicks" ∷ codes "impressions" ∷ [];
  metrics = [];
  exporting = false;
  chart_type = line;
}

unfoldable pub toggle_metric : Text → List Text → List Text
toggle_metric key prev =
    if includes key prev
    then (if ltb 1 (length prev) then filter (λ k. not (text_eq k key)) prev else prev)
    else prev ++ key ∷ []

-- What is added up, for each key that is selected.
abbrev pub sum_of : Text → List Row → ℕ
sum_of key [] = 0
sum_of key (m ∷ ms) = value key m + sum_of key ms

-- `acc[key] = …`: a key that is there gets the new value.
abbrev pub assign_total : Text → ℕ → List (Text × ℕ) → List (Text × ℕ)
assign_total key n [] = (key, n) ∷ []
assign_total key n ((k, m) ∷ acc) =
    if text_eq k key then (k, n) ∷ acc else (k, m) ∷ assign_total key n acc

unfoldable pub totals_onto : List Row → List Text → List (Text × ℕ) → List (Text × ℕ)
totals_onto ms [] acc = acc
totals_onto ms (key ∷ keys) acc = totals_onto ms keys (assign_total key (sum_of key ms) acc)

abbrev pub totals : Report → List (Text × ℕ)
totals r = totals_onto r.metrics r.selected_metrics []

module _ (to_date : Text → Text) where
  -- The date of a row of the chart: the row's own date, else its name.
  abbrev pub date_or : Option Text → Option Text → Text
  date_or none name = or_else name []
  date_or (some d) name = if is_empty d then or_else name [] else to_date d

  abbrev pub chart_date : Row → Text
  chart_date m = date_or m.date m.name

  abbrev pub csv_row : List Text → Row → Text
  csv_row keys m = join (codes ",") (chart_date m ∷ map (λ k. show (value k m)) keys)

  unfoldable pub csv : List Text → List Row → Text
  csv keys ms = join (codes "\n") (join (codes ",") (codes "date" ∷ keys) ∷ map (csv_row keys) ms)

  -- `exportCSV`: the file that is saved, and the button shut until its timer fires.
  unfoldable pub export_csv : Report → Text × Report
  unfolding csv
  export_csv r = (csv r.selected_metrics r.metrics, record r { exporting = true })

abbrev pub exported : Report → Report
exported r = record r { exporting = false }

-- The tail of `fetchData`.
abbrev pub report_answered : Outcome (Option (List Row)) → Report → Report
report_answered threw r = r
report_answered (returned rows) r = record r {
  metrics = filter (λ m. text_eq m.source (codes "gsc")) (or_none rows);
}

module _ (store : LocalStorage) (get_metrics : ℕ → ℕ → Outcome (Option (List Row))) where
  unfoldable pub load_report : ℕ → Load store Report
  load_report days p (s, r) = (s, report_answered (get_metrics p.id days) r)

  abbrev pub fetch_report : ℕ → Fetch store Report
  fetch_report days = fetch_data store (load_report days)

  -- `fetchData()` and `fetchData(p.id)`.
  abbrev pub fetch_selected : Fetch store Report
  fetch_selected target reply (s, w) =
      fetch_report w.content.selected_range.days target reply (s, w)

  -- A click on a range.
  unfoldable pub select_range :
      Range
      → Outcome (Option (List Project))
      → store.State × Page Report
      → store.State × Page Report
  unfolding load_report fetch_data
  select_range r reply (s, w) =
      fetch_report r.days (project_id store w.project) reply
        (s, record w { content = record (w.content) { selected_range = r } })
