-- ===== src/Reports/Tests.antt =====
-- Concrete inputs for the theorems on the reports.
use dmtool.Base.{◌≡◌, refl, [], ◌∷◌, none, some, Text, codes, text_eq, join, arith}
use dmtool.Api.{digits, show}
use dmtool.Reports.{Row, value, Report, initial_report, export_csv, csv, toggle_metric}
use dmtool.Reports.Csv.{read_csv, export_csv-read}
use dmtool.Reports.Selection.{IsChoice, toggle_metrics, toggle_metrics-IsChoice}

abbrev first_day : Row
first_day = record {
  source = codes "gsc";
  date = some (codes "2026-01-05");
  name = none;
  clicks = some 12;
  impressions = none;
  reach = some 3;
  engagement = none;
}

abbrev one_day : Report
one_day = record initial_report { metrics = first_day ∷ [] }

abbrev to_day : Text → Text
to_day t = codes "Jan 5"

header_and_row : (export_csv to_day one_day).0 ≡ codes "date,clicks,impressions\nJan 5,12,0"
unfolding export_csv csv join value show digits text_eq
header_and_row = refl

export_csv_example : read_csv (export_csv to_day one_day).0 ≡ (
    (codes "date" ∷ codes "clicks" ∷ codes "impressions" ∷ [])
    ∷ (codes "Jan 5"
        ∷ show (value (codes "clicks") first_day)
        ∷ show (value (codes "impressions") first_day)
        ∷ [])
    ∷ [])
export_csv_example = export_csv-read to_day one_day (ground arith) (ground arith)

stays_selected :
    toggle_metrics
      (codes "clicks" ∷ codes "impressions" ∷ [])
      (codes "clicks" ∷ codes "impressions" ∷ [])
    ≡ codes "impressions" ∷ []
unfolding toggle_metric text_eq
stays_selected = refl

initial-IsChoice : IsChoice initial_report.selected_metrics
unfolding text_eq
initial-IsChoice = record {
  some_selected = ground arith;
  distinct = ground arith;
  listed = (refl, (refl, tt));
}

toggle_metrics_example : IsChoice (
    toggle_metrics
      (codes "clicks" ∷ codes "impressions" ∷ codes "reach" ∷ [])
      initial_report.selected_metrics)
toggle_metrics_example =
    toggle_metrics-IsChoice (codes "clicks" ∷ codes "impressions" ∷ codes "reach" ∷ [])
      initial_report.selected_metrics (unfold text_eq in (refl, (refl, (refl, tt))))
      initial-IsChoice
