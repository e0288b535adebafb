-- ===== src/Reports/Csv.antt =====
-- The file that frontend/app/(dashboard)/analytics/custom/page.tsx exports.
use dmtool.Base.{
  ℕ, ◌≡◌, ◌≢◌, refl, ap, ◌∙◌, List, [], ◌∷◌, ◌++◌, map, Text, codes, All, split, join, arith,
}
use dmtool.Base.Splitting.{split-join}
use dmtool.Api.{show}
use dmtool.Projects.Digits.{show-All}
use dmtool.Reports.{Row, value, chart_date, csv_row, csv, Report, export_csv}

-- A cell that holds no comma and no end of line.
abbrev pub IsClean : Text → Type 0
IsClean t = All (λ c. c ≢ 44) t × All (λ c. c ≢ 10) t

show-IsClean : (n : ℕ) → IsClean (show n)
show-IsClean n =
    (show-All (λ c. c ≢ 44) (λ d h. omega arith) n, show-All (λ c. c ≢ 10) (λ d h. omega arith) n)

-- A line of clean cells is clean of ends of lines.
All-append-line :
    (s t : Text) → All (λ c. c ≢ 10) s → All (λ c. c ≢ 10) t → All (λ c. c ≢ 10) (s ++ t)
All-append-line [] t h k = k
All-append-line (c ∷ s) t (n, h) k = (n, All-append-line s t h k)

join-clean : (ws : List Text) → All IsClean ws → All (λ c. c ≢ 10) (join (codes ",") ws)
unfolding join
join-clean [] h = tt
join-clean (w ∷ []) (h, k) = h.1
join-clean (w ∷ v ∷ ws) (h, k) =
    All-append-line w (codes "," ++ join (codes ",") (v ∷ ws)) h.1
      (ground arith, join-clean (v ∷ ws) k)

no_commas : (ws : List Text) → All IsClean ws → All (All (λ c. c ≢ 44)) ws
no_commas [] h = tt
no_commas (w ∷ ws) (h, k) = (h.0, no_commas ws k)

split-line :
    (w : Text) (ws : List Text)
    → All IsClean (w ∷ ws)
    → split 44 (join (codes ",") (w ∷ ws)) ≡ w ∷ ws
split-line w ws h = split-join 44 w ws (no_commas (w ∷ ws) h)

-- The cells of a file, line by line.
abbrev pub read_csv : Text → List (List Text)
read_csv t = map (split 44) (split 10 t)

module _ (to_date : Text → Text) (keys : List Text) (h : All IsClean keys) where
  abbrev cells : Row → List Text
  cells m = chart_date to_date m ∷ map (λ k. show (value k m)) keys

  figures-IsClean : (ks : List Text) (m : Row) → All IsClean (map (λ k. show (value k m)) ks)
  figures-IsClean [] m = tt
  figures-IsClean (k ∷ ks) m = (show-IsClean (value k m), figures-IsClean ks m)

  cells-IsClean : (m : Row) → IsClean (chart_date to_date m) → All IsClean (cells m)
  cells-IsClean m c = (c, figures-IsClean keys m)

  rows-lines :
      (ms : List Row)
      → All (λ m. IsClean (chart_date to_date m)) ms
      → All (All (λ c. c ≢ 10)) (map (csv_row to_date keys) ms)
  rows-lines [] c = tt
  rows-lines (m ∷ ms) (c, d) = (join-clean (cells m) (cells-IsClean m c), rows-lines ms d)

  rows-cells :
      (ms : List Row)
      → All (λ m. IsClean (chart_date to_date m)) ms
      → map (split 44) (map (csv_row to_date keys) ms) ≡ map cells ms
  rows-cells [] c = refl
  rows-cells (m ∷ ms) (c, d) =
      ap (λ l. l ∷ map (split 44) (map (csv_row to_date keys) ms))
        (split-line (chart_date to_date m) _ (cells-IsClean m c))
      ∙ ap (λ r. cells m ∷ r) (rows-cells ms d)

  csv-read :
      (ms : List Row)
      → All (λ m. IsClean (chart_date to_date m)) ms
      → read_csv (csv to_date keys ms) ≡ (codes "date" ∷ keys) ∷ map cells ms
  unfolding csv
  csv-read ms c =
      let head : All IsClean (codes "date" ∷ keys) = (ground arith, h) in
      ap (map (split 44)) (
        split-join 10 (join (codes ",") (codes "date" ∷ keys)) (map (csv_row to_date keys) ms)
          (join-clean (codes "date" ∷ keys) head, rows-lines ms c))
      ∙ ap (λ l. l ∷ map (split 44) (map (csv_row to_date keys) ms))
          (split-line (codes "date") keys head)
      ∙ ap (λ r. (codes "date" ∷ keys) ∷ r) (rows-cells ms c)

-- The exported file, split at its ends of lines and each line at its commas, is the table: the line
-- of the names, then one line for each row in its order, its date and the figure of each metric that
-- is selected. The keys and the dates (the row's name where there is no date) must hold no comma
-- and no end of line, since the export does not quote them.
pub export_csv-read :
    (to_date : Text → Text) (r : Report)
    → All IsClean r.selected_metrics
    → All (λ m. IsClean (chart_date to_date m)) r.metrics
    → read_csv (export_csv to_date r).0 ≡ (
        (codes "date" ∷ r.selected_metrics)
        ∷ map
            (λ m. chart_date to_date m ∷ map (λ k. show (value k m)) r.selected_metrics)
            r.metrics)
unfolding export_csv
export_csv-read to_date r h c = csv-read to_date r.selected_metrics h r.metrics c
