-- ===== src/Projects/Pages.antt =====
-- What each page reads of the project that was chosen: the tails of `fetchData` in
-- frontend/app/(dashboard)/analytics/traffic/page.tsx and seo/rank-tracking/page.tsx. The answers of the API are functions
-- of the project's number.
use dmtool.Base.{
  ℕ, ◌+◌, ◌*◌, Bool, true, false, List, Option, Text, codes, text_eq, any, filter, leb,
  if◌then◌else◌, Outcome, threw, returned,
}
use dmtool.AdminPlans.{Number, nan, plus, minus}
use dmtool.Projects.{LocalStorage, Load, or_none}

-- `Promise.all` of two answers.
abbrev pub both {ℓ κ} : {A : Type ℓ} {B : Type κ} → Outcome A → Outcome B → Outcome (A × B)
both (returned a) (returned b) = returned (a, b)
both _ _ = threw

-- The traffic page. `T` is what the API says of the traffic; an answer that is not an array is none.
pub record Metric : Type 0 where
  pub source : Text
  pub clicks : ℕ
  pub impressions : ℕ

pub record Traffic (T : Type 0) : Type 0 where
  pub traffic : Option T
  pub metrics : List Metric
  pub is_gsc_connected : Bool
  pub days : ℕ

pub record TrafficApi (T : Type 0) : Type 0 where
  pub get_traffic : ℕ → ℕ → Outcome (Option T)
  pub get_metrics : ℕ → ℕ → Outcome (Option (List Metric))
  pub get_integrations : Outcome (Option (List Text))

module _ {T : Type 0} where
  abbrev pub traffic_answered :
      Outcome (Option T × (Option (List Metric) × Option (List Text))) → Traffic T → Traffic T
  traffic_answered threw d = d
  traffic_answered (returned (t, (ms, creds))) d = record d {
    traffic = t;
    metrics = filter (λ m. text_eq m.source (codes "gsc")) (or_none ms);
    is_gsc_connected = any (text_eq (codes "google")) (or_none creds);
  }

  unfoldable pub load_traffic : (store : LocalStorage) → TrafficApi T → Load store (Traffic T)
  load_traffic store api p (s, d) = (
    s,
    traffic_answered
        (both (api.get_traffic p.id d.days)
          (both (api.get_metrics p.id d.days) api.get_integrations))
        d,
  )

-- The ranks. `R` is what the API says of them.
abbrev pub rank_answered : {R : Type 0} → Outcome (Option R) → Option R → Option R
rank_answered threw d = d
rank_answered (returned r) d = r

unfoldable pub load_ranks :
    {R : Type 0} (store : LocalStorage) → (ℕ → Outcome (Option R)) → Load store (Option R)
load_ranks store get_rank_tracking p (s, d) = (s, rank_answered (get_rank_tracking p.id) d)

-- `positionColor` and `positionLabel`, and which keywords the table lists.
pub data Colors : Type 0 where
  slate emerald blue amber : Colors

abbrev pub at_most : Number → ℕ → Bool
at_most nan k = false
at_most (plus n d) k = leb n (k * (d + 1))
at_most (minus n d) k = true

unfoldable pub position_color : Number → Colors
position_color pos =
    if at_most pos 0
    then slate
    else if at_most pos 3
    then emerald
    else if at_most pos 10
    then blue
    else if at_most pos 30
    then amber
    else slate

unfoldable pub position_label : Number → Text
position_label pos =
    if at_most pos 0
    then codes "No position"
    else if at_most pos 3
    then codes "Top 3"
    else if at_most pos 10
    then codes "Page 1"
    else if at_most pos 30
    then codes "Page 2-3"
    else codes "Page 4+"
