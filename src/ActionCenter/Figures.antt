-- ===== src/ActionCenter/Figures.antt =====
-- What frontend/app/(dashboard)/action-center/page.tsx computes of the tasks and of the insights: the
-- figures, the tasks that a filter lists, and the tips.
use dmtool.Base.{
  ℕ, zero, suc, ◌*◌, Bool, true, false, not, ◌&&◌, ◌||◌, List, [], ◌∷◌, map, Text, codes, text_eq,
  is_empty, filter, length, ltb, leb, if◌then◌else◌,
}
use dmtool.Billing.{round_div}
use dmtool.ActionCenter.{
  Priority, high, medium, Task, Insight, Filter, every, done, pending, by_priority, ActionPage,
}

-- The figures: a share of the tasks in percent, the number shown on a bar and the label of the pace.
unfoldable pub done_count : List Task → ℕ
done_count ts = length (filter (λ t. t.is_done) ts)

abbrev pub is_high : Priority → Bool
is_high high = true
is_high medium = false

unfoldable pub ai_tasks_done : List Task → ℕ
ai_tasks_done ts = length (filter (λ t. t.is_done && is_high t.priority) ts)

unfoldable pub ai_total : List Task → ℕ
ai_total ts = length (filter (λ t. is_high t.priority) ts)

-- A percentage: a share, or its nearest whole number; `at_least k` compares it.
pub record Percent : Type 0 where
  pub part : ℕ
  pub whole : ℕ

unfoldable pub progress_percent : List Task → Percent
unfolding done_count
progress_percent ts =
    if ltb 0 (length ts)
    then record { part = 100 * done_count ts; whole = length ts }
    else record { part = 0; whole = 1 }

unfoldable pub velocity_pct : List Task → Percent
unfolding progress_percent ai_tasks_done ai_total
velocity_pct ts =
    if ltb 0 (ai_total ts)
    then record { part = round_div (100 * ai_tasks_done ts) (ai_total ts); whole = 1 }
    else progress_percent ts

abbrev pub at_least : ℕ → Percent → Bool
at_least k p = leb (k * p.whole) p.part

unfoldable pub velocity_label : List Task → Text
unfolding velocity_pct
velocity_label ts =
    if at_least 80 (velocity_pct ts)
    then codes "High"
    else if at_least 50 (velocity_pct ts)
    then codes "Moderate"
    else codes "Building"

-- `filteredTasks`; `toLowerCase` is a parameter.
abbrev pub priority_text : Priority → Text
priority_text high = codes "High"
priority_text medium = codes "Medium"

abbrev pub is_listed : (Text → Text) → Filter → Task → Bool
is_listed to_lower every t = true
is_listed to_lower done t = t.is_done
is_listed to_lower pending t = not t.is_done
is_listed to_lower (by_priority f) t = text_eq (to_lower (priority_text t.priority)) (to_lower f)

unfoldable pub filtered_tasks : (Text → Text) → ActionPage → List Task
filtered_tasks to_lower s = filter (is_listed to_lower s.filter) s.tasks

-- `strategyTips`: at most two insights, or the two that never change.
pub record Tip : Type 0 where
  pub title : Text
  pub desc : Text

abbrev pub take {ℓ} : {A : Type ℓ} → ℕ → List A → List A
take zero xs = []
take (suc n) [] = []
take (suc n) (x ∷ xs) = x ∷ take n xs

abbrev pub is_tip : Insight → Bool
is_tip i = text_eq i.type (codes "opportunity") || text_eq i.type (codes "warning")

abbrev pub or_text : Text → Text → Text
or_text s t = if is_empty s then t else s

abbrev pub tip_of : Insight → Tip
tip_of i = record {
  title = i.title;
  desc = or_text i.body (or_text i.description (codes "Review this insight to unlock growth."));
}

abbrev pub fallback_tips : List Tip
fallback_tips =
    record {
      title = codes "Batch Content Creation";
      desc = codes "Create 5 content pieces this week to stay ahead of your growth goals.";
    }
    ∷ record {
      title = codes "SEO Low-Hanging Fruit";
      desc = codes "Optimize meta titles for pages that rank on page 2 to capture quick wins.";
    }
    ∷ []

abbrev pub or_tips : List Insight → List Tip
or_tips [] = fallback_tips
or_tips (i ∷ is) = map tip_of (i ∷ is)

unfoldable pub strategy_tips : List Insight → List Tip
strategy_tips is = or_tips (take 2 (filter is_tip is))
