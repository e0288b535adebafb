-- ===== src/AdminPages/Tests.antt =====
-- Concrete inputs for the theorems on the pages of the administration.
use dmtool.Base.{
  ℕ, ◌≡◌, refl, false, List, [], ◌∷◌, Option, none, some, Text, codes, text_eq, Outcome, threw,
  returned, strip_prefix, not, any, ◌||◌,
}
use mathlib.Core.List.{Memᴰ}
use dmtool.AdminPages.{sort, insert, percent, bucket_color, red}
use dmtool.AdminPages.Detail
use dmtool.AdminPages.Detail.{
  Kinds, overview_answered, tab_chosen, seo, both_answered, says_loading,
}
use dmtool.AdminPages.Loading.{
  is_both_answered, brings_project, handle_each, handle_each-says_loading,
}
use dmtool.AdminPages.AuditLog
use dmtool.AdminPages.AuditLog.{
  Log, set_action_filter, on_answer, LogSteps, typed, answer, none_left, next, action_param,
}
use dmtool.AdminPages.Orders.{ShowsAnswer, opened-IsCurrent}

largest_first :
    sort ((codes "a", 1) ∷ (codes "b", 3) ∷ (codes "c", 3) ∷ [])
    ≡ (codes "b", 3) ∷ (codes "c", 3) ∷ (codes "a", 1) ∷ []
unfolding sort insert
largest_first = refl

a_third : percent 1 3 ≡ 33
unfolding percent
a_third = refl

lowest_bucket : bucket_color (codes "0-49") ≡ red
unfolding bucket_color strip_prefix
lowest_bucket = refl

abbrev kinds : Kinds
kinds = record { P = ℕ; S = ℕ; M = ℕ; I = ℕ; Q = ℕ; H = ℕ; V = ℕ }

-- The read of the project fails, and the reads end.
abbrev failed_reads : List (Detail.Event kinds)
failed_reads = overview_answered threw ∷ both_answered ∷ tab_chosen seo ∷ []

says_loading_example :
    says_loading kinds (handle_each failed_reads (Detail.opening kinds))
    ≡ (not (any is_both_answered failed_reads) || not (any brings_project failed_reads))
says_loading_example = handle_each-says_loading kinds failed_reads

-- The server names the filter it was asked for; the answer to the first request comes last.
abbrev server : Option Text → Outcome (List Text × ℕ)
server none = returned (codes "all" ∷ [], 1)
server (some f) = returned (f ∷ [], 1)

abbrev first : Log Text
first = AuditLog.opening Text

abbrev second : Log Text
second = record first {
  action_filter = codes "login";
  current = 1;
  asked = (1, codes "login") ∷ (0, []) ∷ [];
}

abbrev third : Log Text
third = record second { entries = codes "login" ∷ []; total = 1; loading = false }

late_answer : LogSteps Text server first third
unfolding set_action_filter on_answer text_eq
late_answer = next first second third (typed (codes "login") first) (
    next second third third (answer 1 (codes "login") second (Memᴰ.head refl))
      (next third third third (answer 0 [] third (Memᴰ.tail (Memᴰ.head refl))) (none_left third)))

opened_example : ShowsAnswer Text (server (action_param Text (codes "login"))) third
opened_example = opened-IsCurrent server third late_answer refl
