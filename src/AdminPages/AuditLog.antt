-- ===== src/AdminPages/AuditLog.antt =====
-- frontend/app/(dashboard)/admin/audit-log/page.tsx: each change of the filter asks the server anew,
-- and the answers may come in any order. The effect that is run anew marks the one before as
-- cancelled; here each has its number and only the last is not.
use dmtool.Base.{
  ℕ, suc, Bool, true, false, List, [], ◌∷◌, Option, none, some, Text, text_eq, is_empty, ◌==◌,
  if◌then◌else◌, Outcome, threw, returned,
}
use mathlib.Core.List.{Memᴰ}

module _ (A : Type 0) where
  pub record Log : Type 0 where
    pub entries : List A
    pub total : ℕ
    pub loading : Bool
    pub action_filter : Text
    pub current : ℕ
    pub asked : List (ℕ × Text)

  abbrev pub opening : Log
  opening = record {
    entries = [];
    total = 0;
    loading = true;
    action_filter = [];
    current = 0;
    asked = (0, []) ∷ [];
  }

  -- `actionFilter || undefined`: what the request says of the action.
  abbrev pub action_param : Text → Option Text
  action_param f = if is_empty f then none else some f

  -- The box of the filter; a text that is the same runs no effect.
  unfoldable pub set_action_filter : Text → Log → Log
  set_action_filter f s = if text_eq f s.action_filter then s else record s {
    loading = true;
    action_filter = f;
    current = suc s.current;
    asked = (suc s.current, f) ∷ s.asked;
  }

  abbrev pub shown : Outcome (List A × ℕ) → Log → Log
  shown threw s = record s { loading = false }
  shown (returned (es, n)) s = record s { entries = es; total = n; loading = false }

  -- The answer to the request of a number.
  unfoldable pub on_answer : ℕ → Outcome (List A × ℕ) → Log → Log
  on_answer k reply s = if k == s.current then shown reply s else s

  -- What may happen: the user types, or the server answers a request that was made.
  pub data LogStep (server : Option Text → Outcome (List A × ℕ)) : Log → Log → Type 0 where
    typed : (f : Text) (s : Log) → LogStep server s (set_action_filter f s)
    answer :
        (k : ℕ) (f : Text) (s : Log)
        → Memᴰ (k, f) s.asked
        → LogStep server s (on_answer k (server (action_param f)) s)

  pub data LogSteps (server : Option Text → Outcome (List A × ℕ)) : Log → Log → Type 0 where
    none_left : (s : Log) → LogSteps server s s
    next : (s t u : Log) → LogStep server s t → LogSteps server t u → LogSteps server s u
