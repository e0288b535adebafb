-- ===== src/Projects/Latest.antt =====
-- `dedupeLatestMetrics` of frontend/app/(dashboard)/social/profile-analyzer/page.tsx: of each network
-- the latest figures, those that are not simulated first.
mod Sorting
pub mod Unique
use dmtool.Base.{
  ℕ, Bool, true, false, not, ◌&&◌, ◌||◌, List, [], ◌∷◌, Text, text_eq, is_empty, trim, any, leb,
  if◌then◌else◌,
}

-- The figures of a profile on one network; the times are milliseconds.
pub record Social : Type 0 where
  pub platform : Text
  pub is_simulated : Bool
  pub recorded_at : ℕ
  pub reach : ℕ
  pub engagement : ℕ
  pub profile_visits : ℕ
  pub link_taps : ℕ

-- The comparator is not positive: `a` stays before `b`.
unfoldable pub no_later : Social → Social → Bool
no_later a b =
    not a.is_simulated && b.is_simulated
    || (not a.is_simulated || b.is_simulated) && leb b.recorded_at a.recorded_at

-- The sort of the platform is stable; for a comparator that is an order, so is this one.
unfoldable pub insert : Social → List Social → List Social
unfolding no_later
insert a [] = a ∷ []
insert a (b ∷ bs) = let rest = insert a bs in if no_later a b then a ∷ b ∷ bs else b ∷ rest

unfoldable pub sort : List Social → List Social
unfolding insert
sort [] = []
sort (a ∷ rest) = insert a (sort rest)

-- `toLowerCase` is a parameter.
module _ (to_lower : Text → Text) where
  unfoldable pub normalize_platform : Text → Text
  normalize_platform platform = to_lower (trim platform)

  abbrev pub key : Social → Text
  key a = normalize_platform a.platform

  -- The loop, with the keys that it has seen.
  unfoldable pub keep_first : List Text → List Social → List Social
  unfolding normalize_platform
  keep_first seen [] = []
  keep_first seen (a ∷ rest) =
      let old = keep_first seen rest in
      let new = a ∷ keep_first (key a ∷ seen) rest in
      if is_empty (key a) || any (text_eq (key a)) seen then old else new

  unfoldable pub dedupe_latest_metrics : List Social → List Social
  unfolding sort keep_first
  dedupe_latest_metrics items = keep_first [] (sort items)
