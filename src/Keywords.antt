-- ===== src/Keywords.antt =====
-- frontend/app/(dashboard)/seo/keywords/page.tsx: the keywords of a project, their search, the merge
-- of what it finds, and the filter. Volumes and difficulties are natural numbers.
pub mod Merging
mod Tests
use dmtool.Base.{
  ℕ, Bool, true, false, not, ◌&&◌, List, [], ◌∷◌, ◌++◌, any, filter, Option, none, some, Text,
  codes, text_eq, is_empty, trim, ltb, leb, ◌==◌, if◌then◌else◌, Outcome, threw, returned,
}
use dmtool.Projects.{Project, last}

pub record Keyword : Type 0 where
  pub keyword : Text
  pub volume : ℕ
  pub kd : ℕ

pub data Filter : Type 0 where
  every easy medium hard : Filter

pub record KeywordsPage : Type 0 where
  pub project : Option Project
  pub keywords : List Keyword
  pub loading : Bool
  pub generating : Bool
  pub seed : Text
  pub source : Text
  pub filter : Filter

-- The answer of the API: the keywords, and where they are from, if it says so.
pub record Found : Type 0 where
  pub keywords : List Keyword
  pub source : Option Text

-- `difficultyLabel` and the colours of `difficultyBadge` make the same distinction.
unfoldable pub difficulty_label : ℕ → Text
difficulty_label kd =
    if kd == 0
    then codes "—"
    else if leb 60 kd
    then codes "Hard"
    else if leb 35 kd
    then codes "Medium"
    else codes "Easy"

pub data Colors : Type 0 where
  slate rose amber emerald : Colors

unfoldable pub difficulty_badge : ℕ → Colors
difficulty_badge kd =
    if kd == 0 then slate else if leb 60 kd then rose else if leb 35 kd then amber else emerald

-- The load, with the last project.
abbrev pub or_source : Option Text → Text → Text
or_source none d = d
or_source (some t) d = t

abbrev pub loaded : Outcome Found → KeywordsPage → KeywordsPage
loaded threw s = s
loaded (returned f) s = record s { keywords = f.keywords; source = or_source f.source [] }

abbrev pub with_projects :
    (ℕ → Outcome Found) → Outcome (List Project) → KeywordsPage → KeywordsPage
with_projects api threw s = s
with_projects api (returned []) s = s
with_projects api (returned (p ∷ ps)) s =
    let q = last p ps in loaded (api q.id) (record s { project = some q })

unfoldable pub load_keywords :
    (ℕ → Outcome Found) → Outcome (List Project) → KeywordsPage → KeywordsPage
unfolding last
load_keywords api reply s = record (with_projects api reply s) { loading = false }

-- `handleGenerate`: what is asked, and the answer.
abbrev pub generate_for : Option Project → KeywordsPage → Option (ℕ × Text) × KeywordsPage
generate_for none s = (none, s)
generate_for (some p) s = (some (p.id, trim s.seed), record s { generating = true })

unfoldable pub handle_generate : KeywordsPage → Option (ℕ × Text) × KeywordsPage
handle_generate s = if is_empty (trim s.seed) then (none, s) else generate_for s.project s

-- The keywords found that are not on the page, before those that are.
unfoldable pub has_keyword : List Keyword → Text → Bool
has_keyword ks t = any (λ k. text_eq k.keyword t) ks

unfoldable pub merge : List Keyword → List Keyword → List Keyword
unfolding has_keyword
merge new before = filter (λ k. not (has_keyword before k.keyword)) new ++ before

abbrev pub found : Outcome Found → KeywordsPage → KeywordsPage
found threw s = s
found (returned f) s = record s {
  keywords = merge f.keywords s.keywords;
  source = or_source f.source (codes "autocomplete");
  seed = [];
}

unfoldable pub on_generated : Outcome Found → KeywordsPage → KeywordsPage
unfolding merge
on_generated reply s = record (found reply s) { generating = false }

abbrev pub is_listed : Filter → Keyword → Bool
is_listed easy k = ltb 0 k.kd && ltb k.kd 35
is_listed medium k = leb 35 k.kd && ltb k.kd 60
is_listed hard k = leb 60 k.kd
is_listed every k = true

unfoldable pub filtered : KeywordsPage → List Keyword
filtered s = filter (is_listed s.filter) s.keywords
