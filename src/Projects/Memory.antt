-- ===== src/Projects/Memory.antt =====
-- A storage that takes every write, the last one first: an instance of what the pages expect of
-- `localStorage`, for concrete inputs.
use dmtool.Base.{
  ◌≡◌, ◌≢◌, sym, ap, ◌∙◌, List, ◌∷◌, Option, Text, text_eq_refl, eq_false, refl, Outcome, threw,
  returned, some,
}
use dmtool.Cookie.Store.{lookup}
use dmtool.Projects.{LocalStorage}
use dmtool.Projects.Choice.{IsWritable}

abbrev pub read : Text → Outcome (List (Text × Text)) → Outcome (Option Text)
read k threw = threw
read k (returned s) = returned (lookup k s)

abbrev pub written : Text → Text → List (Text × Text) → Outcome (List (Text × Text))
written k v s = returned ((k, v) ∷ s)

pub read-written_same :
    (k v : Text) (s t : List (Text × Text))
    → written k v s ≡ returned t
    → read k (returned t) ≡ returned (some v)
unfolding lookup
read-written_same k v s t h = ap (read k) (sym h) ∙ rw (text_eq_refl k) refl

pub read-written_other :
    (j k v : Text) (s t : List (Text × Text))
    → j ≢ k
    → written k v s ≡ returned t
    → read j (returned t) ≡ read j (returned s)
unfolding lookup
read-written_other j k v s t n h = ap (read j) (sym h) ∙ rw (eq_false j k n) refl

abbrev pub memory : LocalStorage
memory = record {
  State = List (Text × Text);
  get_item = λ k s. read k (returned s);
  set_item = written;
  get_item-set_item_same = read-written_same;
  get_item-set_item_other = read-written_other;
}

pub memory-IsWritable : IsWritable memory
memory-IsWritable k v s = ((k, v) ∷ s, refl)
