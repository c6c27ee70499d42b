-- ===== src/Tests/Joins.antt =====
-- A join of two tables with the first columns 1, 2, 4 and 2, 3, 4, and of a third that is not joined.
-- A table stands for a hypertrie: rows of a key part and of what is left.
use hypertrie.Common.{
  List, [], ap, arith, contains, get_or, if◌then◌else◌, is_empty, length, map, none, refl, some, ℕ,
  ◌-◌, ◌==◌, ◌∷◌, ◌≡◌,
}
use hypertrie.Common.Sets.{set_insert, set_of, set_of-IsDistinct}
use hypertrie.HashJoin.{Diagonals, Promises, advance, rounds, start}

record Table : Type 0 where
  dims : ℕ
  rows : List (ℕ × ℕ)

record Cursor : Type 0 where
  place : Table × List ℕ
  ahead : List ℕ
  shown : Table

abbrev no_table : Table
no_table = record { dims = 0; rows = [] }

abbrev rows_with : ℕ → List (ℕ × ℕ) → List (ℕ × ℕ)
rows_with k [] = []
rows_with k (r ∷ rs) = if r.0 == k then r ∷ rows_with k rs else rows_with k rs

abbrev slice_table : Table × List ℕ → ℕ → Table
slice_table o k = record { dims = o.0.dims - length o.1; rows = rows_with k o.0.rows }

keys_of : Table × List ℕ → List ℕ
unfolding set_of set_insert
keys_of o = set_of (map (λ (r : ℕ × ℕ). r.0) o.0.rows)

abbrev shown_of : Table × List ℕ → List ℕ → Table
shown_of o [] = no_table
shown_of o (k ∷ ks) = slice_table o k

abbrev cursor_at : Table × List ℕ → List ℕ → Cursor
cursor_at o ks = record { place = o; ahead = ks; shown = shown_of o ks }

abbrev tail_of : List ℕ → List ℕ
tail_of [] = []
tail_of (k ∷ ks) = ks

abbrev tables : Diagonals
tables = record {
  Operand = Table;
  Diagonal = Cursor;
  no_operand = no_table;
  depth = λ x. x.dims;
  open_at = λ x poss. cursor_at (x, poss) [];
  begin = λ d. cursor_at d.place (keys_of d.place);
  increment = λ d. cursor_at d.place (tail_of d.ahead);
  ended = λ d. is_empty d.ahead;
  current_key_part = λ d. get_or d.ahead 0 0;
  current_hypertrie = λ d. d.shown;
  find_part = λ k d. (contains (keys_of d.place) k, record d { shown = slice_table d.place k });
  size = λ d. length (keys_of d.place);
}

tables-Promises : Promises tables
tables-Promises = record {
  origin = λ d. d.place;
  keys = keys_of;
  slice_of = slice_table;
  remaining = λ d. d.ahead;
  opened = λ x poss. refl;
  begun = λ d. refl;
  moved = λ d. refl;
  probed = λ k d. refl;
  distinct = λ o. unfold keys_of in set_of-IsDistinct (map (λ (r : ℕ × ℕ). r.0) o.0.rows);
  begins = λ d. refl;
  ends = λ d. refl;
  shows = λ d k ks e. ap (λ l. get_or l 0 0) e;
  begins_at = λ d k ks e. ap (shown_of d.place) e;
  moves_to = λ d k ks e. ap (shown_of d.place) e;
  steps = λ d k ks e. ap tail_of e;
  finds = λ k d. refl;
  holds = λ k d e. refl;
  bounds = λ d. omega arith;
}

abbrev three_tables : List Table
three_tables =
    record { dims = 2; rows = (1, 10) ∷ (2, 20) ∷ (4, 40) ∷ (4, 41) ∷ [] }
    ∷ record { dims = 1; rows = (7, 0) ∷ [] }
    ∷ record { dims = 2; rows = (4, 90) ∷ (3, 80) ∷ (2, 70) ∷ [] }
    ∷ []

abbrev join_positions : List (List ℕ)
join_positions = (0 ∷ []) ∷ [] ∷ (1 ∷ []) ∷ []

-- The key parts that a loop over the join sees.
seen_parts : List ℕ
unfolding keys_of start rounds advance set_of
seen_parts = elim (start tables three_tables join_positions) [
  | none ↦ []
  | some it ↦ map (λ (r : ℕ × List Table). r.0) (rounds tables 5 it)
]

seen_parts-both : seen_parts ≡ 2 ∷ 4 ∷ []
unfolding seen_parts
seen_parts-both = refl
