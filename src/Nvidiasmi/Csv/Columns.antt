-- ===== src/Nvidiasmi/Csv/Columns.antt =====
-- The view by columns: what the writes of `ParseCSVIntoTable` into `qFieldToCells` leave there.
use nvidia_gpu_exporter.Common.{
  if◌then◌else◌, Bool-cases, length, get_elem?, set, length-set, get_elem?-set_self,
  get_elem?-set_ne, append_cons, length-append_one, lookup, insert, lookup-insert, ◌==◌,
  list_same_iff, contains, contains-append, ok, index, ℕ, suc, ◌<◌, ◌≡◌, refl, sym, ap, ◌∙◌, subst,
  ◌≢◌, inl, inr, true, Option, none, some, List, [], ◌∷◌, ◌++◌, map, arith, list_comparable,
  nat_comparable,
}
use nvidia_gpu_exporter.Nvidiasmi.Csv.{QField, Cell, CsvError, write_cell, fill_columns}
use nvidia_gpu_exporter.Nvidiasmi.Csv.Shape.{add_cells, index_at}
-- The last cell of the field, or what stood there before.
use nvidia_gpu_exporter.Common.{
  if◌then◌else◌, Bool-cases, length, get_elem?, set, lookup, insert, lookup-insert, ◌==◌, contains,
  ℕ, ◌<◌, ◌≡◌, refl, ap, ◌∙◌, ◌≢◌, inl, inr, true, Option, none, some, List, [], ◌∷◌, map,
}
use nvidia_gpu_exporter.Nvidiasmi.Csv.{QField, Cell}
use nvidia_gpu_exporter.Nvidiasmi.Csv.Shape.{add_cells}

abbrev pub override : List Cell → QField → Option Cell → Option Cell
override [] q o = o
override (c ∷ cs) q o = override cs q (if c.q_field == q then some c else o)

pub lookup-add_cells :
    (cs : List Cell) (q : QField) (m : List (QField × Cell))
    → lookup q (add_cells cs m) ≡ override cs q (lookup q m)
lookup-add_cells [] q m = refl
lookup-add_cells (c ∷ cs) q m =
    lookup-add_cells cs q (insert c.q_field c m)
    ∙ ap (override cs q) (lookup-insert c.q_field q c m)

-- A field that has a cell of its own does not see what stood there before.
pub override_any :
    (cs : List Cell) (q : QField) (o o' : Option Cell)
    → contains (map Cell.q_field cs) q ≡ true
    → override cs q o ≡ override cs q o'
override_any [] q o o' h = cc
override_any (c ∷ cs) q o o' h = elim (Bool-cases (c.q_field == q)) [
  | inl e ↦ rw e
  | inr e ↦ rw e (override_any cs q o o' (rw e at h))
]

abbrev pub cell_of : Option (List Cell) → ℕ → Option Cell
cell_of none i = none
cell_of (some column) i = get_elem? column i

-- `columns[q][i]`
abbrev pub cell_at : List (QField × List Cell) → QField → ℕ → Option Cell
cell_at columns q i = cell_of (lookup q columns) i

-- Every field asked for has a column of `n` cells.
abbrev pub HasColumns : ℕ → List QField → List (QField × List Cell) → Type 0
HasColumns n qs columns =
    (q : QField)
    → contains qs q ≡ true
    → (column : List Cell) × (lookup q columns ≡ some column) × (length column ≡ n)

-- One write: the column of `q` at `i`, and nothing else.
record Wrote (n : ℕ) (qs : List QField) (q : QField) (i : ℕ) (c : Cell)
    (columns columns' : List (QField × List Cell)) : Type 0 where
  has : HasColumns n qs columns'
  here : (k : QField) → cell_at columns' k i ≡ (if q == k then some c else cell_at columns k i)
  elsewhere : (k : QField) (j : ℕ) → j ≢ i → cell_at columns' k j ≡ cell_at columns k j

module _ (n : ℕ) (qs : List QField) (i : ℕ) (i_lt : i < n) where
  module _ (q : QField) (c : Cell) (columns : List (QField × List Cell)) (column : List Cell)
      (hl : lookup q columns ≡ some column) (hn : length column ≡ n) where
    found : (k : QField) → (q == k) ≡ true → lookup k columns ≡ some column
    found k e = subst (λ x. lookup x columns ≡ some column) ((list_same_iff q k).0 e) hl

    has_after :
        (k : QField)
        → (l : List Cell) × (lookup k columns ≡ some l) × (length l ≡ n)
        → (l : List Cell) × (lookup k (insert q (set column i c) columns) ≡ some l) × (length l ≡ n)
    has_after k (l, a, b) = elim (Bool-cases (q == k)) [
      | inl e ↦ (
        set column i c,
        rw (lookup-insert q k (set column i c) columns, e),
        length-set column i c ∙ hn,
      )
      | inr e ↦ (l, rw (lookup-insert q k (set column i c) columns, e) a, b)
    ]

    here_after :
        (k : QField)
        → cell_at (insert q (set column i c) columns) k i
          ≡ (if q == k then some c else cell_at columns k i)
    here_after k = elim (Bool-cases (q == k)) [
      | inl e ↦
          rw (lookup-insert q k (set column i c) columns, e)
            (get_elem?-set_self column i c (omega arith))
      | inr e ↦ rw (lookup-insert q k (set column i c) columns, e)
    ]

    elsewhere_after :
        (k : QField) (j : ℕ)
        → j ≢ i
        → cell_at (insert q (set column i c) columns) k j ≡ cell_at columns k j
    elsewhere_after k j ne = elim (Bool-cases (q == k)) [
      | inl e ↦
          rw (lookup-insert q k (set column i c) columns, e, found k e)
            (get_elem?-set_ne column i j c (λ h. ne (sym h)))
      | inr e ↦ rw (lookup-insert q k (set column i c) columns, e)
    ]

    write_cell_lem : write_cell q i c columns ≡ ok (insert q (set column i c) columns)
    unfolding write_cell
    write_cell_lem = rw (hl, write_cell) (ground arith)

  write_cell-Wrote :
      (q : QField) (c : Cell) (columns : List (QField × List Cell))
      → HasColumns n qs columns
      → contains qs q ≡ true
      → (columns' : List (QField × List Cell)) × (write_cell q i c columns ≡ ok columns')
        × Wrote n qs q i c columns columns'
  write_cell-Wrote q c columns has mem =
      let (column, hl, hn) = has q mem in
      (
        insert q (set column i c) columns,
        write_cell_lem q c columns column hl hn,
        record {
          has = λ k hk. has_after q c columns column hl hn k (has k hk);
          here = here_after q c columns column hl hn;
          elsewhere = elsewhere_after q c columns column hl hn;
        },
      )

  fill_columns_step :
      (col : ℕ) (q : QField) (c : Cell) (cells : List Cell)
      (columns columns' : List (QField × List Cell))
      → index {E = CsvError} qs col ≡ ok q
      → write_cell q i c columns ≡ ok columns'
      → fill_columns qs i col (c ∷ cells) columns ≡ fill_columns qs i (suc col) cells columns'
  unfolding fill_columns
  fill_columns_step col q c cells columns columns' hq hw = rw hq (rw hw)

  member_at :
      (pre : List QField) (q : QField) (rest : List QField) → contains (pre ++ q ∷ rest) q ≡ true
  member_at pre q rest = ground (arith, contains-append pre (q ∷ rest) q, list_same_iff q q)

  -- The loop over the cells of a row, from the column behind `pre` on.
  pub fill_columns-override :
      (pre : List QField) (cells : List Cell) (columns : List (QField × List Cell))
      → qs ≡ pre ++ map Cell.q_field cells
      → HasColumns n qs columns
      → (columns' : List (QField × List Cell)) × (fill_columns qs i (length pre) cells columns
          ≡ ok columns')
        × HasColumns n qs columns'
        × ((k : QField) → cell_at columns' k i ≡ override cells k (cell_at columns k i))
        × ((k : QField) (j : ℕ) → j ≢ i → cell_at columns' k j ≡ cell_at columns k j)
  fill_columns-override pre [] columns e has =
      (columns, unfold fill_columns in refl, has, λ k. refl, λ k j ne. refl)
  fill_columns-override pre (c ∷ cells) columns e has =
      let rest = map Cell.q_field cells in
      let q_mem : contains qs c.q_field ≡ true = rw e (member_at pre c.q_field rest) in
      let (columns1, wrote, w) = write_cell-Wrote c.q_field c columns has q_mem in
      let (columns2, filled, has2, here2, elsewhere2) =
        fill_columns-override (pre ++ c.q_field ∷ []) cells columns1
          (e ∙ append_cons pre c.q_field rest) w.has in
      (
        columns2,
        fill_columns_step (length pre) c.q_field c cells columns columns1
              (rw e (index_at pre c.q_field rest)) wrote
            ∙ rw (length-append_one pre c.q_field) at filled,
        has2,
        λ k. here2 k ∙ ap (override cells k) (w.here k),
        λ k j ne. elsewhere2 k j ne ∙ w.elsewhere k j ne,
      )
