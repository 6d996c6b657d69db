-- ===== src/Nvidiasmi/Csv/Rows.antt =====
-- All rows together: the loop over the lines behind the header.
use native.Mathlib.Nat.{add-suc}
use native.Mathlib.Nat.{add-zero}
use native.Mathlib.Nat.{suc-add}
use nvidia_gpu_exporter.Common.{
  if◌then◌else◌, nat_same_iff, Bool-cases, length, get_elem?, lookup, ◌==◌, contains, ok, err, ℕ,
  zero, suc, ◌+◌, ◌≤◌, ◌<◌, ◌≡◌, refl, sym, ◌∙◌, ◌≢◌, inl, inr, Bool, true, false, Option, none,
  some, List, [], ◌∷◌, ◌++◌, map, append_assoc, append-nil, arith, list_comparable, nat_comparable,
}
use nvidia_gpu_exporter.Nvidiasmi.Csv.{
  QField, RField, Cell, Row, CsvError, row_columns, parse_csv_line, parse_csv_row, fill_columns,
  fill_rows,
}
use nvidia_gpu_exporter.Nvidiasmi.Csv.Columns.{
  override, lookup-add_cells, override_any, cell_at, HasColumns, fill_columns-override,
}
use nvidia_gpu_exporter.Nvidiasmi.Csv.Shape.{
  zip_cells, make_row, zip_cells_fields, parse_csv_row_lem,
}
use nvidia_gpu_exporter.Text.{Text, trim_space}

-- A line with as many columns as the query has fields.
abbrev pub fits : List QField → Text → Bool
fits qs line = length (parse_csv_line line) == length qs

abbrev pub row_of_line : List QField → List RField → Text → Row
row_of_line qs rs line = make_row (zip_cells qs rs (parse_csv_line line))

-- The first line that does not fit, from line `i` (from 0) behind the header on.
abbrev pub first_misfit : List QField → ℕ → List Text → Option CsvError
first_misfit qs i [] = none
first_misfit qs i (line ∷ lines) =
    let later = first_misfit qs (suc i) lines in
    if fits qs line
    then later
    else some (row_columns (i + 1) (length (parse_csv_line line)) (length qs) (trim_space line))

module _ (qs : List QField) (rs : List RField) (n : ℕ) where
  pub record Filled (i : ℕ) (lines : List Text) (rows : List Row)
      (columns : List (QField × List Cell)) : Type 0 where
    pub columns' : List (QField × List Cell)
    pub filled :
        fill_rows qs rs i lines rows columns ≡ ok (rows ++ map (row_of_line qs rs) lines, columns')
    pub has : HasColumns n qs columns'
    pub before : (k : QField) (j : ℕ) → j < i → cell_at columns' k j ≡ cell_at columns k j
    pub at :
        (k : QField) (j : ℕ) (line : Text)
        → contains qs k ≡ true
        → get_elem? lines j ≡ some line
        → cell_at columns' k (i + j) ≡ lookup k (row_of_line qs rs line).q_field_to_cells

  abbrev pub FillsAs :
      Option CsvError → ℕ → List Text → List Row → List (QField × List Cell) → Type 0
  FillsAs none i lines rows columns = Filled i lines rows columns
  FillsAs (some e) i lines rows columns = fill_rows qs rs i lines rows columns ≡ err e

  fill_rows_misfit :
      (i : ℕ) (line : Text) (lines : List Text) (rows : List Row)
      (columns : List (QField × List Cell)) (e : CsvError)
      → parse_csv_row (i + 1) line qs rs ≡ err e
      → fill_rows qs rs i (line ∷ lines) rows columns ≡ err e
  unfolding fill_rows
  fill_rows_misfit i line lines rows columns e h = rw h

  fill_rows_step :
      (i : ℕ) (line : Text) (lines : List Text) (rows : List Row) (row : Row)
      (columns columns' : List (QField × List Cell))
      → parse_csv_row (i + 1) line qs rs ≡ ok row
      → fill_columns qs i 0 row.cells columns ≡ ok columns'
      → fill_rows qs rs i (line ∷ lines) rows columns
        ≡ fill_rows qs rs (suc i) lines (rows ++ row ∷ []) columns'
  unfolding fill_rows
  fill_rows_step i line lines rows row columns columns' h f = rw h (rw f)

  module _ (names : length rs ≡ length qs) where
    cell_of_line :
        (k : QField) (line : Text) (o : Option Cell)
        → fits qs line ≡ true
        → contains qs k ≡ true
        → override (row_of_line qs rs line).cells k o
          ≡ lookup k (row_of_line qs rs line).q_field_to_cells
    cell_of_line k line o h mem =
        let cells = zip_cells qs rs (parse_csv_line line) in
        let named =
          (zip_cells_fields qs rs (parse_csv_line line) names ((nat_same_iff _ _).0 h)).0 in
        override_any cells k o (lookup k []) (rw named mem) ∙ sym (lookup-add_cells cells k [])

    row_fits :
        (i : ℕ) (line : Text)
        → fits qs line ≡ true
        → parse_csv_row i line qs rs ≡ ok (row_of_line qs rs line)
    row_fits i line h = parse_csv_row_lem i line qs rs names ∙ rw h

    row_misfits :
        (i : ℕ) (line : Text)
        → fits qs line ≡ false
        → parse_csv_row i line qs rs
          ≡ err (row_columns i (length (parse_csv_line line)) (length qs) (trim_space line))
    row_misfits i line h = parse_csv_row_lem i line qs rs names ∙ rw h

    -- The cells of the first line stay as the later lines are put in.
    at_cons :
        (i : ℕ) (line : Text) (lines : List Text) (columns' : List (QField × List Cell))
        → ((k : QField)
            → contains qs k ≡ true
            → cell_at columns' k i ≡ lookup k (row_of_line qs rs line).q_field_to_cells)
        → ((k : QField) (j : ℕ) (l : Text)
            → contains qs k ≡ true
            → get_elem? lines j ≡ some l
            → cell_at columns' k (suc i + j) ≡ lookup k (row_of_line qs rs l).q_field_to_cells)
        → (k : QField) (j : ℕ) (l : Text) → contains qs k ≡ true
        → get_elem? (line ∷ lines) j ≡ some l
        → cell_at columns' k (i + j) ≡ lookup k (row_of_line qs rs l).q_field_to_cells
    at_cons i line lines columns' first rest k zero l mem e =
        let same : line ≡ l = cc in rw (add-zero, ← same) (first k mem)
    at_cons i line lines columns' first rest k (suc j) l mem e =
        rw (add-suc, ← suc-add) (rest k j l mem e)

    Filled-cons :
        (i : ℕ) (line : Text) (lines : List Text) (rows : List Row)
        (columns columns1 : List (QField × List Cell))
        → fits qs line ≡ true
        → fill_columns qs i 0 (row_of_line qs rs line).cells columns ≡ ok columns1
        → ((k : QField)
            → cell_at columns1 k i
              ≡ override (row_of_line qs rs line).cells k (cell_at columns k i))
        → ((k : QField) (j : ℕ) → j ≢ i → cell_at columns1 k j ≡ cell_at columns k j)
        → Filled (suc i) lines (rows ++ row_of_line qs rs line ∷ []) columns1
        → Filled i (line ∷ lines) rows columns
    Filled-cons i line lines rows columns columns1 h f here elsewhere later =
        let row = row_of_line qs rs line in
        record {
          columns' = later.columns';
          filled =
              fill_rows_step i line lines rows row columns columns1 (row_fits (i + 1) line h) f
              ∙ (rw (append_assoc rows (row ∷ []) (map (row_of_line qs rs) lines)) at later.filled);
          has = later.has;
          before = λ k j lt. later.before k j (omega arith) ∙ elsewhere k j (omega arith);
          at =
              at_cons i line lines later.columns'
                (λ k mem.
                  later.before k i (omega arith)
                  ∙ (here k ∙ cell_of_line k line (cell_at columns k i) h mem))
                later.at;
        }

    FillsAs-cons :
        (i : ℕ) (line : Text) (lines : List Text) (rows : List Row)
        (columns columns1 : List (QField × List Cell))
        → fits qs line ≡ true
        → fill_columns qs i 0 (row_of_line qs rs line).cells columns ≡ ok columns1
        → ((k : QField)
            → cell_at columns1 k i
              ≡ override (row_of_line qs rs line).cells k (cell_at columns k i))
        → ((k : QField) (j : ℕ) → j ≢ i → cell_at columns1 k j ≡ cell_at columns k j)
        → (o : Option CsvError)
        → FillsAs o (suc i) lines (rows ++ row_of_line qs rs line ∷ []) columns1
        → FillsAs o i (line ∷ lines) rows columns
    FillsAs-cons i line lines rows columns columns1 h f here elsewhere none later =
        Filled-cons i line lines rows columns columns1 h f here elsewhere later
    FillsAs-cons i line lines rows columns columns1 h f here elsewhere (some e) later =
        fill_rows_step i line lines rows (row_of_line qs rs line) columns columns1
          (row_fits (i + 1) line h) f
        ∙ later

    pub fill_rows-FillsAs :
        (i : ℕ) (lines : List Text) (rows : List Row) (columns : List (QField × List Cell))
        → HasColumns n qs columns
        → i + length lines ≤ n
        → FillsAs (first_misfit qs i lines) i lines rows columns
    fill_rows-FillsAs i [] rows columns has le = record {
      columns' = columns;
      filled = rw (append-nil rows) (unfold fill_rows in refl);
      has = has;
      before = λ k j lt. refl;
      at = λ k j line mem e. cc;
    }
    fill_rows-FillsAs i (line ∷ lines) rows columns has le = elim (Bool-cases (fits qs line)) [
      | inl h ↦
          let cells = zip_cells qs rs (parse_csv_line line) in
          let named =
            (zip_cells_fields qs rs (parse_csv_line line) names ((nat_same_iff _ _).0 h)).0 in
          let (columns1, filled, has1, here, elsewhere) =
            fill_columns-override n qs i (omega arith) [] cells columns (sym named) has in
          rw h (
            FillsAs-cons i line lines rows columns columns1 h filled here elsewhere
              (first_misfit qs (suc i) lines)
              (fill_rows-FillsAs (suc i) lines (rows ++ row_of_line qs rs line ∷ []) columns1 has1
                (omega arith)))
      | inr h ↦ rw h (
          fill_rows_misfit i line lines rows columns
            (row_columns (i + 1) (length (parse_csv_line line)) (length qs) (trim_space line))
            (row_misfits (i + 1) line h))
    ]
