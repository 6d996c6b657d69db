-- ===== src/Nvidiasmi/Csv/Answers.antt =====
-- `ParseCSVIntoTable` on every answer, errors included.
use native.Mathlib.Nat.{zero-add}
use nvidia_gpu_exporter.Common.{
  if◌then◌else◌, nat_same_iff, Bool-cases, length, get_elem?, replicate, length-replicate, lookup,
  insert, lookup-insert, ◌==◌, contains, ok, err, panic, Yields, returns, fails, Yields-err_iff,
  Yields-ne-panic, Yields-ok, ℕ, ◌≡◌, refl, sym, ◌≢◌, ◌↔◌, ◌⊎◌, inl, inr, true, Option, none, some,
  List, [], ◌∷◌, map, arith, list_comparable, nat_comparable,
}
use nvidia_gpu_exporter.Nvidiasmi.Csv.{
  QField, Cell, Table, CsvError, field_count_mismatch, zero_cell, parse_csv_line, empty_columns,
  table_of_lines, parse_csv_into_table,
}
use nvidia_gpu_exporter.Nvidiasmi.Csv.Columns.{cell_at, HasColumns}
use nvidia_gpu_exporter.Nvidiasmi.Csv.Rows.{row_of_line, first_misfit, FillsAs, fill_rows-FillsAs}
use nvidia_gpu_exporter.Text.{Text, trim_space, split}
use nvidia_gpu_exporter.Text.Split.{split-ne-nil}

-- What is wrong with the lines of an answer: the header is looked at first.
abbrev pub table_error : List QField → List Text → Option CsvError
table_error qs [] = none
table_error qs (titles ∷ lines) =
    if length qs == length (parse_csv_line titles)
    then first_misfit qs 0 lines
    else some (field_count_mismatch (length qs) (length (parse_csv_line titles)))

empty_columns_lem :
    (n : ℕ) (k : QField) (qs : List QField) (columns : List (QField × List Cell))
    → (contains qs k ≡ true) ⊎ (lookup k columns ≡ some (replicate n zero_cell))
    → lookup k (empty_columns n qs columns) ≡ some (replicate n zero_cell)
unfolding empty_columns
empty_columns_lem n k [] columns (inl h) = cc
empty_columns_lem n k [] columns (inr h) = h
empty_columns_lem n k (q ∷ qs) columns h =
    empty_columns_lem n k qs (insert q (replicate n zero_cell) columns)
      (ground (arith, lookup-insert q k (replicate n zero_cell) columns))

empty_columns-HasColumns : (n : ℕ) (qs : List QField) → HasColumns n qs (empty_columns n qs [])
empty_columns-HasColumns n qs k mem =
    (replicate n zero_cell, empty_columns_lem n k qs [] (inl mem), length-replicate n zero_cell)

-- What a table says of the lines that it was read from.
pub record IsTableOf (qs : List QField) (titles : Text) (lines : List Text) (t : Table)
    : Type 0 where
  pub header : t.r_fields ≡ parse_csv_line titles
  pub aligned : length t.r_fields ≡ length qs
  pub rows : t.rows ≡ map (row_of_line qs t.r_fields) lines
  pub columns :
      (k : QField) (j : ℕ) (line : Text)
      → contains qs k ≡ true
      → get_elem? lines j ≡ some line
      → cell_at t.q_field_to_cells k j ≡ lookup k (row_of_line qs t.r_fields line).q_field_to_cells

abbrev YieldsTable : List QField → Text → List Text → Option CsvError → Type 0
YieldsTable qs titles lines =
    Yields (IsTableOf qs titles lines) (table_of_lines qs (titles ∷ lines))

table_of_lines-filled :
    (qs : List QField) (titles : Text) (lines : List Text)
    → (length qs == length (parse_csv_line titles)) ≡ true
    → (o : Option CsvError)
    → FillsAs qs
        (parse_csv_line titles)
        (length lines)
        o
        0
        lines
        []
        (empty_columns (length lines) qs [])
    → YieldsTable qs titles lines o
unfolding table_of_lines
table_of_lines-filled qs titles lines h none f =
    returns
      (record {
        rows = map (row_of_line qs (parse_csv_line titles)) lines;
        r_fields = parse_csv_line titles;
        q_field_to_cells = f.columns';
      })
      refl (rw h (rw f.filled))
      (record {
        header = refl;
        aligned = sym ((nat_same_iff _ _).0 h);
        rows = refl;
        columns = λ k j line mem e. rw zero-add at (f.at k j line mem e);
      })
table_of_lines-filled qs titles lines h (some e) f = fails e refl (rw (h, f))

table_of_lines-Yields :
    (qs : List QField) (titles : Text) (lines : List Text)
    → YieldsTable qs titles lines (table_error qs (titles ∷ lines))
table_of_lines-Yields qs titles lines =
    elim (Bool-cases (length qs == length (parse_csv_line titles))) [
      | inl h ↦ rw h (
          table_of_lines-filled qs titles lines h (first_misfit qs 0 lines) (
            fill_rows-FillsAs qs (parse_csv_line titles) (length lines)
              (sym ((nat_same_iff _ _).0 h)) 0 lines [] (empty_columns (length lines) qs [])
              (empty_columns-HasColumns (length lines) qs) (omega arith)))
      | inr h ↦ rw h (fails _ refl (unfold table_of_lines in rw h))
    ]

-- The lines of an answer: the header, and one for each GPU.
abbrev pub answer_lines : Text → List Text
answer_lines query_result = split b'\n' (trim_space query_result)

-- What is true of the table, with the lines that it was read from.
abbrev pub IsTableOfLines : List QField → List Text → Table → Type 0
IsTableOfLines qs ls t =
    (titles : Text) × (lines : List Text) × (ls ≡ titles ∷ lines) × IsTableOf qs titles lines t

pub IsTableOfLines-cons :
    (qs : List QField) (titles : Text) (lines : List Text) (t : Table)
    → IsTableOfLines qs (titles ∷ lines) t
    → IsTableOf qs titles lines t
IsTableOfLines-cons qs titles lines t (titles', lines', e, w) =
    let same_titles : titles ≡ titles' = cc in
    let same_lines : lines ≡ lines' = cc in rw (same_titles, same_lines) w

lines-Yields :
    (qs : List QField) (ls : List Text)
    → ls ≢ []
    → Yields (IsTableOfLines qs ls) (table_of_lines qs ls) (table_error qs ls)
lines-Yields qs [] h = absurd (h refl)
lines-Yields qs (titles ∷ lines) h = elim (table_of_lines-Yields qs titles lines) [
  | returns t n g w ↦ returns t n g (titles, lines, refl, w)
  | fails e n g ↦ fails e n g
]

pub parse-Yields :
    (query_result : Text) (qs : List QField)
    → Yields
        (IsTableOfLines qs (answer_lines query_result))
        (parse_csv_into_table query_result qs)
        (table_error qs (answer_lines query_result))
unfolding parse_csv_into_table
parse-Yields query_result qs = lines-Yields qs _ (split-ne-nil b'\n' _)

-- An answer is refused with an error exactly when the header does not have one name for each
-- query field, or some line behind it does not have one value for each; then the error is that of
-- the header, else of the first such line, with its number and its columns.
pub parse_csv_into_table-eq-err :
    (query_result : Text) (qs : List QField) (e : CsvError)
    → (parse_csv_into_table query_result qs ≡ err e)
      ↔ (table_error qs (answer_lines query_result) ≡ some e)
parse_csv_into_table-eq-err query_result qs e = Yields-err_iff (parse-Yields query_result qs) e

-- No answer makes the parser index out of range or write to a column that is not there.
pub parse_csv_into_table-ne-panic :
    (query_result : Text) (qs : List QField) → parse_csv_into_table query_result qs ≢ panic
parse_csv_into_table-ne-panic query_result qs = Yields-ne-panic (parse-Yields query_result qs)

-- The table of an accepted answer: its returned names are the header's, one for each query field,
-- it has one row for each line behind the header, in order, whose cells carry the query field,
-- the returned name and the trimmed value of their column, and the view by columns holds, for
-- each query field and each line, the cell that the row of that line holds for that field.
pub parse_csv_into_table-IsTableOf :
    (query_result : Text) (qs : List QField) (t : Table)
    → parse_csv_into_table query_result qs ≡ ok t
    → IsTableOfLines qs (answer_lines query_result) t
parse_csv_into_table-IsTableOf query_result qs t = Yields-ok (parse-Yields query_result qs) t
