-- ===== src/Nvidiasmi/Csv.antt =====
-- internal/nvidiasmi/csv.go: the table of one --query-gpu answer.
pub mod Shape
pub mod Columns
pub mod RoundTrip
pub mod Rows
pub mod Answers
mod Examples
use nvidia_gpu_exporter.Common.{
  ltb, if◌then◌else◌, length, set, replicate, lookup, insert, ◌==◌, Outcome, ok, err, panic, ◌>>=◌,
  index, ℕ, suc, ◌+◌, not, none, some, List, [], ◌∷◌, ◌++◌, map, list_comparable, nat_comparable,
}
use nvidia_gpu_exporter.Text.{Text, trim_space, split}

-- QField and RField are string types.
abbrev pub QField : Type 0
QField = Text

abbrev pub RField : Type 0
RField = Text

pub record Cell : Type 0 where
  pub q_field : QField
  pub r_field : RField
  pub raw_value : Text

pub record Row : Type 0 where
  pub q_field_to_cells : List (QField × Cell)
  pub cells : List Cell

pub record Table : Type 0 where
  pub rows : List Row
  pub r_fields : List RField
  pub q_field_to_cells : List (QField × List Cell)

-- The errors, with the numbers and texts that their messages show.
pub data CsvError : Type 0 where
  field_count_mismatch : ℕ → ℕ → CsvError
  row_columns : ℕ → ℕ → ℕ → Text → CsvError

-- The zero values of Go.
abbrev pub zero_cell : Cell
zero_cell = record { q_field = []; r_field = []; raw_value = [] }

unfoldable pub parse_csv_line : Text → List Text
parse_csv_line line = map trim_space (split b',' line)

-- The loop of `parseCSVRow` from column `col` on. `cells[colIndex] = cell` for colIndex = 0, 1, …
-- fills the slice from the left, so the cell is appended.
unfoldable pub fill_row : List QField → List RField → ℕ → List Text → Row → Outcome CsvError Row
fill_row q_fields r_fields col [] row = ok row
fill_row q_fields r_fields col (raw_value ∷ raw_values) row = do
  q_field ← index q_fields col
  r_field ← index r_fields col
  let cell : Cell = record { q_field = q_field; r_field = r_field; raw_value = raw_value }
  fill_row q_fields r_fields (suc col) raw_values (record {
    q_field_to_cells = insert q_field cell row.q_field_to_cells;
    cells = row.cells ++ cell ∷ [];
  })

-- `row` is the number of the line behind the header, for the error that the caller wraps.
unfoldable pub parse_csv_row : ℕ → Text → List QField → List RField → Outcome CsvError Row
unfolding fill_row
parse_csv_row row values_line q_fields r_fields =
    let raw_values = parse_csv_line values_line in
    let filled =
      fill_row q_fields r_fields 0 raw_values (record { q_field_to_cells = []; cells = [] }) in
    if not (length raw_values == length q_fields)
    then err (row_columns row (length raw_values) (length q_fields) (trim_space values_line))
    else filled

-- `qFieldToCells[q] = make([]Cell, numRows)` for each query field.
unfoldable pub empty_columns :
    ℕ → List QField → List (QField × List Cell) → List (QField × List Cell)
empty_columns num_rows [] columns = columns
empty_columns num_rows (q ∷ q_fields) columns =
    empty_columns num_rows q_fields (insert q (replicate num_rows zero_cell) columns)

-- `qFieldToCells[q][rowIndex] = cell`: a read of a missing key is a nil slice, and the write to
-- an index out of range panics.
unfoldable pub write_cell :
    QField → ℕ → Cell → List (QField × List Cell) → Outcome CsvError (List (QField × List Cell))
write_cell q row_index cell columns = elim (lookup q columns) [
  | none ↦ panic
  | some column ↦
      if ltb row_index (length column)
      then ok (insert q (set column row_index cell) columns)
      else panic
]

-- `for colIndex, cell := range row.Cells`
unfoldable pub fill_columns :
    List QField
    → ℕ
    → ℕ
    → List Cell
    → List (QField × List Cell)
    → Outcome CsvError (List (QField × List Cell))
unfolding write_cell
fill_columns q_fields row_index col [] columns = ok columns
fill_columns q_fields row_index col (cell ∷ cells) columns = do
  q ← index q_fields col
  columns' ← write_cell q row_index cell columns
  fill_columns q_fields row_index (suc col) cells columns'

-- `for rowIndex, valuesLine := range valuesLines`
unfoldable pub fill_rows :
    List QField
    → List RField
    → ℕ
    → List Text
    → List Row
    → List (QField × List Cell)
    → Outcome CsvError (List Row × List (QField × List Cell))
unfolding parse_csv_row fill_columns
fill_rows q_fields r_fields row_index [] rows columns = ok (rows, columns)
fill_rows q_fields r_fields row_index (values_line ∷ values_lines) rows columns = do
  row ← parse_csv_row (row_index + 1) values_line q_fields r_fields
  columns' ← fill_columns q_fields row_index 0 row.cells columns
  fill_rows q_fields r_fields (suc row_index) values_lines (rows ++ row ∷ []) columns'

unfoldable pub table_of_lines : List QField → List Text → Outcome CsvError Table
table_of_lines q_fields [] = panic
table_of_lines q_fields (titles_line ∷ values_lines) =
    let r_fields = parse_csv_line titles_line in
    let filled =
      fill_rows q_fields r_fields 0 values_lines []
        (empty_columns (length values_lines) q_fields []) in
    if not (length q_fields == length r_fields)
    then err (field_count_mismatch (length q_fields) (length r_fields))
    else (filled >>= λ t. ok (record { rows = t.0; r_fields = r_fields; q_field_to_cells = t.1 }))

-- ParseCSVIntoTable
unfoldable pub parse_csv_into_table : Text → List QField → Outcome CsvError Table
unfolding table_of_lines fill_rows empty_columns
parse_csv_into_table query_result q_fields =
    table_of_lines q_fields (split b'\n' (trim_space query_result))
