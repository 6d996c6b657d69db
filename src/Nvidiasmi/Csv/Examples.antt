-- ===== src/Nvidiasmi/Csv/Examples.antt =====
-- Runs of the table parser, and the theorems at concrete tables.
use Prim.Native.String.{String}
use nvidia_gpu_exporter.Common.{
  lookup, insert, contains, ok, err, panic, ◌≡◌, refl, ◌≢◌, ◌↔◌, false, some, List, [], ◌∷◌, map,
  list_comparable, nat_comparable,
}
use nvidia_gpu_exporter.Nvidiasmi.Csv.{
  QField, Cell, Row, Table, row_columns, parse_csv_line, parse_csv_into_table,
}
use nvidia_gpu_exporter.Nvidiasmi.Csv.Answers.{
  table_error, answer_lines, IsTableOfLines, parse_csv_into_table-eq-err,
  parse_csv_into_table-ne-panic, parse_csv_into_table-IsTableOf,
}
use nvidia_gpu_exporter.Nvidiasmi.Csv.RoundTrip.{IsPlain, print_table, parse-print_table}
use nvidia_gpu_exporter.Text.{Text, codes, trim_space, split, join}
use nvidia_gpu_exporter.Text.Split.{Lacks-of_contains}

abbrev fields : List QField
fields = codes "uuid" ∷ codes "memory.used" ∷ []

abbrev answer : Text
answer = codes "uuid, memory.used [MiB]\nGPU-1, 5 MiB\r\nGPU-2, 7 MiB\n"

abbrev item : String → String → String → Cell
item q r v = record { q_field = codes q; r_field = codes r; raw_value = codes v }

abbrev row_of : String → String → Row
row_of u m = record {
  q_field_to_cells =
      (codes "uuid", item "uuid" "uuid" u)
      ∷ (codes "memory.used", item "memory.used" "memory.used [MiB]" m)
      ∷ [];
  cells = item "uuid" "uuid" u ∷ item "memory.used" "memory.used [MiB]" m ∷ [];
}

abbrev table : Table
table = record {
  rows = row_of "GPU-1" "5 MiB" ∷ row_of "GPU-2" "7 MiB" ∷ [];
  r_fields = codes "uuid" ∷ codes "memory.used [MiB]" ∷ [];
  q_field_to_cells =
      (codes "uuid", item "uuid" "uuid" "GPU-1" ∷ item "uuid" "uuid" "GPU-2" ∷ [])
      ∷ (
        codes "memory.used",
        item "memory.used" "memory.used [MiB]" "5 MiB"
            ∷ item "memory.used" "memory.used [MiB]" "7 MiB"
            ∷ [],
      )
      ∷ [];
}

parse-answer : parse_csv_into_table answer fields ≡ ok table
unfolding parse_csv_into_table parse_csv_line trim_space split lookup insert
parse-answer = refl

parse_short_row :
    parse_csv_into_table (codes "uuid, memory.used\nGPU-1") fields
    ≡ err (row_columns 1 1 2 (codes "GPU-1"))
unfolding parse_csv_into_table parse_csv_line trim_space split lookup insert
parse_short_row = refl

abbrev answer_titles : Text
answer_titles = codes "uuid, memory.used [MiB]"

parse_csv_into_table-IsTableOf_example : IsTableOfLines fields (answer_lines answer) table
parse_csv_into_table-IsTableOf_example =
    parse_csv_into_table-IsTableOf answer fields table parse-answer

parse_csv_into_table-eq-err_example :
    (parse_csv_into_table (codes "uuid, memory.used\nGPU-1") fields
      ≡ err (row_columns 1 1 2 (codes "GPU-1")))
    ↔ (table_error fields (answer_lines (codes "uuid, memory.used\nGPU-1"))
        ≡ some (row_columns 1 1 2 (codes "GPU-1")))
parse_csv_into_table-eq-err_example =
    parse_csv_into_table-eq-err (codes "uuid, memory.used\nGPU-1") fields
      (row_columns 1 1 2 (codes "GPU-1"))

parse_csv_into_table-ne-panic_example : parse_csv_into_table (codes "\n") fields ≢ panic
parse_csv_into_table-ne-panic_example = parse_csv_into_table-ne-panic (codes "\n") fields

abbrev printed_titles : List Text
printed_titles = codes "uuid" ∷ codes "memory.used [MiB]" ∷ []

abbrev printed_rows : List (List Text)
printed_rows = (codes "GPU-1" ∷ codes "5 MiB" ∷ []) ∷ (codes "GPU-2" ∷ codes "[N/A]" ∷ []) ∷ []

plain :
    (v : Text) → trim_space v ≡ v → contains v b',' ≡ false → contains v b'\n' ≡ false → IsPlain v
plain v t c b = record {
  trimmed = t;
  no_comma = Lacks-of_contains b',' v c;
  no_break = Lacks-of_contains b'\n' v b;
}

parse-print_table_example :
    (t : Table) × (parse_csv_into_table (print_table printed_titles printed_rows) fields ≡ ok t)
    × (t.r_fields ≡ printed_titles)
    × (map (λ (r : Row). map Cell.raw_value r.cells) t.rows ≡ printed_rows)
unfolding trim_space join
parse-print_table_example =
    parse-print_table fields (cc) printed_titles printed_rows
      (refl, (plain _ refl refl refl, (plain _ refl refl refl, tt)))
      (
        (refl, (plain _ refl refl refl, (plain _ refl refl refl, tt))),
        ((refl, (plain _ refl refl refl, (plain _ refl refl refl, tt))), tt),
      )
      refl
