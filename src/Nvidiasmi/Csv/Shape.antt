-- ===== src/Nvidiasmi/Csv/Shape.antt =====
-- What `parseCSVRow` builds: one cell for each column, with the names of its column.
use nvidia_gpu_exporter.Common.{
  if◌then◌else◌, nat_same_iff, Bool-cases, length, get_elem?-append_length, append_cons,
  length-append_one, insert, ◌==◌, Outcome, ok, err, index, ℕ, suc, ◌≡◌, refl, ap, ◌∙◌, inl, inr,
  List, [], ◌∷◌, ◌++◌, map, append_assoc, append-nil, arith, list_comparable, nat_comparable,
}
use nvidia_gpu_exporter.Nvidiasmi.Csv.{
  QField, RField, Cell, Row, CsvError, row_columns, parse_csv_line, fill_row, parse_csv_row,
}
use nvidia_gpu_exporter.Text.{Text, trim_space}
-- The cells of one line, column by column.
use nvidia_gpu_exporter.Common.{
  length, get_elem?-append_length, insert, ok, index, ◌≡◌, refl, ap, List, [], ◌∷◌, ◌++◌, map,
  arith,
}
use nvidia_gpu_exporter.Nvidiasmi.Csv.{QField, RField, Cell, Row, CsvError, fill_row}
use nvidia_gpu_exporter.Text.{Text}

abbrev pub zip_cells : List QField → List RField → List Text → List Cell
zip_cells [] rs vs = []
zip_cells (q ∷ qs) [] vs = []
zip_cells (q ∷ qs) (r ∷ rs) [] = []
zip_cells (q ∷ qs) (r ∷ rs) (v ∷ vs) =
    record { q_field = q; r_field = r; raw_value = v } ∷ zip_cells qs rs vs

-- The map of a row after its cells were put in, from the left.
abbrev pub add_cells : List Cell → List (QField × Cell) → List (QField × Cell)
add_cells [] m = m
add_cells (c ∷ cs) m = add_cells cs (insert c.q_field c m)

abbrev pub make_row : List Cell → Row
make_row cells = record { q_field_to_cells = add_cells cells []; cells = cells }

pub zip_cells_fields :
    (qs : List QField) (rs : List RField) (vs : List Text)
    → length rs ≡ length qs
    → length vs ≡ length qs
    → (map Cell.q_field (zip_cells qs rs vs) ≡ qs)
      × (map Cell.r_field (zip_cells qs rs vs) ≡ rs)
      × (map Cell.raw_value (zip_cells qs rs vs) ≡ vs)
zip_cells_fields [] [] [] a b = (refl, refl, refl)
zip_cells_fields [] (r ∷ rs) vs a b = absurd (omega arith)
zip_cells_fields [] [] (v ∷ vs) a b = absurd (omega arith)
zip_cells_fields (q ∷ qs) [] vs a b = absurd (omega arith)
zip_cells_fields (q ∷ qs) (r ∷ rs) [] a b = absurd (omega arith)
zip_cells_fields (q ∷ qs) (r ∷ rs) (v ∷ vs) a b =
    let (x, y, z) = zip_cells_fields qs rs vs (omega arith) (omega arith) in
    (ap (◌∷◌ q) x, ap (◌∷◌ r) y, ap (◌∷◌ v) z)

pub index_at {ℓ} :
    {A : Type ℓ} (pre : List A) (x : A) (xs : List A)
    → index {E = CsvError} (pre ++ x ∷ xs) (length pre) ≡ ok x
index_at pre x xs = rw (get_elem?-append_length pre x xs, index)

abbrev add_cell : QField → RField → Text → Row → Row
add_cell q r v row =
    let cell : Cell = record { q_field = q; r_field = r; raw_value = v } in
    record { q_field_to_cells = insert q cell row.q_field_to_cells; cells = row.cells ++ cell ∷ [] }

fill_row_step :
    (q_fields : List QField) (r_fields : List RField) (col : ℕ) (q : QField) (r : RField) (v : Text)
    (vs : List Text) (row : Row)
    → index {E = CsvError} q_fields col ≡ ok q
    → index {E = CsvError} r_fields col ≡ ok r
    → fill_row q_fields r_fields col (v ∷ vs) row
      ≡ fill_row q_fields r_fields (suc col) vs (add_cell q r v row)
unfolding fill_row
fill_row_step q_fields r_fields col q r v vs row hq hr = rw hq (rw hr)

fill_row_end :
    (q_fields : List QField) (r_fields : List RField) (col : ℕ) (row : Row)
    → fill_row q_fields r_fields col [] row ≡ ok row
unfolding fill_row
fill_row_end q_fields r_fields col row = refl

regroup :
    (zs : List Cell) (m : List (QField × Cell)) (cs : List Cell) (c : Cell)
    → ◌≡◌ {A = Outcome CsvError Row}
        (ok (record { q_field_to_cells = add_cells zs m; cells = (cs ++ c ∷ []) ++ zs }))
        (ok (record { q_field_to_cells = add_cells zs m; cells = cs ++ c ∷ zs }))
regroup zs m cs c = rw (append_assoc cs (c ∷ []) zs)

fill_row-zip_cells :
    (pq : List QField) (pr : List RField) (qs : List QField) (rs : List RField) (vs : List Text)
    (row : Row)
    → length pr ≡ length pq
    → length rs ≡ length qs
    → length vs ≡ length qs
    → fill_row (pq ++ qs) (pr ++ rs) (length pq) vs row
      ≡ ok (record {
        q_field_to_cells = add_cells (zip_cells qs rs vs) row.q_field_to_cells;
        cells = row.cells ++ zip_cells qs rs vs;
      })
fill_row-zip_cells pq pr [] rs [] row a b c =
    rw (append-nil row.cells) (fill_row_end (pq ++ []) (pr ++ rs) (length pq) row)
fill_row-zip_cells pq pr [] rs (v ∷ vs) row a b c = absurd (omega arith)
fill_row-zip_cells pq pr (q ∷ qs) [] vs row a b c = absurd (omega arith)
fill_row-zip_cells pq pr (q ∷ qs) (r ∷ rs) [] row a b c = absurd (omega arith)
fill_row-zip_cells pq pr (q ∷ qs) (r ∷ rs) (v ∷ vs) row a b c =
    fill_row_step _ _ _ q r v vs row (index_at pq q qs) (rw (← a) (index_at pr r rs))
    ∙ (rw (append_cons pq q qs, append_cons pr r rs, ← length-append_one pq q)
          (fill_row-zip_cells (pq ++ q ∷ []) (pr ++ r ∷ []) qs rs vs (add_cell q r v row)
            (omega (arith, length-append_one pq q, length-append_one pr r)) (omega arith)
            (omega arith))
        ∙ regroup (zip_cells qs rs vs) (insert q _ row.q_field_to_cells) row.cells _)

-- The whole of `parseCSVRow`, once the header has as many names as the query has fields.
pub parse_csv_row_lem :
    (n : ℕ) (line : Text) (qs : List QField) (rs : List RField)
    → length rs ≡ length qs
    → parse_csv_row n line qs rs ≡ (
        if length (parse_csv_line line) == length qs
        then ok (make_row (zip_cells qs rs (parse_csv_line line)))
        else err (row_columns n (length (parse_csv_line line)) (length qs) (trim_space line)))
unfolding parse_csv_row
parse_csv_row_lem n line qs rs h = elim (Bool-cases (length (parse_csv_line line) == length qs)) [
  | inl e ↦ rw e (
      fill_row-zip_cells [] [] qs rs (parse_csv_line line)
        (record { q_field_to_cells = []; cells = [] }) refl h ((nat_same_iff _ _).0 e))
  | inr e ↦ rw e
]
