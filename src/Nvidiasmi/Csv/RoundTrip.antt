-- ===== src/Nvidiasmi/Csv/RoundTrip.antt =====
-- An answer that nvidia-smi prints is read back to the values that it prints.
use nvidia_gpu_exporter.Common.{
  nat_same_iff, length, All, All-append, nil_of_length, ok, Yields-returns, ℕ, suc, ◌≡◌, refl, sym,
  ap, ◌∙◌, ◌≢◌, true, none, List, [], ◌∷◌, ◌++◌, map, append-nil, arith, list_comparable,
  nat_comparable,
}
use nvidia_gpu_exporter.Nvidiasmi.Csv.{
  QField, RField, Cell, Row, Table, parse_csv_line, parse_csv_into_table,
}
use nvidia_gpu_exporter.Nvidiasmi.Csv.Answers.{
  table_error, answer_lines, IsTableOfLines-cons, parse-Yields,
}
use nvidia_gpu_exporter.Nvidiasmi.Csv.Rows.{fits, row_of_line, first_misfit}
use nvidia_gpu_exporter.Nvidiasmi.Csv.Shape.{zip_cells_fields}
use nvidia_gpu_exporter.Text.{Text, codes, trim_space, join}
use nvidia_gpu_exporter.Text.Split.{Lacks, split-Lacks, split-append, split-join}

-- A value that the format can carry: no comma, no line break, no white space at its ends.
pub record IsPlain (v : Text) : Type 0 where
  pub trimmed : trim_space v ≡ v
  pub no_comma : Lacks b',' v
  pub no_break : Lacks b'\n' v

-- One line as nvidia-smi prints it with --format=csv.
abbrev pub print_line : List Text → Text
print_line = join (codes ", ")

abbrev pub print_table : List Text → List (List Text) → Text
print_table titles rows = join (codes "\n") (map print_line (titles ∷ rows))

-- What stands behind the first value of a line.
tail_of : List Text → Text
tail_of [] = []
tail_of (v ∷ vs) = b',' ∷ 32 ∷ (v ++ tail_of vs)

print_line-tail_of : (v : Text) (vs : List Text) → print_line (v ∷ vs) ≡ v ++ tail_of vs
unfolding tail_of join
print_line-tail_of v [] = sym (append-nil v)
print_line-tail_of v (w ∷ vs) = ap (λ (t : Text). v ++ b',' ∷ 32 ∷ t) (print_line-tail_of w vs)

trim_space_blank : (v : Text) → trim_space (32 ∷ v) ≡ trim_space v
unfolding trim_space
trim_space_blank v = refl

parse_tail :
    (v' v : Text) (vs : List Text)
    → trim_space v' ≡ v
    → Lacks b',' v'
    → All IsPlain vs
    → parse_csv_line (v' ++ tail_of vs) ≡ v ∷ vs
unfolding tail_of parse_csv_line
parse_tail v' v [] e h p = rw (append-nil v', split-Lacks b',' v' h) (cc)
parse_tail v' v (w ∷ vs) e h p =
    rw (split-append b',' v' (32 ∷ (w ++ tail_of vs)) h, e)
      (ap (◌∷◌ v)
        (parse_tail (32 ∷ w) w vs (trim_space_blank w ∙ p.0.trimmed) (refl, p.0.no_comma) p.1))

parse-print_line : (vs : List Text) → vs ≢ [] → All IsPlain vs → parse_csv_line (print_line vs) ≡ vs
parse-print_line [] h p = absurd (h refl)
parse-print_line (v ∷ vs) h p =
    rw (print_line-tail_of v vs) (parse_tail v v vs p.0.trimmed p.0.no_comma p.1)

tail_of-Lacks : (vs : List Text) → All IsPlain vs → Lacks b'\n' (tail_of vs)
unfolding tail_of
tail_of-Lacks [] p = tt
tail_of-Lacks (v ∷ vs) p =
    (refl, (refl, All-append _ v (tail_of vs) p.0.no_break (tail_of-Lacks vs p.1)))

print_line-Lacks : (vs : List Text) → All IsPlain vs → Lacks b'\n' (print_line vs)
print_line-Lacks [] p = unfold join in tt
print_line-Lacks (v ∷ vs) p =
    rw (print_line-tail_of v vs) (All-append _ v (tail_of vs) p.0.no_break (tail_of-Lacks vs p.1))

-- The values of each row, as many as there are query fields, and each of them plain.
abbrev pub IsPlainRow : List QField → List Text → Type 0
IsPlainRow qs vs = (length vs ≡ length qs) × All IsPlain vs

lines-Lacks :
    (qs : List QField) (rows : List (List Text))
    → All (IsPlainRow qs) rows
    → All (Lacks b'\n') (map print_line rows)
lines-Lacks qs [] p = tt
lines-Lacks qs (vs ∷ rows) p = (print_line-Lacks vs p.0.1, lines-Lacks qs rows p.1)

module _ (qs : List QField) (some_field : qs ≢ []) where
  row-parse : (vs : List Text) → IsPlainRow qs vs → parse_csv_line (print_line vs) ≡ vs
  row-parse [] p = absurd (some_field (nil_of_length qs p.0))
  row-parse (v ∷ vs) p = parse-print_line (v ∷ vs) (ground arith) p.1

  print_line-fits : (vs : List Text) → IsPlainRow qs vs → fits qs (print_line vs) ≡ true
  print_line-fits vs p = rw (row-parse vs p) ((nat_same_iff _ _).1 p.0)

  first_misfit-none :
      (i : ℕ) (rows : List (List Text))
      → All (IsPlainRow qs) rows
      → first_misfit qs i (map print_line rows) ≡ none
  first_misfit-none i [] p = refl
  first_misfit-none i (vs ∷ rows) p =
      rw (print_line-fits vs p.0) (first_misfit-none (suc i) rows p.1)

  rows-values :
      (rs : List RField) (rows : List (List Text))
      → length rs ≡ length qs
      → All (IsPlainRow qs) rows
      → map
          (λ (r : Row). map Cell.raw_value r.cells)
          (map (row_of_line qs rs) (map print_line rows))
        ≡ rows
  rows-values rs [] h p = refl
  rows-values rs (vs ∷ rows) h p =
      let values = (zip_cells_fields qs rs vs h p.0.0).2 in
      rw (row-parse vs p.0) (rw (values, rows-values rs rows h p.1))

  -- What nvidia-smi prints is read back: with at least one query field, a header and rows of
  -- plain values, one for each query field, and a text with no white space at its ends, the
  -- table has the printed names for its returned names and the printed values in its rows.
  pub parse-print_table :
      (titles : List Text) (rows : List (List Text))
      → IsPlainRow qs titles
      → All (IsPlainRow qs) rows
      → trim_space (print_table titles rows) ≡ print_table titles rows
      → (t : Table) × (parse_csv_into_table (print_table titles rows) qs ≡ ok t)
        × (t.r_fields ≡ titles)
        × (map (λ (r : Row). map Cell.raw_value r.cells) t.rows ≡ rows)
  parse-print_table titles rows p ps trimmed =
      let lines = map print_line rows in
      let title_line = print_line titles in
      let split_lines : answer_lines (print_table titles rows) ≡ title_line ∷ lines =
        rw trimmed (split-join b'\n' title_line lines (lines-Lacks qs (titles ∷ rows) (p, ps))) in
      let no_error : table_error qs (title_line ∷ lines) ≡ none =
        rw (row-parse titles p)
          (rw ((nat_same_iff _ _).1 (sym p.0)) (first_misfit-none 0 rows ps)) in
      let (t, returned, shape) =
        Yields-returns (parse-Yields (print_table titles rows) qs) (rw split_lines no_error) in
      let w = IsTableOfLines-cons qs title_line lines t (rw split_lines at shape) in
      (
        t,
        returned,
        w.header ∙ row-parse titles p,
        rw w.rows (rows-values t.r_fields rows w.aligned ps),
      )
