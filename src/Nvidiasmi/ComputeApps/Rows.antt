-- ===== src/Nvidiasmi/ComputeApps/Rows.antt =====
-- What every process reported satisfies.
use nvidia_gpu_exporter.Common.{
  Bool-cases, Option-cases, inl-injective, length, All, ◌==◌, list_same_iff, ℕ, ◌≡◌, subst, ◌≢◌,
  inl, inr, true, false, Option, none, some, List, [], ◌∷◌, arith, list_comparable, nat_comparable,
}
use nvidia_gpu_exporter.Nvidiasmi.ComputeApps.{
  ComputeApp, compute_apps_num_cols, parse_uint, normalize_uuid, app_of_fields, app_of_split,
  parse_compute_app_row, parse_app_lines, parse_apps_split, parse_compute_apps,
}
use nvidia_gpu_exporter.Nvidiasmi.Csv.{parse_csv_line}
use nvidia_gpu_exporter.Text.{Text, trim_space, split}
use nvidia_gpu_exporter.Text.Trim.{trim_space_idem}

-- It can be attributed to a GPU, its PID is a uint64 in decimal, and its name and memory carry no
-- white space at their ends.
pub record IsUsable (app : ComputeApp) : Type 0 where
  pub attributed : app.gpu_uuid ≢ []
  pub numbered : (n : ℕ) × (parse_uint app.pid ≡ some n)
  pub name_trimmed : trim_space app.process_name ≡ app.process_name
  pub memory_trimmed : trim_space app.used_memory ≡ app.used_memory

abbrev UsableIfSome : Option ComputeApp → Type 0
UsableIfSome none = Unit
UsableIfSome (some app) = IsUsable app

app_of_fields-IsUsable :
    (field0 field1 : Text) (rest : List Text) → UsableIfSome (app_of_fields field0 field1 rest)
unfolding app_of_fields
app_of_fields-IsUsable field0 field1 rest = elim (Option-cases (parse_uint (trim_space field1))) [
  | inl e ↦ rw (e, app_of_fields) tt
  | inr (n, e) ↦ elim (Bool-cases (normalize_uuid field0 == [])) [
    | inl f ↦ rw (e, app_of_fields) (rw f tt)
    | inr f ↦
        rw (e, app_of_fields)
          (rw f (record {
            attributed = λ g. cc ((list_same_iff (normalize_uuid field0) []).1 g);
            numbered = (n, e);
            name_trimmed = trim_space_idem _;
            memory_trimmed = trim_space_idem _;
          }))
  ]
]

app_of_split-IsUsable : (fields : List Text) → UsableIfSome (app_of_split fields)
unfolding app_of_split
app_of_split-IsUsable [] = tt
app_of_split-IsUsable (a ∷ []) = tt
app_of_split-IsUsable (a ∷ b ∷ []) = tt
app_of_split-IsUsable (a ∷ b ∷ c ∷ []) = tt
app_of_split-IsUsable (a ∷ b ∷ c ∷ d ∷ more) = app_of_fields-IsUsable a b (c ∷ d ∷ more)

-- What one line adds to the result.
abbrev add_app : Option ComputeApp → List ComputeApp → List ComputeApp
add_app none rest = rest
add_app (some app) rest = app ∷ rest

add_app-All :
    (o : Option ComputeApp) (rest : List ComputeApp)
    → UsableIfSome o
    → All IsUsable rest
    → All IsUsable (add_app o rest)
add_app-All none rest h hs = hs
add_app-All (some app) rest h hs = (h, hs)

parse_app_lines_blank :
    (line : Text) (lines : List Text)
    → (trim_space line == []) ≡ true
    → parse_app_lines (line ∷ lines) ≡ parse_app_lines lines
unfolding parse_app_lines
parse_app_lines_blank line lines h = rw h

parse_app_lines_row :
    (line : Text) (lines : List Text)
    → (trim_space line == []) ≡ false
    → parse_app_lines (line ∷ lines) ≡ add_app (parse_compute_app_row line) (parse_app_lines lines)
unfolding parse_app_lines
parse_app_lines_row line lines h = rw h (ground arith)

parse_app_lines-All : (lines : List Text) → All IsUsable (parse_app_lines lines)
parse_app_lines-All [] = unfold parse_app_lines in tt
parse_app_lines-All (line ∷ lines) = elim (Bool-cases (trim_space line == [])) [
  | inl h ↦ rw (parse_app_lines_blank line lines h) (parse_app_lines-All lines)
  | inr h ↦ rw (parse_app_lines_row line lines h) (
      add_app-All (parse_compute_app_row line) (parse_app_lines lines)
        (unfold parse_compute_app_row in app_of_split-IsUsable (split b',' line))
        (parse_app_lines-All lines))
]

parse_apps_split-All :
    (ls : List Text) (apps : List ComputeApp) → parse_apps_split ls ≡ inl apps → All IsUsable apps
unfolding parse_apps_split
parse_apps_split-All [] apps h = subst (All IsUsable) (inl-injective h) tt
parse_apps_split-All (header ∷ lines) apps h =
    elim (Bool-cases (length (parse_csv_line header) == compute_apps_num_cols)) [
      | inl e ↦ subst (All IsUsable) (inl-injective (rw e at h)) (parse_app_lines-All lines)
      | inr e ↦ let bad = rw e at h in cc
    ]

-- Every process that an answer is read to has a GPU to be attributed to, a PID that is a uint64 in
-- decimal, and a name and a memory without white space at their ends.
pub parse_compute_apps-IsUsable :
    (output : Text) (apps : List ComputeApp)
    → parse_compute_apps output ≡ inl apps
    → All IsUsable apps
unfolding parse_compute_apps
parse_compute_apps-IsUsable output apps h = elim (Bool-cases (trim_space output == [])) [
  | inl e ↦ subst (All IsUsable) (inl-injective (rw e at h)) tt
  | inr e ↦ parse_apps_split-All _ apps (rw e at h)
]
