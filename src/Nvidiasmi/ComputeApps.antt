-- ===== src/Nvidiasmi/ComputeApps.antt =====
-- internal/nvidiasmi/computeapps.go: the processes of one --query-compute-apps answer. Log lines
-- are left out.
pub mod Rows
pub mod Printed
mod Examples
use nvidia_gpu_exporter.Common.{
  ltb, leb, if◌then◌else◌, length, ◌==◌, contains, ℕ, ◌+◌, ◌-◌, ◌*◌, ◌^◌, ◌⊎◌, inl, inr, Bool, ◌&&◌,
  Option, none, some, List, [], ◌∷◌, list_comparable, nat_comparable,
}
use nvidia_gpu_exporter.Nvidiasmi.Command.{ExecError, Machine, exec_query}
use nvidia_gpu_exporter.Nvidiasmi.Csv.{parse_csv_line}
use nvidia_gpu_exporter.Text.{Text, codes, to_lower, trim_space, trim_prefix, split, join}

-- Process names are texts, and so is the PID: it is only ever a label.
pub record ComputeApp : Type 0 where
  pub gpu_uuid : Text
  pub pid : Text
  pub process_name : Text
  pub used_memory : Text
  pub gpu_instance_id : Text
  pub compute_instance_id : Text

abbrev pub compute_apps_num_cols : ℕ
compute_apps_num_cols = 4

abbrev pub compute_apps_args : List Text
compute_apps_args =
    codes "--query-compute-apps=gpu_uuid,pid,process_name,used_gpu_memory"
    ∷ codes "--format=csv"
    ∷ []

-- The number that digits spell behind `n`, or none if a character is no digit.
unfoldable pub digits_value : ℕ → Text → Option ℕ
digits_value n [] = some n
digits_value n (c ∷ s) =
    let later = digits_value (n * 10 + (c - b'0')) s in
    if leb b'0' c && leb c b'9' then later else none

-- strconv.ParseUint(s, 10, 64)
unfoldable pub parse_uint : Text → Option ℕ
unfolding digits_value
parse_uint [] = none
parse_uint (c ∷ s) = elim (digits_value 0 (c ∷ s)) [
  | none ↦ none
  | some n ↦ if ltb n (2 ^ 64) then some n else none
]

-- NormalizeUUID
unfoldable pub normalize_uuid : Text → Text
normalize_uuid raw = trim_prefix (to_lower (trim_space raw)) (codes "gpu-")

abbrev pub absent_values : List Text
absent_values =
    []
    ∷ codes "n/a"
    ∷ codes "[n/a]"
    ∷ codes "[not supported]"
    ∷ codes "[insufficient permissions]"
    ∷ codes "[unknown error]"
    ∷ []

-- IsKnownAbsentValue
unfoldable pub is_known_absent_value : Text → Bool
is_known_absent_value raw = contains absent_values (to_lower (trim_space raw))

-- `fields[:len(fields)-1]` and `fields[len(fields)-1]` of a slice that is not empty.
abbrev pub init : List Text → List Text
init [] = []
init (x ∷ []) = []
init (x ∷ y ∷ xs) = x ∷ init (y ∷ xs)

abbrev pub last : List Text → Text
last [] = []
last (x ∷ []) = x
last (x ∷ y ∷ xs) = last (y ∷ xs)

-- The rest of `parseComputeAppRow`, with at least four fields: uuid and pid from the left, the
-- memory from the right, and what stands between them as the name.
unfoldable pub app_of_fields : Text → Text → List Text → Option ComputeApp
app_of_fields field0 field1 rest =
    let pid = trim_space field1 in
    let uuid = normalize_uuid field0 in
    elim (parse_uint pid) [
      | none ↦ none
      | some _ ↦
          if uuid == []
          then none
          else some (record {
            gpu_uuid = uuid;
            pid = pid;
            process_name = trim_space (join (codes ",") (init rest));
            used_memory = trim_space (last rest);
            gpu_instance_id = [];
            compute_instance_id = [];
          })
    ]

-- `if len(fields) < computeAppsNumCols` and the rest.
unfoldable pub app_of_split : List Text → Option ComputeApp
unfolding app_of_fields
app_of_split (field0 ∷ field1 ∷ field2 ∷ field3 ∷ more) =
    app_of_fields field0 field1 (field2 ∷ field3 ∷ more)
app_of_split _ = none

-- parseComputeAppRow
unfoldable pub parse_compute_app_row : Text → Option ComputeApp
unfolding app_of_split
parse_compute_app_row line = app_of_split (split b',' line)

-- The loop over the lines behind the header.
unfoldable pub parse_app_lines : List Text → List ComputeApp
unfolding parse_compute_app_row
parse_app_lines [] = []
parse_app_lines (line ∷ lines) =
    let rest = parse_app_lines lines in
    if trim_space line == []
    then rest
    else elim (parse_compute_app_row line) [ none ↦ rest | some app ↦ app ∷ rest ]

pub data AppsError : Type 0 where
  apps_command : ExecError → AppsError
  bad_header : ℕ → AppsError

unfoldable pub parse_apps_split : List Text → List ComputeApp ⊎ AppsError
unfolding parse_app_lines
parse_apps_split [] = inl []
parse_apps_split (header ∷ lines) =
    let columns = length (parse_csv_line header) in
    if columns == compute_apps_num_cols
    then inl (parse_app_lines lines)
    else inr (bad_header columns)

-- ParseComputeApps
unfoldable pub parse_compute_apps : Text → List ComputeApp ⊎ AppsError
unfolding parse_apps_split
parse_compute_apps output =
    let trimmed = trim_space output in
    if trimmed == [] then inl [] else parse_apps_split (split b'\n' trimmed)

-- QueryComputeApps
unfoldable pub query_compute_apps : Machine → Text → List ComputeApp ⊎ AppsError
query_compute_apps m command = elim (exec_query m command compute_apps_args) [
  | inl stdout ↦ parse_compute_apps stdout
  | inr (status, e) ↦ inr (apps_command e)
]
