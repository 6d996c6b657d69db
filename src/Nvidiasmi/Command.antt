-- ===== src/Nvidiasmi/Command.antt =====
-- internal/nvidiasmi/command.go, and the runs of nvidia-smi in query.go. The process is a
-- parameter: a function from the argument vector to what `RunFunc` left behind. The POSIX split of
-- go-shellquote is a parameter too. Contexts are not modelled: a run that its context ended is a
-- run that failed.
use Prim.Native.Char.{code}
use nvidia_gpu_exporter.Common.{
  if◌then◌else◌, ℤ, negsuc, ◌==◌, Outcome, ok, err, panic, ◌⊎◌, inl, inr, Option, none, some, List,
  [], ◌∷◌, ◌++◌, list_comparable, nat_comparable,
}
use nvidia_gpu_exporter.Nvidiasmi.Csv.{QField, Table, CsvError, parse_csv_into_table}
use nvidia_gpu_exporter.Text.{Text, codes, trim_space, contains_any, join, fields}

pub data CommandError : Type 0 where
  split_failed empty_command : CommandError

-- `len(parts) == 0 || parts[0] == ""`
unfoldable pub check_parts : List Text → List Text ⊎ CommandError
check_parts [] = inr empty_command
check_parts (part ∷ parts) = if part == [] then inr empty_command else inl (part ∷ parts)

-- SplitCommand. A string with a quote character goes to the shell splitter.
unfoldable pub split_command : (Text → Option (List Text)) → Text → List Text ⊎ CommandError
unfolding check_parts
split_command shell_split command =
    let posix : List Text ⊎ CommandError = elim (shell_split command) [
      | none ↦ inr split_failed
      | some parts ↦ check_parts parts
    ] in
    if contains_any command (34 ∷ 39 ∷ []) then posix else check_parts (fields command)

-- What a run of the process leaves: its output, and the exit code if it failed; -1 where the
-- failure is no *exec.ExitError.
pub record RunResult : Type 0 where
  pub stdout : Text
  pub failure : Option ℤ

pub data ExecError : Type 0 where
  bad_command : CommandError → ExecError
  command_failed : ℤ → ExecError

-- The machine that the exporter runs on.
pub record Machine : Type 0 where
  pub shell_split : Text → Option (List Text)
  pub run : List Text → RunResult

abbrev pub minus_one : ℤ
minus_one = negsuc 0

-- execQuery: the output and exit code 0, or an exit code and an error.
unfoldable pub exec_query : Machine → Text → List Text → Text ⊎ (ℤ × ExecError)
exec_query m command args = elim (split_command m.shell_split command) [
  | inl parts ↦ elim (m.run (parts ++ args)).failure [
    | none ↦ inl (m.run (parts ++ args)).stdout
    | some code ↦ inr (code, command_failed code)
  ]
  | inr e ↦ inr (minus_one, bad_command e)
]

pub data QueryError : Type 0 where
  exec_error : ExecError → QueryError
  csv_error : CsvError → QueryError

-- `"--query-gpu=" + strings.Join(fields, ",")`
abbrev pub query_args : List QField → List Text
query_args q_fields =
    (codes "--query-gpu=" ++ join (codes ",") q_fields) ∷ codes "--format=csv" ∷ []

abbrev pub wrap_csv : Outcome CsvError Table → Outcome (ℤ × QueryError) Table
wrap_csv (ok table) = ok table
wrap_csv (err e) = err (minus_one, csv_error e)
wrap_csv panic = panic

abbrev pub query_of : List QField → Text ⊎ (ℤ × ExecError) → Outcome (ℤ × QueryError) Table
query_of q_fields (inl stdout) = wrap_csv (parse_csv_into_table (trim_space stdout) q_fields)
query_of q_fields (inr (code, e)) = err (code, exec_error e)

-- Query
unfoldable pub query : Machine → Text → List QField → Outcome (ℤ × QueryError) Table
query m command q_fields = query_of q_fields (exec_query m command (query_args q_fields))
