-- ===== src/Nvidiasmi/Version.antt =====
-- internal/nvidiasmi/version.go: the CUDA version in the answer to `nvidia-smi --version`. Log lines
-- and the timeout are left out.
pub mod Chosen
pub mod Spelled
pub mod Shape
mod Examples
use nvidia_gpu_exporter.Collect.Live.Steps.{later}
use nvidia_gpu_exporter.Common.{
  if◌then◌else◌, ◌==◌, inl, inr, Bool, false, Option, none, some, List, [], ◌∷◌, list_comparable,
  nat_comparable,
}
use nvidia_gpu_exporter.Nvidiasmi.Command.{Machine, exec_query}
use nvidia_gpu_exporter.Nvidiasmi.Transform.{span_digits, match_digits}
use nvidia_gpu_exporter.Text.{
  Text, codes, to_lower, trim_space, cut_prefix, split, join, cut, fields,
}

-- cudaVersionValue, `^[0-9]+\.[0-9]+$`
unfoldable pub is_cuda_version : Text → Bool
unfolding match_digits span_digits
is_cuda_version value = elim (match_digits [] (span_digits value)) [
  | none ↦ false
  | some (major, rest) ↦ elim (cut_prefix rest (codes ".")) [
    | none ↦ false
    | some minor ↦ elim (match_digits [] (span_digits minor)) [
      | none ↦ false
      | some (digits, behind) ↦ behind == []
    ]
  ]
]

-- The name and the value of a line, none where the loop goes on with the next line.
unfoldable pub version_of_line : Text → Option (Text × Text)
unfolding is_cuda_version
version_of_line line = elim (cut line (codes ":")) [
  | none ↦ none
  | some (key, raw) ↦
      let value = trim_space raw in
      if is_cuda_version value then some (to_lower (join (codes " ") (fields key)), value) else none
]

abbrev pub umd_name : Text
umd_name = codes "cuda umd version"

abbrev pub legacy_name : Text
legacy_name = codes "cuda version"

-- The loop, with the legacy value found so far.
unfoldable pub version_loop : Text → List Text → Text
unfolding version_of_line
version_loop legacy [] = legacy
version_loop legacy (line ∷ lines) = elim (version_of_line line) [
  | none ↦ version_loop legacy lines
  | some (name, value) ↦
      let later = version_loop (if name == legacy_name then value else legacy) lines in
      if name == umd_name then value else later
]

-- ParseCudaVersion
unfoldable pub parse_cuda_version : Text → Text
unfolding version_loop
parse_cuda_version output = version_loop [] (split b'\n' output)

-- QueryCudaVersion
unfoldable pub query_cuda_version : Machine → Text → Text
query_cuda_version m command = elim (exec_query m command (codes "--version" ∷ [])) [
  | inl stdout ↦ parse_cuda_version stdout
  | inr (status, e) ↦ []
]
