-- ===== src/Nvidiasmi/Version/Examples.antt =====
-- An answer of a driver of the 610 branch.
use nvidia_gpu_exporter.Common.{◌≡◌, ◌↔◌, ◌⊎◌, true, [], list_comparable, nat_comparable}
use nvidia_gpu_exporter.Nvidiasmi.Version.{
  is_cuda_version, umd_name, legacy_name, parse_cuda_version,
}
use nvidia_gpu_exporter.Nvidiasmi.Version.Chosen.{versions, chosen, parse_cuda_version_lem}
use nvidia_gpu_exporter.Nvidiasmi.Version.Shape.{parse_cuda_version-IsVersion}
use nvidia_gpu_exporter.Nvidiasmi.Version.Spelled.{IsVersion}
use nvidia_gpu_exporter.Text.{Text, codes, split}

abbrev output : Text
output = codes "CUDA version : Deprecated\nCUDA UMD version  : 13.1\nCUDA Version: 12.4"

parse_cuda_version_lem_example :
    parse_cuda_version output
    ≡ chosen [] (versions umd_name (split b'\n' output)) (versions legacy_name (split b'\n' output))
parse_cuda_version_lem_example = parse_cuda_version_lem output

parse_cuda_version-IsVersion_example :
    ((parse_cuda_version output ≡ []) ⊎ IsVersion (parse_cuda_version output))
    × ((value : Text) → (is_cuda_version value ≡ true) ↔ IsVersion value)
parse_cuda_version-IsVersion_example = parse_cuda_version-IsVersion output
