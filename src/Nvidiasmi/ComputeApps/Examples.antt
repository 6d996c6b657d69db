-- ===== src/Nvidiasmi/ComputeApps/Examples.antt =====
-- Processes whose names hold commas.
use nvidia_gpu_exporter.Common.{All, ◌≡◌, refl, some, [], ◌∷◌, list_comparable, nat_comparable}
use nvidia_gpu_exporter.Nvidiasmi.ComputeApps.{
  ComputeApp, parse_uint, normalize_uuid, parse_compute_app_row, parse_compute_apps,
}
use nvidia_gpu_exporter.Nvidiasmi.ComputeApps.Printed.{print_row, parse-print_row}
use nvidia_gpu_exporter.Nvidiasmi.ComputeApps.Rows.{IsUsable, parse_compute_apps-IsUsable}
use nvidia_gpu_exporter.Text.{Text, codes, trim_space}
use nvidia_gpu_exporter.Text.Split.{Lacks-of_contains}

abbrev uuid : Text
uuid = codes "GPU-0A"

abbrev pid : Text
pid = codes "12"

abbrev name : Text
name = codes "a, b"

abbrev memory : Text
memory = codes "5 MiB"

parse-print_row_example :
    parse_compute_app_row (print_row uuid pid name memory)
    ≡ some (record {
      gpu_uuid = normalize_uuid uuid;
      pid = pid;
      process_name = name;
      used_memory = memory;
      gpu_instance_id = [];
      compute_instance_id = [];
    })
unfolding nvidia_gpu_exporter.Text.trim_prefix nvidia_gpu_exporter.Text.to_lower trim_space
    parse_uint normalize_uuid
parse-print_row_example =
    parse-print_row uuid pid name memory 12 (Lacks-of_contains b',' uuid refl)
      (Lacks-of_contains b',' pid refl) (Lacks-of_contains b',' memory refl) refl refl refl refl
      refl

abbrev output : Text
output = codes "gpu_uuid, pid, process_name, used\nGPU-0A, 12, a, b, 5 MiB\n\nGPU-0A, x, y, 1 MiB"

abbrev app : ComputeApp
app = record {
  gpu_uuid = codes "0a";
  pid = pid;
  process_name = name;
  used_memory = memory;
  gpu_instance_id = [];
  compute_instance_id = [];
}

parse_compute_apps-IsUsable_example : All IsUsable (app ∷ [])
unfolding trim_space nvidia_gpu_exporter.Text.split nvidia_gpu_exporter.Nvidiasmi.Csv.parse_csv_line
    parse_uint normalize_uuid nvidia_gpu_exporter.Text.trim_prefix nvidia_gpu_exporter.Text.to_lower
    nvidia_gpu_exporter.Text.join parse_compute_apps
parse_compute_apps-IsUsable_example = parse_compute_apps-IsUsable output (app ∷ []) refl
