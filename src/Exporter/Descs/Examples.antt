-- ===== src/Exporter/Descs/Examples.antt =====
-- An exporter with every feature, for one field.
use nvidia_gpu_exporter.Common.{
  if◌then◌else◌, All, lookup, insert, ◌==◌, ◌≡◌, refl, ◌≢◌, true, some, [], ◌∷◌, ◌++◌,
  list_comparable, nat_comparable,
}
use nvidia_gpu_exporter.Exporter.Claims.{
  MetricInfo, nvml_return_code_metric, reserved_metric_names, metric_info,
  build_q_field_to_metric_info_map,
}
use nvidia_gpu_exporter.Exporter.Descs.{Features, GpuExporter, new_exporter}
use nvidia_gpu_exporter.Exporter.Descs.Families.{described_families, new_exporter_names}
use nvidia_gpu_exporter.Exporter.Names.{Desc, Host, one, build_fq_name_and_multiplier}
use nvidia_gpu_exporter.Nvidiasmi.Csv.{QField}
use nvidia_gpu_exporter.Nvidiasmi.Resolve.{ResolvedFields}
use nvidia_gpu_exporter.Text.{Text, codes, to_lower, split}

abbrev host : Host
host = record {
  build_fq_name = λ prefix name.
      if name == [] then [] else if prefix == [] then name else prefix ++ b'_' ∷ name;
  accepts = λ desc values. true;
}

abbrev resolved : ResolvedFields
resolved = record {
  query = codes "power.draw" ∷ [];
  returned = (codes "power.draw", codes "power.draw [W]") ∷ [];
  info = [];
}

abbrev features : Features
features = record {
  compute_apps = true;
  compute_app_mig_labels = true;
  pcie_throughput = true;
  energy = true;
  mig = true;
  xid_events = true;
}

abbrev exporter : GpuExporter
exporter = new_exporter host (codes "p") resolved features nvml_return_code_metric

abbrev power : MetricInfo
power = metric_info (codes "p_power_draw_watts", one) (codes "power.draw [W]")

power_found : lookup (codes "power.draw") exporter.infos ≡ some power
unfolding new_exporter lookup build_q_field_to_metric_info_map
    nvidia_gpu_exporter.Exporter.Names.build_fq_name_and_multiplier
    nvidia_gpu_exporter.Common.insert nvidia_gpu_exporter.Text.split
    nvidia_gpu_exporter.Text.to_lower nvidia_gpu_exporter.Exporter.Claims.reserved_metric_names
power_found = refl

new_exporter_names_example :
    All (λ (d : Desc). power.desc.fq_name ≢ d.fq_name) (described_families exporter)
    × ((r : QField) (j : MetricInfo)
        → lookup r exporter.infos ≡ some j
        → power.desc.fq_name ≡ j.desc.fq_name
        → codes "power.draw" ≡ r)
new_exporter_names_example =
    new_exporter_names host (codes "p") resolved features nvml_return_code_metric
      (codes "power.draw") power power_found
