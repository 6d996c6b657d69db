-- ===== src/Exporter/Claims/Examples.antt =====
-- Two fields that derive one name, one that derives a name of its own.
use nvidia_gpu_exporter.Common.{
  if◌then◌else◌, lookup, insert, ◌==◌, contains, ◌≡◌, refl, ap, ◌≢◌, true, false, none, some, List,
  [], ◌∷◌, ◌++◌, list_comparable, nat_comparable,
}
use nvidia_gpu_exporter.Exporter.Claims.{
  MetricInfo, text_or_nil, derived, metric_info, build_q_field_to_metric_info_map,
}
use nvidia_gpu_exporter.Exporter.Claims.Metrics.{
  is_published, lookup-build_q_field_to_metric_info_map, build_q_field_to_metric_info_map_unique,
}
use nvidia_gpu_exporter.Exporter.Names.{Host, build_fq_name_and_multiplier}
use nvidia_gpu_exporter.Nvidiasmi.Csv.{QField, RField}
use nvidia_gpu_exporter.Text.{Text, codes, to_lower, split}

abbrev host : Host
host = record {
  build_fq_name = λ prefix name.
      if name == [] then [] else if prefix == [] then name else prefix ++ b'_' ∷ name;
  accepts = λ desc values. true;
}

abbrev returned : List (QField × RField)
returned =
    (codes "b", codes "a.b")
    ∷ (codes "a", codes "a_b")
    ∷ (codes "c", codes "power.draw [W]")
    ∷ (codes "d", codes "gpu_info")
    ∷ []

abbrev reserved : List Text
reserved = codes "p_gpu_info" ∷ []

abbrev power : MetricInfo
power = metric_info (codes "p_power_draw_watts", 0x3ff0000000000000) (codes "power.draw [W]")

lookup-build_q_field_to_metric_info_map_example :
    lookup (codes "a") (build_q_field_to_metric_info_map host (codes "p") returned reserved) ≡ (
      if is_published host (codes "p") returned reserved (codes "a")
      then some (
          metric_info
            (derived host (codes "p") returned (codes "a"))
            (text_or_nil (lookup (codes "a") returned)))
      else none)
lookup-build_q_field_to_metric_info_map_example =
    lookup-build_q_field_to_metric_info_map host (codes "p") returned reserved (codes "a")

build_test :
    build_q_field_to_metric_info_map host (codes "p") returned reserved ≡ (codes "c", power) ∷ []
unfolding build_q_field_to_metric_info_map
    nvidia_gpu_exporter.Exporter.Names.build_fq_name_and_multiplier lookup
    nvidia_gpu_exporter.Common.insert nvidia_gpu_exporter.Text.split
    nvidia_gpu_exporter.Text.to_lower
build_test = refl

build_q_field_to_metric_info_map_unique_example :
    (power.desc.fq_name ≢ [])
    × (contains reserved power.desc.fq_name ≡ false)
    × (power.desc.fq_name ≡ power.desc.fq_name → codes "c" ≡ codes "c")
unfolding lookup
build_q_field_to_metric_info_map_unique_example =
    build_q_field_to_metric_info_map_unique host (codes "p") returned reserved (codes "c")
      (codes "c") power power (ap (lookup (codes "c")) build_test)
      (ap (lookup (codes "c")) build_test)
