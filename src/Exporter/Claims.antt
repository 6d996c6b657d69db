-- ===== src/Exporter/Claims.antt =====
-- internal/exporter/exporter.go: which query fields get a metric, and the names that the exporter
-- owns. Log lines are left out.
pub mod Claimed
pub mod Metrics
mod Examples
use nvidia_gpu_exporter.Common.{
  ltb, if◌then◌else◌, length, lookup, insert, Float64, ◌==◌, contains, Bool, true, false, ◌||◌,
  Option, none, some, List, [], ◌∷◌, ◌++◌, map, list_comparable, nat_comparable,
}
use nvidia_gpu_exporter.Exporter.Names.{Desc, Host, build_fq_name_and_multiplier}
use nvidia_gpu_exporter.Nvidiasmi.Csv.{QField, RField}
use nvidia_gpu_exporter.Nvidiasmi.Resolve.{remove_duplicates}
use nvidia_gpu_exporter.Text.{Text, codes}

pub data ValueType : Type 0 where
  counter_value : ValueType
  gauge_value : ValueType

pub record MetricInfo : Type 0 where
  pub desc : Desc
  pub m_type : ValueType
  pub value_multiplier : Float64

-- ExitCodeMetric
pub record ExitCodeMetric : Type 0 where
  pub name : Text
  pub help : Text

abbrev pub exec_exit_code_metric : ExitCodeMetric
exec_exit_code_metric = record {
  name = codes "command_exit_code";
  help = codes "Exit code of the most recent nvidia-smi run";
}

abbrev pub nvml_return_code_metric : ExitCodeMetric
nvml_return_code_metric = record {
  name = codes "nvml_return_code";
  help = codes "NVML return code of the most recent collection (0 = success)";
}

-- fixedMetricNames
unfoldable pub fixed_metric_names : List Text
fixed_metric_names =
    codes "failed_scrapes_total"
    ∷ codes "last_collect_success"
    ∷ codes "last_collect_success_timestamp_seconds"
    ∷ codes "last_collect_duration_seconds"
    ∷ codes "gpu_info"
    ∷ codes "compute_app_info"
    ∷ codes "compute_app_used_memory_bytes"
    ∷ codes "compute_apps"
    ∷ codes "compute_apps_last_collect_success"
    ∷ codes "pcie_throughput_tx_bytes_per_second"
    ∷ codes "pcie_throughput_rx_bytes_per_second"
    ∷ codes "energy_joules_total"
    ∷ codes "mig_info"
    ∷ codes "mig_memory_total_bytes"
    ∷ codes "mig_memory_used_bytes"
    ∷ codes "mig_memory_free_bytes"
    ∷ codes "mig_memory_reserved_bytes"
    ∷ codes "mig_graphics_activity_ratio"
    ∷ codes "mig_sm_activity_ratio"
    ∷ codes "mig_sm_occupancy_ratio"
    ∷ codes "mig_tensor_activity_ratio"
    ∷ codes "mig_pcie_throughput_tx_bytes_per_second"
    ∷ codes "mig_pcie_throughput_rx_bytes_per_second"
    ∷ codes "xid_errors_total"
    ∷ codes "xid_last_timestamp_seconds"
    ∷ []

-- reservedMetricNames. A set is the list of its members.
unfoldable pub reserved_metric_names : Host → Text → ExitCodeMetric → List Text
unfolding fixed_metric_names
reserved_metric_names host prefix exit_code_metric = map (host.build_fq_name prefix) (
    fixed_metric_names
    ++ exec_exit_code_metric.name ∷ nvml_return_code_metric.name ∷ exit_code_metric.name ∷ [])

-- The order of Go's strings, character by character.
unfoldable pub text_leb : Text → Text → Bool
text_leb [] t = true
text_leb (c ∷ s) [] = false
text_leb (c ∷ s) (d ∷ t) = let later = text_leb s t in if c == d then later else ltb c d

unfoldable pub insert_sorted : QField → List QField → List QField
unfolding text_leb
insert_sorted q [] = q ∷ []
insert_sorted q (r ∷ qs) =
    let later = insert_sorted q qs in if text_leb q r then q ∷ r ∷ qs else r ∷ later

-- slices.Sorted
unfoldable pub sort_fields : List QField → List QField
unfolding insert_sorted
sort_fields [] = []
sort_fields (q ∷ qs) = insert_sorted q (sort_fields qs)

-- maps.Keys: each key of the map once.
unfoldable pub map_keys : List (QField × RField) → List QField
unfolding remove_duplicates
map_keys m = remove_duplicates (map (λ (e : QField × RField). e.0) m)

-- `m[key]` of a map of texts, the empty text for a missing key.
abbrev pub text_or_nil : Option Text → Text
text_or_nil none = []
text_or_nil (some t) = t

-- The name and the multiplier of a field of the map: an entry of `names`.
unfoldable pub derived : Host → Text → List (QField × RField) → QField → Text × Float64
derived host prefix m q = build_fq_name_and_multiplier host prefix (text_or_nil (lookup q m))

abbrev pub fields_or_nil : Option (List QField) → List QField
fields_or_nil none = []
fields_or_nil (some qs) = qs

-- The first loop: claimants[fqName] = append(claimants[fqName], qField)
unfoldable pub claim_names :
    (QField → Text) → List QField → List (Text × List QField) → List (Text × List QField)
claim_names name_of [] claimants = claimants
claim_names name_of (q ∷ q_fields) claimants =
    claim_names name_of q_fields
      (insert (name_of q) (fields_or_nil (lookup (name_of q) claimants) ++ q ∷ []) claimants)

-- The guards of the second loop: a name that is empty, reserved or claimed by several fields.
unfoldable pub is_skipped : List Text → List (Text × List QField) → Text → Bool
is_skipped reserved claimants fq_name =
    fq_name == []
    || contains reserved fq_name
    || ltb 1 (length (fields_or_nil (lookup fq_name claimants)))

abbrev pub metric_info : Text × Float64 → RField → MetricInfo
metric_info named r_field = record {
  desc = record { fq_name = named.0; help = r_field; labels = codes "uuid" ∷ [] };
  m_type = gauge_value;
  value_multiplier = named.1;
}

-- The second loop.
unfoldable pub build_infos :
    (QField → Text × Float64)
    → List (QField × RField)
    → List Text
    → List (Text × List QField)
    → List QField
    → List (QField × MetricInfo)
    → List (QField × MetricInfo)
unfolding is_skipped
build_infos named m reserved claimants [] result = result
build_infos named m reserved claimants (q ∷ q_fields) result =
    let info = metric_info (named q) (text_or_nil (lookup q m)) in
    build_infos named m reserved claimants q_fields
      (if is_skipped reserved claimants (named q).0 then result else insert q info result)

-- BuildQFieldToMetricInfoMap
unfoldable pub build_q_field_to_metric_info_map :
    Host → Text → List (QField × RField) → List Text → List (QField × MetricInfo)
unfolding build_infos claim_names sort_fields map_keys derived
build_q_field_to_metric_info_map host prefix m reserved =
    let q_fields = sort_fields (map_keys m) in
    let named = derived host prefix m in
    let claimants = claim_names (λ q. (named q).0) q_fields [] in
    build_infos named m reserved claimants q_fields []

-- BuildMetricInfo
unfoldable pub build_metric_info : Host → Text → RField → MetricInfo
build_metric_info host prefix r_field =
    metric_info (build_fq_name_and_multiplier host prefix r_field) r_field
