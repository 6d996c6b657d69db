-- ===== src/Exporter/Render/Plain.antt =====
-- internal/exporter/exporter.go: the metrics that have no labels.
use nvidia_gpu_exporter.Common.{◌≡◌, refl, true, [], list_comparable, nat_comparable}
use nvidia_gpu_exporter.Exporter.Claims.{ExitCodeMetric}
use nvidia_gpu_exporter.Exporter.Descs.{Features, GpuExporter, new_exporter}
use nvidia_gpu_exporter.Exporter.Names.{Desc, Host}
use nvidia_gpu_exporter.Exporter.Names.Legal.{JoinsNames}
use nvidia_gpu_exporter.Exporter.Names.Valid.{
  IsName, IsPrefix, build_fq_name-IsName, IsName-of_checks,
}
use nvidia_gpu_exporter.Nvidiasmi.Resolve.{ResolvedFields}
use nvidia_gpu_exporter.Text.{Text, codes}

-- A metric name and no labels.
abbrev pub IsPlain : Desc → Type 0
IsPlain desc = (desc.labels ≡ []) × IsName desc.fq_name

-- What NewConstMetric is documented to do with such a description and no label values: it fails
-- only where the description is invalid or the number of values is not that of the labels.
abbrev pub AcceptsPlain : Host → Type 0
AcceptsPlain host =
    (desc : Desc) → desc.labels ≡ [] → IsName desc.fq_name → host.accepts desc [] ≡ true

abbrev pub HealthIsPlain : GpuExporter → Type 0
HealthIsPlain e =
    IsPlain e.failed_scrapes_desc
    × IsPlain e.exit_code_desc
    × IsPlain e.collect_success_desc
    × IsPlain e.collect_timestamp_desc
    × IsPlain e.collect_duration_desc

pub new_exporter-HealthIsPlain :
    (host : Host) (prefix : Text) (resolved : ResolvedFields) (features : Features)
    (m : ExitCodeMetric)
    → JoinsNames host
    → IsPrefix prefix
    → IsName m.name
    → HealthIsPlain (new_exporter host prefix resolved features m)
unfolding new_exporter
new_exporter-HealthIsPlain host prefix resolved features m joins begun named =
    let plain =
      λ (name : Text) (h : IsName name). build_fq_name-IsName host prefix name joins begun h in
    let failed = codes "failed_scrapes_total" in
    let succeeds = codes "last_collect_success" in
    let timestamp = codes "last_collect_success_timestamp_seconds" in
    let duration = codes "last_collect_duration_seconds" in
    (
      (refl, plain failed (IsName-of_checks failed refl refl)),
      (refl, plain m.name named),
      (refl, plain succeeds (IsName-of_checks succeeds refl refl)),
      (refl, plain timestamp (IsName-of_checks timestamp refl refl)),
      (refl, plain duration (IsName-of_checks duration refl refl)),
    )
