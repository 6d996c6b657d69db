-- ===== src/Nvmlnative/Extras/Metrics.antt =====
-- internal/nvmlnative/mig_nvml.go: the accounts of samples over gpmMetrics.
use nvidia_gpu_exporter.Collect.Readings.{MigUtilization}
use nvidia_gpu_exporter.Common.{
  if◌then◌else◌, Bool-cases, Float64, Floats, ℕ, ◌≡◌, refl, inl, inr, Bool, true, false, not, ◌||◌,
  List, [], ◌∷◌, list_comparable, nat_comparable,
}
use nvidia_gpu_exporter.Nvmlnative.Backend.{Backend, note, extras_failure}
use nvidia_gpu_exporter.Nvmlnative.Driver.{Return, is_success, is_lifecycle_error, metrics_get}
use nvidia_gpu_exporter.Nvmlnative.Extras.Samples.{Accounted, extras_failure-Accounted}
use nvidia_gpu_exporter.Nvmlnative.Mig.{GpmAnswers, Scales}
use nvidia_gpu_exporter.Nvmlnative.Mig.Gpm.{
  gpm_metric_ids, no_utilization, Utilized, refused, set_metric, decode_metrics, gpm_metrics,
}

-- A property of whichever branch is taken.
pub if_both :
    {A : Type 0} (P : A → Type 0) (c : Bool) (x y : A) → P x → P y → P (if c then x else y)
if_both P true x y h g = h
if_both P false x y h g = g

refused-kept :
    (acquired : Bool) (ret : Return) (b : Backend)
    → (refused acquired ret b).ok ≡ true
    → (refused acquired ret b).backend ≡ b
unfolding refused extras_failure
refused-kept acquired ret b h = elim (Bool-cases (is_lifecycle_error ret)) [
  | inl e ↦ (let no : false ≡ true = rw e at h in cc)
  | inr e ↦ rw e refl
]

abbrev pub AccountedBy : (ℕ → ℕ) → Utilized → Type 0
AccountedBy extra u = Accounted u.backend.gpm u.backend.calls extra

pub refused-Accounted :
    (acquired : Bool) (ret : Return) (b : Backend) (extra : ℕ → ℕ)
    → Accounted b.gpm b.calls extra
    → AccountedBy extra (refused acquired ret b)
unfolding refused
refused-Accounted acquired ret b extra a = extras_failure-Accounted acquired ret b extra a

module _ (fl : Floats) (sc : Scales) (acquired : Bool) where
  decode_metrics-Accounted :
      (metrics : ℕ → Return × Float64) (ids : List ℕ) (util : MigUtilization) (b : Backend)
      (extra : ℕ → ℕ)
      → Accounted b.gpm b.calls extra
      → AccountedBy extra (decode_metrics fl sc acquired metrics ids util b)
  unfolding decode_metrics
  decode_metrics-Accounted metrics [] util b extra a = a
  decode_metrics-Accounted metrics (id ∷ ids) util b extra a =
      let skipped = decode_metrics-Accounted metrics ids util b extra a in
      if_both (AccountedBy extra) (not (is_success (metrics id).0)) _ _
        (if_both (AccountedBy extra) (is_lifecycle_error (metrics id).0) _ _
          (refused-Accounted acquired (metrics id).0 b extra a) skipped)
        (if_both (AccountedBy extra) (fl.is_nan (metrics id).1 || fl.is_inf (metrics id).1) _ _
          skipped
          (decode_metrics-Accounted metrics ids (set_metric sc id (metrics id).1 util) b extra a))

  abbrev pub Kept : Backend → Utilized → Type 0
  Kept b u = u.ok ≡ true → u.backend ≡ b

  decode_metrics-Kept :
      (metrics : ℕ → Return × Float64) (ids : List ℕ) (util : MigUtilization) (b : Backend)
      → Kept b (decode_metrics fl sc acquired metrics ids util b)
  unfolding decode_metrics
  decode_metrics-Kept metrics [] util b = λ h. refl
  decode_metrics-Kept metrics (id ∷ ids) util b =
      let skipped = decode_metrics-Kept metrics ids util b in
      if_both (Kept b) (not (is_success (metrics id).0)) _ _
        (if_both (Kept b) (is_lifecycle_error (metrics id).0) _ _
          (refused-kept acquired (metrics id).0 b) skipped)
        (if_both (Kept b) (fl.is_nan (metrics id).1 || fl.is_inf (metrics id).1) _ _ skipped
          (decode_metrics-Kept metrics ids (set_metric sc id (metrics id).1 util) b))

  pub gpm_metrics-Accounted :
      (prev cur : ℕ) (a : GpmAnswers) (b : Backend) (extra : ℕ → ℕ)
      → Accounted b.gpm (metrics_get prev cur ∷ b.calls) extra
      → AccountedBy extra (gpm_metrics fl sc acquired prev cur a b)
  unfolding gpm_metrics
  gpm_metrics-Accounted prev cur a b extra acc =
      let asked = note (metrics_get prev cur) b in
      if_both (AccountedBy extra) (not (is_success a.metrics.0)) _ _
        (refused-Accounted acquired a.metrics.0 asked extra acc)
        (decode_metrics-Accounted a.metrics.1 gpm_metric_ids no_utilization asked extra acc)

  pub gpm_metrics-Kept :
      (prev cur : ℕ) (a : GpmAnswers) (b : Backend)
      → Kept (note (metrics_get prev cur) b) (gpm_metrics fl sc acquired prev cur a b)
  unfolding gpm_metrics
  gpm_metrics-Kept prev cur a b =
      let asked = note (metrics_get prev cur) b in
      if_both (Kept asked) (not (is_success a.metrics.0)) _ _
        (refused-kept acquired a.metrics.0 asked)
        (decode_metrics-Kept a.metrics.1 gpm_metric_ids no_utilization asked)
