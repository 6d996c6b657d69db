-- ===== src/Nvmlnative/Extras/Lost.antt =====
-- internal/nvmlnative/mig_nvml.go: the samples that are in use when the driver is lost.
use nvidia_gpu_exporter.Collect.Readings.{MigUtilization}
use nvidia_gpu_exporter.Common.{
  if◌then◌else◌, Bool-cases, any, Float64, Floats, ℕ, ◌≡◌, refl, ap, inl, inr, Bool, true, false,
  not, ◌&&◌, ◌||◌, none, some, List, [], ◌∷◌, arith, list_comparable, nat_comparable,
}
use nvidia_gpu_exporter.Nvmlnative.Backend.{
  GpmState, Backend, note, free_calls, free_gpm_samples, tear_down, mark_lost, extras_failure,
}
use nvidia_gpu_exporter.Nvmlnative.Driver.{
  Return, success, uninitialized, invalid_argument, not_supported, no_permission, not_found,
  driver_not_loaded, timeout, function_not_found, gpu_is_lost, lib_rm_version_mismatch, deprecated,
  gpu_not_found, other_return, is_success, is_lifecycle_error, Call, shutdown_call, sample_alloc,
  sample_free, sample_get, metrics_get,
}
use nvidia_gpu_exporter.Nvmlnative.Extras.Metrics.{gpm_metrics-Kept}
use nvidia_gpu_exporter.Nvmlnative.Extras.Windows.{sampled}
use nvidia_gpu_exporter.Nvmlnative.Mig.{GpmAnswers, Scales}
use nvidia_gpu_exporter.Nvmlnative.Mig.Gpm.{
  gpm_metric_ids, no_utilization, Utilized, refused, set_metric, decode_metrics, gpm_metrics,
  rotate, take_sample,
}
use nvidia_gpu_exporter.Text.{Text}

-- Whether the driver says that it is lost: of the metrics as a whole, or of one of those asked for.
abbrev pub is_lost : GpmAnswers → Bool
is_lost a =
    is_lifecycle_error a.metrics.0
    || (is_success a.metrics.0 && any (λ id. is_lifecycle_error (a.metrics.1 id).0) gpm_metric_ids)

-- The shutdown, if the lock of the life cycle was acquired.
abbrev pub shutdown_calls : Bool → List Call → List Call
shutdown_calls true calls = shutdown_call ∷ calls
shutdown_calls false calls = calls

lifecycle-fails : (ret : Return) → is_lifecycle_error ret ≡ true → is_success ret ≡ false
unfolding is_lifecycle_error is_success
lifecycle-fails success h = cc
lifecycle-fails uninitialized h = refl
lifecycle-fails invalid_argument h = refl
lifecycle-fails not_supported h = refl
lifecycle-fails no_permission h = refl
lifecycle-fails not_found h = refl
lifecycle-fails driver_not_loaded h = refl
lifecycle-fails timeout h = refl
lifecycle-fails function_not_found h = refl
lifecycle-fails gpu_is_lost h = refl
lifecycle-fails lib_rm_version_mismatch h = refl
lifecycle-fails deprecated h = refl
lifecycle-fails gpu_not_found h = refl
lifecycle-fails (other_return n) h = refl

abbrev torn_down : Bool → Backend → Utilized
torn_down acquired b = record { value = none; ok = false; backend = tear_down acquired b }

refused-lost :
    (acquired : Bool) (ret : Return) (b : Backend)
    → b.initialized ≡ true
    → is_lifecycle_error ret ≡ true
    → refused acquired ret b ≡ torn_down acquired b
unfolding refused extras_failure mark_lost
refused-lost acquired ret b up lost = rw (lost, up) refl

refused-ok :
    (acquired : Bool) (ret : Return) (b : Backend)
    → is_lifecycle_error ret ≡ false
    → (refused acquired ret b).ok ≡ true
unfolding refused extras_failure
refused-ok acquired ret b calm = rw calm refl

module _ (fl : Floats) (sc : Scales) (acquired : Bool) where
  decode_metrics-lost :
      (metrics : ℕ → Return × Float64) (ids : List ℕ) (util : MigUtilization) (b : Backend)
      → b.initialized ≡ true
      → any (λ id. is_lifecycle_error (metrics id).0) ids ≡ true
      → decode_metrics fl sc acquired metrics ids util b ≡ torn_down acquired b
  unfolding decode_metrics
  decode_metrics-lost metrics [] util b up lost = cc
  decode_metrics-lost metrics (id ∷ ids) util b up lost =
      elim (Bool-cases (is_lifecycle_error (metrics id).0)) [
        | inl e ↦
            rw (lifecycle-fails (metrics id).0 e, e) (refused-lost acquired (metrics id).0 b up e)
        | inr e ↦
            let skipped = decode_metrics-lost metrics ids util b up (ground arith) in
            let decoded =
              decode_metrics-lost metrics ids (set_metric sc id (metrics id).1 util) b up
                (ground arith) in
            elim (Bool-cases (is_success (metrics id).0)) [
              | inr s ↦ rw (s, e) skipped
              | inl s ↦ elim (Bool-cases (fl.is_nan (metrics id).1 || fl.is_inf (metrics id).1)) [
                | inl n ↦ rw (s, n) skipped
                | inr n ↦ rw (s, n) decoded
              ]
            ]
      ]

  decode_metrics-ok :
      (metrics : ℕ → Return × Float64) (ids : List ℕ) (util : MigUtilization) (b : Backend)
      → any (λ id. is_lifecycle_error (metrics id).0) ids ≡ false
      → (decode_metrics fl sc acquired metrics ids util b).ok ≡ true
  unfolding decode_metrics
  decode_metrics-ok metrics [] util b calm = refl
  decode_metrics-ok metrics (id ∷ ids) util b calm =
      let this_one : is_lifecycle_error (metrics id).0 ≡ false = ground arith in
      let skipped = decode_metrics-ok metrics ids util b (ground arith) in
      let decoded =
        decode_metrics-ok metrics ids (set_metric sc id (metrics id).1 util) b (ground arith) in
      elim (Bool-cases (is_success (metrics id).0)) [
        | inr s ↦ rw (s, this_one) skipped
        | inl s ↦ elim (Bool-cases (fl.is_nan (metrics id).1 || fl.is_inf (metrics id).1)) [
          | inl n ↦ rw (s, n) skipped
          | inr n ↦ rw (s, n) decoded
        ]
      ]

  gpm_metrics-lost :
      (prev cur : ℕ) (a : GpmAnswers) (b : Backend)
      → b.initialized ≡ true
      → is_lost a ≡ true
      → gpm_metrics fl sc acquired prev cur a b ≡ torn_down acquired (note (metrics_get prev cur) b)
  unfolding gpm_metrics
  gpm_metrics-lost prev cur a b up lost =
      let asked = note (metrics_get prev cur) b in
      elim (Bool-cases (is_lifecycle_error a.metrics.0)) [
        | inl e ↦ rw (lifecycle-fails a.metrics.0 e) (refused-lost acquired a.metrics.0 asked up e)
        | inr e ↦
            let succeeded : is_success a.metrics.0 ≡ true = ground arith in
            rw succeeded (
              decode_metrics-lost a.metrics.1 gpm_metric_ids no_utilization asked up (ground arith))
      ]

  gpm_metrics-ok :
      (prev cur : ℕ) (a : GpmAnswers) (b : Backend)
      → is_lost a ≡ false
      → (gpm_metrics fl sc acquired prev cur a b).ok ≡ true
  unfolding gpm_metrics
  gpm_metrics-ok prev cur a b calm =
      let asked = note (metrics_get prev cur) b in
      elim (Bool-cases (is_success a.metrics.0)) [
        | inl s ↦
            rw s (decode_metrics-ok a.metrics.1 gpm_metric_ids no_utilization asked (ground arith))
        | inr s ↦ rw s (refused-ok acquired a.metrics.0 asked (ground arith))
      ]

  torn_down-calls :
      (b : Backend)
      → (tear_down acquired b).calls ≡ shutdown_calls acquired (free_calls b.gpm b.calls)
  unfolding tear_down free_gpm_samples
  torn_down-calls b = elim (Bool-cases acquired) [ inl e ↦ rw e refl | inr e ↦ rw e refl ]

  -- Where a fresh sample was taken beside a retained one of a driver that was not lost, the metrics
  -- are asked of the two, in this order. If the driver is lost then, by its answer for all metrics
  -- or for any one of those asked for, the retained samples are freed and NVML is shut down if the
  -- lock of the life cycle is acquired; the fresh sample is freed only behind that, and the extras
  -- do not go on. Otherwise the older sample is freed, nothing is shut down, and the extras go on.
  pub take_sample-calls :
      (key fingerprint : Text) (state : GpmState) (a : GpmAnswers) (b : Backend)
      → b.initialized ≡ true
      → is_success a.alloc.0 ≡ true
      → is_success a.get ≡ true
      → ((take_sample fl sc acquired key fingerprint (some state) a b).ok ≡ not (is_lost a))
        × ((take_sample fl sc acquired key fingerprint (some state) a b).backend.calls ≡ (
            if is_lost a
            then sample_free a.alloc.1
              ∷ shutdown_calls acquired (
                  free_calls b.gpm (
                    metrics_get state.sample a.alloc.1
                    ∷ sample_get a.alloc.1
                    ∷ sample_alloc a.alloc.1
                    ∷ b.calls))
            else sample_free state.sample
              ∷ metrics_get state.sample a.alloc.1
              ∷ sample_get a.alloc.1
              ∷ sample_alloc a.alloc.1
              ∷ b.calls))
  unfolding take_sample rotate
  take_sample-calls key fingerprint state a b up allocated sampled =
      let fresh = a.alloc.1 in
      let after = note (sample_get fresh) (note (sample_alloc fresh) b) in
      elim (Bool-cases (is_lost a)) [
        | inl lost ↦
            rw (allocated, sampled, lost, gpm_metrics-lost state.sample fresh a after up lost)
              (
                refl,
                ap (◌∷◌ (sample_free fresh))
                    (torn_down-calls (note (metrics_get state.sample fresh) after)),
              )
        | inr calm ↦
            let ok = gpm_metrics-ok state.sample fresh a after calm in
            let same = gpm_metrics-Kept fl sc acquired state.sample fresh a after ok in
            rw (allocated, sampled, calm, ok)
              (refl, ap (λ (u : Backend). sample_free state.sample ∷ u.calls) same)
      ]
