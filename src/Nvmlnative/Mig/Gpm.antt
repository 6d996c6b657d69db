-- ===== src/Nvmlnative/Mig/Gpm.antt =====
-- internal/nvmlnative/mig_nvml.go: gpmUtilization, which keeps one sample per GPU instance.
use nvidia_gpu_exporter.Collect.{Time}
use nvidia_gpu_exporter.Collect.Readings.{MigUtilization}
use nvidia_gpu_exporter.Common.{
  ltb, if◌then◌else◌, lookup, insert, Float64, Floats, ◌==◌, ℕ, ◌-◌, Bool, true, false, not, ◌||◌,
  Option, none, some, List, [], ◌∷◌, list_comparable, nat_comparable,
}
use nvidia_gpu_exporter.Nvmlnative.Backend.{GpmState, Backend, note, extras_failure}
use nvidia_gpu_exporter.Nvmlnative.Driver.{
  Return, is_success, is_lifecycle_error, sample_alloc, sample_free, sample_get, metrics_get,
}
use nvidia_gpu_exporter.Nvmlnative.Mig.{GpmAnswers, Scales, MigGroup}
use nvidia_gpu_exporter.Text.{Text, codes, join}

-- gpmMinWindow and gpmMaxWindow, in nanoseconds.
abbrev pub gpm_min_window : Time
gpm_min_window = 1000000000

abbrev pub gpm_max_window : Time
gpm_max_window = 600000000000

-- The ids of the metrics, in the order in which they are asked for.
abbrev pub gpm_metric_ids : List ℕ
gpm_metric_ids = 1 ∷ 2 ∷ 3 ∷ 5 ∷ 20 ∷ 21 ∷ []

abbrev pub no_utilization : MigUtilization
no_utilization = record {
  graphics_activity_ratio = none;
  sm_activity_ratio = none;
  sm_occupancy_ratio = none;
  tensor_activity_ratio = none;
  pcie_tx_bytes_per_second = none;
  pcie_rx_bytes_per_second = none;
}

-- delete(m, key): a map has each key once.
unfoldable pub delete : Text → List (Text × GpmState) → List (Text × GpmState)
delete key [] = []
delete key (entry ∷ gpm) = if entry.0 == key then gpm else entry ∷ delete key gpm

-- The values, whether the extras may go on, and the backend.
pub record Utilized : Type 0 where
  pub value : Option MigUtilization
  pub ok : Bool
  pub backend : Backend

-- `return nil, b.extrasFailure(…)`
unfoldable pub refused : Bool → Return → Backend → Utilized
refused acquired ret b =
    let failure = extras_failure acquired ret b in
    record { value = none; ok = failure.0; backend = failure.1 }

-- The switch on the id.
unfoldable pub set_metric : Scales → ℕ → Float64 → MigUtilization → MigUtilization
set_metric sc id value util =
    if id == 1
    then record util { graphics_activity_ratio = some (sc.of_percent value) }
    else if id == 2
    then record util { sm_activity_ratio = some (sc.of_percent value) }
    else if id == 3
    then record util { sm_occupancy_ratio = some (sc.of_percent value) }
    else if id == 5
    then record util { tensor_activity_ratio = some (sc.of_percent value) }
    else if id == 20
    then record util { pcie_tx_bytes_per_second = some (sc.of_mebi value) }
    else if id == 21
    then record util { pcie_rx_bytes_per_second = some (sc.of_mebi value) }
    else util

module _ (fl : Floats) (sc : Scales) (acquired : Bool) where
  -- The loop of gpmMetrics.
  unfoldable pub decode_metrics :
      (ℕ → Return × Float64) → List ℕ → MigUtilization → Backend → Utilized
  unfolding refused
  decode_metrics metrics [] util b = record { value = some util; ok = true; backend = b }
  decode_metrics metrics (id ∷ ids) util b =
      let metric = metrics id in
      let skipped = decode_metrics metrics ids util b in
      let decoded = decode_metrics metrics ids (set_metric sc id metric.1 util) b in
      if not (is_success metric.0)
      then if is_lifecycle_error metric.0 then refused acquired metric.0 b else skipped
      else if fl.is_nan metric.1 || fl.is_inf metric.1
      then skipped
      else decoded

  -- gpmMetrics
  unfoldable pub gpm_metrics : ℕ → ℕ → GpmAnswers → Backend → Utilized
  unfolding decode_metrics
  gpm_metrics prev cur a b =
      let asked = note (metrics_get prev cur) b in
      if not (is_success a.metrics.0)
      then refused acquired a.metrics.0 asked
      else decode_metrics a.metrics.1 gpm_metric_ids no_utilization asked

  -- The retained sample of the key, which is dropped if it is of another generation or too old.
  unfoldable pub retained : Text → Text → Time → Backend → Option GpmState × Backend
  unfolding delete
  retained key fingerprint now b = elim (lookup key b.gpm) [
    | none ↦ (none, b)
    | some state ↦
        if not (state.fingerprint == fingerprint) || ltb gpm_max_window (now - state.taken)
        then (none, record (note (sample_free state.sample) b) { gpm = delete key b.gpm })
        else (some state, b)
  ]

  -- The first sample of a key.
  unfoldable pub seed : Text → Text → GpmAnswers → Backend → Utilized
  seed key fingerprint a b =
      let state : GpmState = record {
        sample = a.alloc.1;
        taken = a.now;
        fingerprint = fingerprint;
        last = none;
      } in
      record { value = none; ok = true; backend = record b { gpm = insert key state b.gpm } }

  -- The values from the retained sample and the fresh one, which takes its place.
  unfoldable pub rotate : Text → GpmState → GpmAnswers → Backend → Utilized
  unfolding gpm_metrics
  rotate key state a b =
      let util = gpm_metrics state.sample a.alloc.1 a b in
      let rotated = record state { sample = a.alloc.1; taken = a.now; last = util.value } in
      let freed = note (sample_free state.sample) util.backend in
      if not util.ok
      then record { value = none; ok = false; backend = note (sample_free a.alloc.1) util.backend }
      else record {
        value = util.value;
        ok = true;
        backend = record freed { gpm = insert key rotated util.backend.gpm };
      }

  -- The fresh sample, and what is done with it.
  unfoldable pub take_sample : Text → Text → Option GpmState → GpmAnswers → Backend → Utilized
  unfolding refused seed rotate
  take_sample key fingerprint state a b =
      let allocated = note (sample_alloc a.alloc.1) b in
      let sampled = note (sample_get a.alloc.1) allocated in
      if not (is_success a.alloc.0)
      then refused acquired a.alloc.0 b
      else if not (is_success a.get)
      then refused acquired a.get (note (sample_free a.alloc.1) sampled)
      else elim state [ none ↦ seed key fingerprint a sampled | some s ↦ rotate key s a sampled ]

  -- gpmUtilization, from the retained sample on.
  unfoldable pub serve : Text → Text → GpmAnswers → Option GpmState × Backend → Utilized
  unfolding take_sample
  serve key fingerprint a found = elim found.0 [
    | none ↦ take_sample key fingerprint none a found.1
    | some state ↦
        if ltb (a.now - state.taken) gpm_min_window
        then record { value = state.last; ok = true; backend = found.1 }
        else take_sample key fingerprint (some state) a found.1
  ]

  -- gpmUtilization
  unfoldable pub gpm_utilization : Text → MigGroup → GpmAnswers → Backend → Utilized
  unfolding retained serve
  gpm_utilization key group a b =
      let fingerprint = join (codes ",") group.members in
      serve key fingerprint a (retained key fingerprint a.now b)
