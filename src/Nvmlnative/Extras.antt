-- ===== src/Nvmlnative/Extras.antt =====
-- internal/nvmlnative/backend_nvml.go: collectExtras, with the device loop and the counters; and
-- cudaVersionStr of format.go.
pub mod Samples
pub mod Retained
pub mod Metrics
pub mod Sampling
pub mod Scanned
pub mod Orderly
pub mod Operations
pub mod Windows
pub mod Lost
mod Examples
use nvidia_gpu_exporter.Collect.Readings.{PcieThroughput, EnergyCounter, Extras, no_extras}
use nvidia_gpu_exporter.Common.{
  if◌then◌else◌, Floats, contains, ℕ, ◌/◌, ◌%◌, Bool, true, false, not, ◌&&◌, ◌||◌, List, [], ◌∷◌,
  ◌++◌, list_comparable, nat_comparable,
}
use nvidia_gpu_exporter.Exporter.Render.{collect}
use nvidia_gpu_exporter.Nvidiasmi.ComputeApps.{normalize_uuid}
use nvidia_gpu_exporter.Nvmlnative.Backend.{GpmState, Backend, mark_lost, extras_failure}
use nvidia_gpu_exporter.Nvmlnative.Driver.{
  Return, function_not_found, is_success, is_not_supported, is_lifecycle_error, Answer, has,
  guarded, Call, sample_free,
}
use nvidia_gpu_exporter.Nvmlnative.Mig.{Device, Scales}
use nvidia_gpu_exporter.Nvmlnative.Mig.Activity.{collect_mig}
use nvidia_gpu_exporter.Nvmlnative.Mig.Scan.{Progress, failed_progress}
use nvidia_gpu_exporter.Text.{Text, codes, decimal}

-- CollectOptions
pub record CollectOptions : Type 0 where
  pub compute_apps : Bool
  pub pcie_throughput : Bool
  pub energy : Bool
  pub mig : Bool

-- What the driver answers in a cycle beside its devices.
pub record CycleAnswers : Type 0 where
  pub cuda_version : Answer ℕ
  pub device_count : Return
  pub devices : List Device

-- cudaVersionStr, of a version that is not negative.
unfoldable pub cuda_version_str : ℕ → Text
cuda_version_str version = decimal (version / 1000) ++ b'.' ∷ decimal (version % 1000 / 10)

-- dropOrphanGPMStates: the entries that are kept, and the calls.
unfoldable pub drop_orphans :
    List Text → List (Text × GpmState) → List Call → List (Text × GpmState) × List Call
drop_orphans seen [] calls = ([], calls)
drop_orphans seen (entry ∷ gpm) calls =
    let kept = drop_orphans seen gpm calls in
    let freed = drop_orphans seen gpm (sample_free entry.1.sample ∷ calls) in
    if contains seen entry.0 then (entry ∷ kept.0, kept.1) else freed

unfoldable pub drop_orphan_gpm_states : List Text → Backend → Backend
unfolding drop_orphans
drop_orphan_gpm_states seen b =
    let dropped = drop_orphans seen b.gpm b.calls in record b { gpm = dropped.0; calls = dropped.1 }

module _ (fl : Floats) (sc : Scales) (acquired : Bool) where
  -- collectEnergy
  unfoldable pub collect_energy : Text → Device → Progress → Progress
  unfolding failed_progress
  collect_energy uuid dev p =
      let energy =
        guarded p.backend.avail (codes "nvmlDeviceGetTotalEnergyConsumption") 0 dev.energy in
      let counter : EnergyCounter = record { uuid = uuid; joules = sc.of_milli energy.1 } in
      if is_success energy.0
      then record p {
        go_on = true;
        extras = record (p.extras) { energy = p.extras.energy ++ counter ∷ [] };
      }
      else if is_not_supported energy.0
      then record p { go_on = true }
      else failed_progress acquired energy.0 p

  -- collectPcie
  unfoldable pub collect_pcie : Text → Device → Progress → Progress
  unfolding failed_progress
  collect_pcie uuid dev p =
      let tx = guarded p.backend.avail (codes "nvmlDeviceGetPcieThroughput") 0 dev.pcie_tx in
      let rx = guarded p.backend.avail (codes "nvmlDeviceGetPcieThroughput") 0 dev.pcie_rx in
      let sample : PcieThroughput = record {
        uuid = uuid;
        tx_bytes_per_second = sc.of_kilo tx.1;
        rx_bytes_per_second = sc.of_kilo rx.1;
      } in
      if not (is_success tx.0)
      then failed_progress acquired tx.0 p
      else if dev.ended_between
      then record p { go_on = false }
      else if not (is_success rx.0)
      then failed_progress acquired rx.0 p
      else record p {
        go_on = true;
        extras = record (p.extras) { pcie = p.extras.pcie ++ sample ∷ [] };
      }

  -- One family of a device, where it is on and the ones before it went on.
  abbrev pub family : Bool → (Progress → Progress) → Progress → Progress
  family enabled collect p = if p.go_on && enabled then collect p else p

  -- collectDeviceExtras
  unfoldable pub collect_device_extras : CollectOptions → Device → Progress → Progress
  unfolding failed_progress collect_energy collect_pcie collect_mig
  collect_device_extras opts dev p =
      let uuid = guarded p.backend.avail (codes "nvmlDeviceGetUUID") [] dev.uuid in
      let id = normalize_uuid uuid.1 in
      let energy = family opts.energy (collect_energy id dev) p in
      let pcie = family opts.pcie_throughput (collect_pcie id dev) energy in
      let mig = family opts.mig (collect_mig fl sc acquired id dev) pcie in
      if not (is_success dev.handle)
      then failed_progress acquired dev.handle p
      else if not (is_success uuid.0)
      then failed_progress acquired uuid.0 p
      else mig

  -- The loop over the devices.
  unfoldable pub collect_devices : CollectOptions → List Device → Progress → Progress
  unfolding collect_device_extras
  collect_devices opts [] p = p
  collect_devices opts (dev ∷ devices) p =
      let next = collect_device_extras opts dev p in
      let rest = collect_devices opts devices next in
      if dev.ended_before then record p { go_on = false } else if not next.go_on then next else rest

  -- The devices, and behind a complete pass the samples of instances that disappeared.
  unfoldable pub collect_families :
      CollectOptions → CycleAnswers → Extras → Backend → Extras × Backend
  unfolding collect_devices drop_orphan_gpm_states extras_failure
  collect_families opts answers extras b =
      let start : Progress = record { go_on = true; extras = extras; seen = []; backend = b } in
      let done = collect_devices opts answers.devices start in
      if not (is_success answers.device_count)
      then (extras, (extras_failure acquired answers.device_count b).1)
      else if not done.go_on || not opts.mig
      then (done.extras, done.backend)
      else (done.extras, drop_orphan_gpm_states done.seen done.backend)

  -- collectExtras
  unfoldable pub collect_extras : CollectOptions → CycleAnswers → Backend → Extras × Backend
  unfolding collect_families mark_lost cuda_version_str
  collect_extras opts answers b =
      let last : Extras = record no_extras { cuda_version = b.last_cuda_version } in
      let version =
        if has b.avail (codes "nvmlSystemGetCudaDriverVersion")
        then answers.cuda_version
        else (function_not_found, 0) in
      let fresh = cuda_version_str version.1 in
      let read = is_success version.0 in
      let extras = if read then record last { cuda_version = fresh } else last in
      let b' = if read then record b { last_cuda_version = fresh } else b in
      if not b.initialized
      then (last, b)
      else if not read && is_lifecycle_error version.0
      then (last, mark_lost acquired b)
      else if not opts.energy && not opts.pcie_throughput && not opts.mig
      then (extras, b')
      else collect_families opts answers extras b'
