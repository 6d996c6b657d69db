-- ===== src/Nvmlnative/Extras/Orderly.antt =====
-- internal/nvmlnative: whatever the driver answers, the samples that it handed out are freed once.
use nvidia_gpu_exporter.Collect.Readings.{MigUtilization, Extras, no_extras}
use nvidia_gpu_exporter.Common.{
  if◌then◌else◌, length, insert, Floats, ◌==◌, ℕ, Bool, true, false, not, ◌&&◌, ◌||◌, Option, List,
  [], ◌∷◌, list_comparable, nat_comparable,
}
use nvidia_gpu_exporter.Exporter.Render.{collect}
use nvidia_gpu_exporter.Nvidiasmi.ComputeApps.{normalize_uuid}
use nvidia_gpu_exporter.Nvmlnative.Backend.{Backend}
use nvidia_gpu_exporter.Nvmlnative.Driver.{
  function_not_found, is_success, is_not_supported, is_lifecycle_error, has, guarded,
}
use nvidia_gpu_exporter.Nvmlnative.Extras.{
  CollectOptions, CycleAnswers, cuda_version_str, collect_energy, collect_pcie, family,
  collect_device_extras, collect_devices, collect_families, collect_extras,
}
use nvidia_gpu_exporter.Nvmlnative.Extras.Metrics.{if_both}
use nvidia_gpu_exporter.Nvmlnative.Extras.Retained.{drop_orphan_gpm_states-IsBalanced}
use nvidia_gpu_exporter.Nvmlnative.Extras.Samples.{
  nothing, IsBalanced, mark_lost-Accounted, extras_failure-Accounted,
}
use nvidia_gpu_exporter.Nvmlnative.Extras.Sampling.{gpm_utilization-IsBalanced}
use nvidia_gpu_exporter.Nvmlnative.Extras.Scanned.{
  Balanced, failed_progress-Balanced, enumerate_mig-Balanced,
}
use nvidia_gpu_exporter.Nvmlnative.Mig.{GpmAnswers, Device, Scales, gi_key, MigGroup}
use nvidia_gpu_exporter.Nvmlnative.Mig.Activity.{
  gpm_available, mark_seen, utilize, collect_mig_utilization, collect_mig,
}
use nvidia_gpu_exporter.Nvmlnative.Mig.Gpm.{gpm_utilization}
use nvidia_gpu_exporter.Nvmlnative.Mig.Scan.{Progress, enumerate_mig}
use nvidia_gpu_exporter.Text.{Text, codes, decimal}

record BalancedExtras (found : Extras × Backend) : Type 0 where
  balanced : IsBalanced found.1

record BalancedUtilization (found : Bool × (List (Text × Option MigUtilization) × Backend))
    : Type 0 where
  balanced : IsBalanced found.1.1

module _ (fl : Floats) (sc : Scales) (acquired : Bool) where
  utilize-IsBalanced :
      (parent_uuid : Text) (gpm : ℕ → GpmAnswers) (groups : List MigGroup)
      (util_by_gi : List (Text × Option MigUtilization)) (b : Backend)
      → IsBalanced b
      → BalancedUtilization (utilize fl sc acquired parent_uuid gpm groups util_by_gi b)
  unfolding utilize
  utilize-IsBalanced parent_uuid gpm [] util_by_gi b h = record { balanced = h }
  utilize-IsBalanced parent_uuid gpm (group ∷ groups) util_by_gi b h =
      let key = gi_key parent_uuid group.gi in
      let util = gpm_utilization fl sc acquired key group (gpm group.gi) b in
      let balanced = gpm_utilization-IsBalanced fl sc acquired key group (gpm group.gi) b h in
      if_both BalancedUtilization util.ok _ _
        (utilize-IsBalanced parent_uuid gpm groups (insert (decimal group.gi) util.value util_by_gi)
          util.backend balanced)
        (record { balanced = balanced })

  collect_mig_utilization-Balanced :
      (parent_uuid : Text) (dev : Device) (groups : List MigGroup) (p : Progress)
      → Balanced p
      → Balanced (collect_mig_utilization fl sc acquired parent_uuid dev groups p)
  unfolding collect_mig_utilization
  collect_mig_utilization-Balanced parent_uuid dev groups p h =
      let support =
        guarded p.backend.avail (codes "nvmlGpmQueryDeviceSupport") false dev.gpm_support in
      let utilized = utilize fl sc acquired parent_uuid dev.gpm groups [] p.backend in
      let after = utilize-IsBalanced parent_uuid dev.gpm groups [] p.backend h.balanced in
      if_both Balanced (is_lifecycle_error support.0) _ _
        (failed_progress-Balanced acquired support.0 p h)
        (if_both Balanced (not (is_success support.0) || not support.1) _ _
          (record { balanced = h.balanced })
          (if_both Balanced (not utilized.0) _ _ (record { balanced = after.balanced })
            (record { balanced = after.balanced })))

  collect_mig-Balanced :
      (parent_uuid : Text) (dev : Device) (p : Progress)
      → Balanced p
      → Balanced (collect_mig fl sc acquired parent_uuid dev p)
  unfolding collect_mig
  collect_mig-Balanced parent_uuid dev p h =
      let mode = guarded p.backend.avail (codes "nvmlDeviceGetMigMode") false dev.mig_mode in
      let found = enumerate_mig acquired parent_uuid dev p in
      let scanned = enumerate_mig-Balanced acquired parent_uuid dev p h in
      let marked : Progress = record (found.1) {
        seen = mark_seen parent_uuid found.0 found.1.seen;
      } in
      if_both Balanced (is_not_supported mode.0) _ _ (record { balanced = h.balanced })
        (if_both Balanced (not (is_success mode.0)) _ _
          (failed_progress-Balanced acquired mode.0 p h)
          (if_both Balanced (not mode.1) _ _ (record { balanced = h.balanced })
            (if_both Balanced (not found.1.go_on || length found.0 == 0) _ _ scanned (
              if_both Balanced (not (gpm_available p.backend.avail)) _ _
                (record { balanced = scanned.balanced })
                (collect_mig_utilization-Balanced parent_uuid dev found.0 marked
                  (record { balanced = scanned.balanced }))))))

  collect_energy-Balanced :
      (uuid : Text) (dev : Device) (p : Progress)
      → Balanced p
      → Balanced (collect_energy fl sc acquired uuid dev p)
  unfolding collect_energy
  collect_energy-Balanced uuid dev p h =
      let energy =
        guarded p.backend.avail (codes "nvmlDeviceGetTotalEnergyConsumption") 0 dev.energy in
      if_both Balanced (is_success energy.0) _ _ (record { balanced = h.balanced })
        (if_both Balanced (is_not_supported energy.0) _ _ (record { balanced = h.balanced })
          (failed_progress-Balanced acquired energy.0 p h))

  collect_pcie-Balanced :
      (uuid : Text) (dev : Device) (p : Progress)
      → Balanced p
      → Balanced (collect_pcie fl sc acquired uuid dev p)
  unfolding collect_pcie
  collect_pcie-Balanced uuid dev p h =
      let tx = guarded p.backend.avail (codes "nvmlDeviceGetPcieThroughput") 0 dev.pcie_tx in
      let rx = guarded p.backend.avail (codes "nvmlDeviceGetPcieThroughput") 0 dev.pcie_rx in
      if_both Balanced (not (is_success tx.0)) _ _ (failed_progress-Balanced acquired tx.0 p h) (
        if_both Balanced dev.ended_between _ _ (record { balanced = h.balanced })
          (if_both Balanced (not (is_success rx.0)) _ _ (failed_progress-Balanced acquired rx.0 p h)
            (record { balanced = h.balanced })))

  family-Balanced :
      (enabled : Bool) (collect : Progress → Progress) (p : Progress)
      → ((q : Progress) → Balanced q → Balanced (collect q))
      → Balanced p
      → Balanced (family fl sc acquired enabled collect p)
  family-Balanced enabled collect p f h = if_both Balanced (p.go_on && enabled) _ _ (f p h) h

  collect_device_extras-Balanced :
      (opts : CollectOptions) (dev : Device) (p : Progress)
      → Balanced p
      → Balanced (collect_device_extras fl sc acquired opts dev p)
  unfolding collect_device_extras
  collect_device_extras-Balanced opts dev p h =
      let uuid = guarded p.backend.avail (codes "nvmlDeviceGetUUID") [] dev.uuid in
      let id = normalize_uuid uuid.1 in
      if_both Balanced (not (is_success dev.handle)) _ _
        (failed_progress-Balanced acquired dev.handle p h)
        (if_both Balanced (not (is_success uuid.0)) _ _
          (failed_progress-Balanced acquired uuid.0 p h)
          (family-Balanced opts.mig _ _ (collect_mig-Balanced id dev) (
            family-Balanced opts.pcie_throughput _ _ (collect_pcie-Balanced id dev)
              (family-Balanced opts.energy _ p (collect_energy-Balanced id dev) h))))

  collect_devices-Balanced :
      (opts : CollectOptions) (devices : List Device) (p : Progress)
      → Balanced p
      → Balanced (collect_devices fl sc acquired opts devices p)
  unfolding collect_devices
  collect_devices-Balanced opts [] p h = h
  collect_devices-Balanced opts (dev ∷ devices) p h =
      let next = collect_device_extras fl sc acquired opts dev p in
      let balanced = collect_device_extras-Balanced opts dev p h in
      if_both Balanced dev.ended_before _ _ (record { balanced = h.balanced })
        (if_both Balanced (not next.go_on) _ _ balanced
          (collect_devices-Balanced opts devices next balanced))

  collect_families-IsBalanced :
      (opts : CollectOptions) (answers : CycleAnswers) (extras : Extras) (b : Backend)
      → IsBalanced b
      → BalancedExtras (collect_families fl sc acquired opts answers extras b)
  unfolding collect_families
  collect_families-IsBalanced opts answers extras b h =
      let start : Progress = record { go_on = true; extras = extras; seen = []; backend = b } in
      let done = collect_devices fl sc acquired opts answers.devices start in
      let after =
        (collect_devices-Balanced opts answers.devices start (record { balanced = h })).balanced in
      if_both BalancedExtras (not (is_success answers.device_count)) _ _
        (record { balanced = extras_failure-Accounted acquired answers.device_count b nothing h })
        (if_both BalancedExtras (not done.go_on || not opts.mig) _ _ (record { balanced = after })
          (record { balanced = drop_orphan_gpm_states-IsBalanced done.seen done.backend after }))

  collect_extras-BalancedExtras :
      (opts : CollectOptions) (answers : CycleAnswers) (b : Backend)
      → IsBalanced b
      → BalancedExtras (collect_extras fl sc acquired opts answers b)
  unfolding collect_extras
  collect_extras-BalancedExtras opts answers b h =
      let version =
        if has b.avail (codes "nvmlSystemGetCudaDriverVersion")
        then answers.cuda_version
        else (function_not_found, 0) in
      let fresh = cuda_version_str version.1 in
      let read = is_success version.0 in
      let last : Extras = record no_extras { cuda_version = b.last_cuda_version } in
      let extras : Extras = if read then record last { cuda_version = fresh } else last in
      let b' : Backend = if read then record b { last_cuda_version = fresh } else b in
      let same : IsBalanced b' =
        if_both IsBalanced read (record b { last_cuda_version = fresh }) b h h in
      if_both BalancedExtras (not b.initialized) _ _ (record { balanced = h })
        (if_both BalancedExtras (not read && is_lifecycle_error version.0) _ _
          (record { balanced = mark_lost-Accounted acquired b nothing h })
          (if_both BalancedExtras (not opts.energy && not opts.pcie_throughput && not opts.mig) _ _
            (record { balanced = same }) (collect_families-IsBalanced opts answers extras b' same)))

  pub collect_extras-IsBalanced :
      (opts : CollectOptions) (answers : CycleAnswers) (b : Backend)
      → IsBalanced b
      → IsBalanced (collect_extras fl sc acquired opts answers b).1
  collect_extras-IsBalanced opts answers b h =
      (collect_extras-BalancedExtras opts answers b h).balanced
