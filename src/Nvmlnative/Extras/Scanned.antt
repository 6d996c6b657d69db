-- ===== src/Nvmlnative/Extras/Scanned.antt =====
-- internal/nvmlnative/mig_nvml.go: the enumeration of MIG devices leaves the samples in order.
use nvidia_gpu_exporter.Collect.Readings.{MigMemory}
use nvidia_gpu_exporter.Common.{
  if◌then◌else◌, ℕ, zero, suc, ◌+◌, Bool, not, ◌||◌, List, [], list_comparable, nat_comparable,
}
use nvidia_gpu_exporter.Nvmlnative.Driver.{
  Return, is_success, is_lifecycle_error, first_error, Answer, guarded,
}
use nvidia_gpu_exporter.Nvmlnative.Extras.Metrics.{if_both}
use nvidia_gpu_exporter.Nvmlnative.Extras.Samples.{nothing, IsBalanced, extras_failure-Accounted}
use nvidia_gpu_exporter.Nvmlnative.Mig.{MigDevice, Device, MigGroup}
use nvidia_gpu_exporter.Nvmlnative.Mig.Scan.{
  Progress, MigScan, failed_progress, add_instance, scan_device, is_empty_slot, scan_slots,
  enumerate_mig,
}
use nvidia_gpu_exporter.Text.{Text, codes}

pub record Balanced (p : Progress) : Type 0 where
  pub balanced : IsBalanced p.backend

pub failed_progress-Balanced :
    (acquired : Bool) (ret : Return) (p : Progress)
    → Balanced p
    → Balanced (failed_progress acquired ret p)
unfolding failed_progress
failed_progress-Balanced acquired ret p h = record {
  balanced = extras_failure-Accounted acquired ret p.backend nothing h.balanced;
}

record BalancedScan (scan : MigScan) : Type 0 where
  progress : Balanced scan.progress

record BalancedGroups (found : List MigGroup × Progress) : Type 0 where
  progress : Balanced found.1

module _ (acquired : Bool) where
  add_instance-Balanced :
      (parent_uuid : Text) (mig : MigDevice) (uuid : Text) (gi ci : ℕ) (memory : Answer MigMemory)
      (scan : MigScan)
      → BalancedScan scan
      → BalancedScan (add_instance acquired parent_uuid mig uuid gi ci memory scan)
  unfolding add_instance
  add_instance-Balanced parent_uuid mig uuid gi ci memory scan h =
      if_both BalancedScan (is_lifecycle_error memory.0) _ _
        (record { progress = failed_progress-Balanced acquired memory.0 scan.progress h.progress })
        (record { progress = record { balanced = h.progress.balanced } })

  scan_device-Balanced :
      (parent_uuid : Text) (mig : MigDevice) (scan : MigScan)
      → BalancedScan scan
      → BalancedScan (scan_device acquired parent_uuid mig scan)
  unfolding scan_device
  scan_device-Balanced parent_uuid mig scan h =
      let refused : (ret : Return)
          → BalancedScan (record scan { progress = failed_progress acquired ret scan.progress }) =
        λ ret. record {
          progress = failed_progress-Balanced acquired ret scan.progress h.progress;
        } in
      let avail = scan.progress.backend.avail in
      let uuid = guarded avail (codes "nvmlDeviceGetUUID") [] mig.uuid in
      let gi = guarded avail (codes "nvmlDeviceGetGpuInstanceId") 0 mig.gpu_instance_id in
      let ci = guarded avail (codes "nvmlDeviceGetComputeInstanceId") 0 mig.compute_instance_id in
      let name = guarded avail (codes "nvmlDeviceGetName") [] mig.name in
      let memory = guarded avail (codes "nvmlDeviceGetMemoryInfo_v2") mig.memory.1 mig.memory in
      if_both BalancedScan (not (is_success uuid.0)) _ _ (refused uuid.0) (
        if_both BalancedScan (not (is_success gi.0) || not (is_success ci.0)) _ _
          (refused (first_error gi.0 ci.0))
          (if_both BalancedScan (is_lifecycle_error name.0) _ _ (refused name.0)
            (add_instance-Balanced parent_uuid mig uuid.1 gi.1 ci.1 memory scan h)))

  scan_slots-Balanced :
      (parent_uuid : Text) (slot : ℕ → Answer MigDevice) (idx more : ℕ) (scan : MigScan)
      → BalancedScan scan
      → BalancedScan (scan_slots acquired parent_uuid slot idx more scan)
  unfolding scan_slots
  scan_slots-Balanced parent_uuid slot idx zero scan h = h
  scan_slots-Balanced parent_uuid slot idx (suc more) scan h =
      let device =
        guarded scan.progress.backend.avail (codes "nvmlDeviceGetMigDeviceHandleByIndex")
          (slot idx).1 (slot idx) in
      let next : MigScan =
        if is_empty_slot acquired device.0
        then scan
        else if not (is_success device.0)
        then record scan { progress = failed_progress acquired device.0 scan.progress }
        else scan_device acquired parent_uuid device.1 scan in
      let balanced : BalancedScan next =
        if_both BalancedScan (is_empty_slot acquired device.0) _ _ h (
          if_both BalancedScan (not (is_success device.0)) _ _
            (record {
              progress = failed_progress-Balanced acquired device.0 scan.progress h.progress;
            })
            (scan_device-Balanced parent_uuid device.1 scan h)) in
      if_both BalancedScan next.progress.go_on _ _
        (scan_slots-Balanced parent_uuid slot (idx + 1) more next balanced) balanced

  pub enumerate_mig-Balanced :
      (parent_uuid : Text) (dev : Device) (p : Progress)
      → Balanced p
      → Balanced (enumerate_mig acquired parent_uuid dev p).1
  unfolding enumerate_mig
  enumerate_mig-Balanced parent_uuid dev p h =
      let max_mig =
        guarded p.backend.avail (codes "nvmlDeviceGetMaxMigDeviceCount") 0 dev.max_mig in
      let scan =
        scan_slots acquired parent_uuid dev.mig_device 0 max_mig.1
          (record { by_gi = []; progress = p }) in
      let scanned =
        scan_slots-Balanced parent_uuid dev.mig_device 0 max_mig.1
          (record { by_gi = []; progress = p }) (record { progress = h }) in
      let both : BalancedGroups (enumerate_mig acquired parent_uuid dev p) =
        if_both BalancedGroups (not (is_success max_mig.0)) _ _
          (record { progress = failed_progress-Balanced acquired max_mig.0 p h })
          (if_both BalancedGroups (not scan.progress.go_on) _ _
            (record { progress = scanned.progress }) (record { progress = scanned.progress })) in
      both.progress
