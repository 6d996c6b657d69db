-- ===== src/Nvmlnative/Mig/Scan.antt =====
-- internal/nvmlnative/mig_nvml.go: enumerateMIG, collectMIGUtilization and collectMIG.
use nvidia_gpu_exporter.Collect.Readings.{MigMemory, MigInstance, Extras}
use nvidia_gpu_exporter.Common.{
  leb, if◌then◌else◌, lookup, insert, ◌==◌, ℕ, zero, suc, ◌+◌, Bool, true, false, not, ◌||◌, Option,
  none, some, List, [], ◌∷◌, ◌++◌, list_comparable, nat_comparable,
}
use nvidia_gpu_exporter.Exporter.Claims.{sort_fields}
use nvidia_gpu_exporter.Nvmlnative.Backend.{Backend, extras_failure}
use nvidia_gpu_exporter.Nvmlnative.Driver.{
  Return, invalid_argument, not_found, is_success, is_lifecycle_error, first_error, Answer, guarded,
}
use nvidia_gpu_exporter.Nvmlnative.Mig.{MigDevice, Device, MigGroup}
use nvidia_gpu_exporter.Text.{Text, codes, to_lower, trim_space, cut_prefix, trim_prefix, decimal}

-- migProfile: the part of the name behind " MIG ".
unfoldable pub after_mig : Text → Option Text
after_mig [] = none
after_mig (c ∷ s) = elim (cut_prefix (codes " MIG ") (c ∷ s)) [
  | some profile ↦ some profile
  | none ↦ after_mig s
]

unfoldable pub mig_profile : Answer Text → Text
unfolding after_mig
mig_profile name = if not (is_success name.0) then codes "[N/A]" else elim (after_mig name.1) [
  | none ↦ name.1
  | some profile ↦ if profile == [] then name.1 else profile
]

-- normalizeMIGUUID
unfoldable pub normalize_mig_uuid : Text → Text
normalize_mig_uuid raw = trim_prefix (to_lower (trim_space raw)) (codes "mig-")

-- The extras, the GPU instances that were seen, and whether the extras may go on.
pub record Progress : Type 0 where
  pub go_on : Bool
  pub extras : Extras
  pub seen : List Text
  pub backend : Backend

-- The groups by the id of their GPU instance, and what stands in Progress.
pub record MigScan : Type 0 where
  pub by_gi : List (ℕ × List Text)
  pub progress : Progress

module _ (acquired : Bool) where
  -- extrasFailure
  unfoldable pub failed_progress : Return → Progress → Progress
  failed_progress ret p =
      let failure = extras_failure acquired ret p.backend in
      record p { go_on = failure.0; backend = failure.1 }

  -- A device that could be read, up to its memory.
  unfoldable pub add_instance :
      Text → MigDevice → Text → ℕ → ℕ → Answer MigMemory → MigScan → MigScan
  unfolding failed_progress
  add_instance parent_uuid mig uuid gi ci memory scan =
      let p = scan.progress in
      let profile = mig_profile (guarded p.backend.avail (codes "nvmlDeviceGetName") [] mig.name) in
      let instance_of : MigInstance = record {
        parent_uuid = parent_uuid;
        uuid = normalize_mig_uuid uuid;
        gpu_instance_id = decimal gi;
        compute_instance_id = decimal ci;
        profile = profile;
        memory = if is_success memory.0 then some memory.1 else none;
        utilization = none;
      } in
      let member = instance_of.uuid ++ b':' ∷ (profile ++ b':' ∷ instance_of.compute_instance_id) in
      let members : List Text = elim (lookup gi scan.by_gi) [ none ↦ [] | some ms ↦ ms ] in
      if is_lifecycle_error memory.0
      then record scan { progress = failed_progress memory.0 p }
      else record {
        by_gi = insert gi (members ++ member ∷ []) scan.by_gi;
        progress = record p {
          extras = record (p.extras) { mig = p.extras.mig ++ instance_of ∷ [] };
        };
      }

  -- One round of the loop, on a slot that has a device.
  unfoldable pub scan_device : Text → MigDevice → MigScan → MigScan
  unfolding failed_progress add_instance
  scan_device parent_uuid mig scan =
      let p = scan.progress in
      let avail = p.backend.avail in
      let uuid = guarded avail (codes "nvmlDeviceGetUUID") [] mig.uuid in
      let gi = guarded avail (codes "nvmlDeviceGetGpuInstanceId") 0 mig.gpu_instance_id in
      let ci = guarded avail (codes "nvmlDeviceGetComputeInstanceId") 0 mig.compute_instance_id in
      let name = guarded avail (codes "nvmlDeviceGetName") [] mig.name in
      let memory = guarded avail (codes "nvmlDeviceGetMemoryInfo_v2") mig.memory.1 mig.memory in
      if not (is_success uuid.0)
      then record scan { progress = failed_progress uuid.0 p }
      else if not (is_success gi.0) || not (is_success ci.0)
      then record scan { progress = failed_progress (first_error gi.0 ci.0) p }
      else if is_lifecycle_error name.0
      then record scan { progress = failed_progress name.0 p }
      else add_instance parent_uuid mig uuid.1 gi.1 ci.1 memory scan

  unfoldable pub is_empty_slot : Return → Bool
  is_empty_slot not_found = true
  is_empty_slot invalid_argument = true
  is_empty_slot _ = false

  -- The loop of enumerateMIG over the slots from `idx` on.
  unfoldable pub scan_slots : Text → (ℕ → Answer MigDevice) → ℕ → ℕ → MigScan → MigScan
  unfolding scan_device is_empty_slot failed_progress
  scan_slots parent_uuid slot idx zero scan = scan
  scan_slots parent_uuid slot idx (suc more) scan =
      let device =
        guarded scan.progress.backend.avail (codes "nvmlDeviceGetMigDeviceHandleByIndex")
          (slot idx).1 (slot idx) in
      let next =
        if is_empty_slot device.0
        then scan
        else if not (is_success device.0)
        then record scan { progress = failed_progress device.0 scan.progress }
        else scan_device parent_uuid device.1 scan in
      let rest = scan_slots parent_uuid slot (idx + 1) more next in
      if next.progress.go_on then rest else next

  unfoldable pub insert_group : MigGroup → List MigGroup → List MigGroup
  insert_group g [] = g ∷ []
  insert_group g (h ∷ groups) =
      let later = insert_group g groups in if leb g.gi h.gi then g ∷ h ∷ groups else h ∷ later

  -- The groups in the order of their ids, each with its members sorted.
  unfoldable pub sort_groups : List (ℕ × List Text) → List MigGroup
  unfolding insert_group
  sort_groups [] = []
  sort_groups ((gi, members) ∷ by_gi) =
      insert_group (record { gi = gi; members = sort_fields members }) (sort_groups by_gi)

  -- enumerateMIG: the groups behind it, none where the loop is left early.
  unfoldable pub enumerate_mig : Text → Device → Progress → List MigGroup × Progress
  unfolding scan_slots sort_groups failed_progress
  enumerate_mig parent_uuid dev p =
      let max_mig =
        guarded p.backend.avail (codes "nvmlDeviceGetMaxMigDeviceCount") 0 dev.max_mig in
      let scan =
        scan_slots parent_uuid dev.mig_device 0 max_mig.1 (record { by_gi = []; progress = p }) in
      if not (is_success max_mig.0)
      then ([], failed_progress max_mig.0 p)
      else if not scan.progress.go_on
      then ([], scan.progress)
      else (sort_groups scan.by_gi, scan.progress)
