-- ===== src/Nvmlnative/Mig/Activity.antt =====
-- internal/nvmlnative/mig_nvml.go: collectMIGUtilization and collectMIG.
use nvidia_gpu_exporter.Collect.Readings.{MigUtilization, MigInstance}
use nvidia_gpu_exporter.Common.{
  if◌then◌else◌, length, lookup, insert, Floats, ◌==◌, ℕ, Bool, true, false, not, ◌||◌, Option,
  none, some, List, [], ◌∷◌, list_comparable, nat_comparable,
}
use nvidia_gpu_exporter.Nvmlnative.Backend.{Backend}
use nvidia_gpu_exporter.Nvmlnative.Driver.{
  is_success, is_not_supported, is_lifecycle_error, Availability, has_all, guarded,
}
use nvidia_gpu_exporter.Nvmlnative.Mig.{GpmAnswers, Device, Scales, gi_key, MigGroup}
use nvidia_gpu_exporter.Nvmlnative.Mig.Gpm.{gpm_utilization}
use nvidia_gpu_exporter.Nvmlnative.Mig.Scan.{Progress, failed_progress, enumerate_mig}
use nvidia_gpu_exporter.Text.{Text, codes, decimal}

-- gpmAvailable
unfoldable pub gpm_available : Availability → Bool
unfolding has_all
gpm_available avail = has_all avail (
    codes "nvmlGpmSampleAlloc"
    ∷ codes "nvmlGpmSampleFree"
    ∷ codes "nvmlGpmMigSampleGet"
    ∷ codes "nvmlGpmMetricsGet"
    ∷ [])

-- The stamping of the values onto the instances of the GPU.
unfoldable pub stamp :
    Text → List (Text × Option MigUtilization) → List MigInstance → List MigInstance
stamp parent_uuid util_by_gi [] = []
stamp parent_uuid util_by_gi (i ∷ instances) =
    let value : Option MigUtilization = elim (lookup i.gpu_instance_id util_by_gi) [
      | none ↦ none
      | some util ↦ util
    ] in
    (if i.parent_uuid == parent_uuid then record i { utilization = value } else i)
    ∷ stamp parent_uuid util_by_gi instances

-- seenGIs[giKey(parentUUID, group.gi)] = true
unfoldable pub mark_seen : Text → List MigGroup → List Text → List Text
mark_seen parent_uuid [] seen = seen
mark_seen parent_uuid (group ∷ groups) seen =
    mark_seen parent_uuid groups (gi_key parent_uuid group.gi ∷ seen)

module _ (fl : Floats) (sc : Scales) (acquired : Bool) where
  -- The loop over the groups: the values by GPU instance, whether it was not left early.
  unfoldable pub utilize :
      Text
      → (ℕ → GpmAnswers)
      → List MigGroup
      → List (Text × Option MigUtilization)
      → Backend
      → Bool × (List (Text × Option MigUtilization) × Backend)
  unfolding gpm_utilization
  utilize parent_uuid gpm [] util_by_gi b = (true, (util_by_gi, b))
  utilize parent_uuid gpm (group ∷ groups) util_by_gi b =
      let util =
        gpm_utilization fl sc acquired (gi_key parent_uuid group.gi) group (gpm group.gi) b in
      let rest =
        utilize parent_uuid gpm groups (insert (decimal group.gi) util.value util_by_gi)
          util.backend in
      if util.ok then rest else (false, (util_by_gi, util.backend))

  -- collectMIGUtilization
  unfoldable pub collect_mig_utilization : Text → Device → List MigGroup → Progress → Progress
  unfolding failed_progress utilize
  collect_mig_utilization parent_uuid dev groups p =
      let support =
        guarded p.backend.avail (codes "nvmlGpmQueryDeviceSupport") false dev.gpm_support in
      let utilized = utilize parent_uuid dev.gpm groups [] p.backend in
      if is_lifecycle_error support.0
      then failed_progress acquired support.0 p
      else if not (is_success support.0) || not support.1
      then record p { go_on = true }
      else if not utilized.0
      then record p { go_on = false; backend = utilized.1.1 }
      else record p {
        go_on = true;
        extras = record (p.extras) { mig = stamp parent_uuid utilized.1.0 p.extras.mig };
        backend = utilized.1.1;
      }

  -- collectMIG
  unfoldable pub collect_mig : Text → Device → Progress → Progress
  unfolding failed_progress enumerate_mig mark_seen gpm_available collect_mig_utilization
  collect_mig parent_uuid dev p =
      let mode = guarded p.backend.avail (codes "nvmlDeviceGetMigMode") false dev.mig_mode in
      let found = enumerate_mig acquired parent_uuid dev p in
      let marked = record (found.1) { seen = mark_seen parent_uuid found.0 found.1.seen } in
      if is_not_supported mode.0
      then record p { go_on = true }
      else if not (is_success mode.0)
      then failed_progress acquired mode.0 p
      else if not mode.1
      then record p { go_on = true }
      else if not found.1.go_on || length found.0 == 0
      then found.1
      else if not (gpm_available p.backend.avail)
      then record marked { go_on = false }
      else collect_mig_utilization parent_uuid dev found.0 marked
