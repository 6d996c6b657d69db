-- ===== src/Exporter/Descs/Families.antt =====
-- internal/exporter/exporter.go: the names of the families beside the query fields.
use nvidia_gpu_exporter.Common.{
  Bool-cases, All, All-map, All-append, lookup, ◌==◌, list_same_iff, contains, ◌≡◌, refl, ◌≢◌, inl,
  inr, Bool, true, false, some, List, [], ◌∷◌, ◌++◌, map, arith, list_comparable, nat_comparable,
}
use nvidia_gpu_exporter.Exporter.Claims.{
  MetricInfo, ExitCodeMetric, exec_exit_code_metric, nvml_return_code_metric, fixed_metric_names,
  reserved_metric_names,
}
use nvidia_gpu_exporter.Exporter.Claims.Metrics.{build_q_field_to_metric_info_map_unique}
use nvidia_gpu_exporter.Exporter.Descs.{
  Features, GpuExporter, all_mig_descs, new_compute_app_descs, new_pcie_descs, new_energy_desc,
  new_mig_descs, new_xid_descs, new_exporter, described_health, described_apps, described_pcie,
  described_energy, described_mig, described_xids,
}
use nvidia_gpu_exporter.Exporter.Names.{Desc, Host}
use nvidia_gpu_exporter.Nvidiasmi.Csv.{QField}
use nvidia_gpu_exporter.Nvidiasmi.Resolve.{ResolvedFields}
use nvidia_gpu_exporter.Text.{Text, codes}

-- Every description but those of the query fields.
abbrev pub described_families : GpuExporter → List Desc
described_families e =
    described_health e
    ++ (described_apps e.app_descs
        ++ (described_pcie e.pcie_descs
            ++ (described_energy e.energy_desc
                ++ (described_mig e.mig_descs ++ described_xids e.xid_descs))))

contains-map :
    (f : Text → Text) (names : List Text) (name : Text)
    → contains names name ≡ true
    → contains (map f names) (f name) ≡ true
contains-map f [] name h = cc
contains-map f (x ∷ names) name h = elim (Bool-cases (x == name)) [
  | inl e ↦ rw ((list_same_iff x name).0 e, (list_same_iff (f name) (f name)).1 refl) refl
  | inr e ↦ let later = contains-map f names name (ground (arith, h, e)) in ground (arith, later)
]

contains_last : (names : List Text) (a b c : Text) → contains (names ++ a ∷ b ∷ c ∷ []) c ≡ true
contains_last [] a b c = let same = (list_same_iff c c).1 refl in ground (arith, same)
contains_last (x ∷ names) a b c = let later = contains_last names a b c in ground (arith, later)

module _ (host : Host) (prefix : Text) (m : ExitCodeMetric) where
  abbrev owned_names : List Text
  owned_names =
      fixed_metric_names ++ exec_exit_code_metric.name ∷ nvml_return_code_metric.name ∷ m.name ∷ []

  -- The description has a name that the exporter reserves.
  abbrev IsOwned : Desc → Type 0
  IsOwned d = contains (reserved_metric_names host prefix m) d.fq_name ≡ true

  owned :
      (name : Text)
      → contains owned_names name ≡ true
      → contains (reserved_metric_names host prefix m) (host.build_fq_name prefix name) ≡ true
  unfolding reserved_metric_names
  owned name h = contains-map (host.build_fq_name prefix) owned_names name h

  apps-IsOwned :
      (enabled mig_labels : Bool)
      → All IsOwned (described_apps (new_compute_app_descs host prefix enabled mig_labels))
  unfolding new_compute_app_descs fixed_metric_names
  apps-IsOwned true mig_labels = (
    owned (codes "compute_app_info") refl,
    (
      owned (codes "compute_app_used_memory_bytes") refl,
      (
        owned (codes "compute_apps") refl,
        (owned (codes "compute_apps_last_collect_success") refl, tt),
      ),
    ),
  )
  apps-IsOwned false mig_labels = tt

  pcie-IsOwned :
      (enabled : Bool) → All IsOwned (described_pcie (new_pcie_descs host prefix enabled))
  unfolding new_pcie_descs fixed_metric_names
  pcie-IsOwned true = (
    owned (codes "pcie_throughput_tx_bytes_per_second") refl,
    (owned (codes "pcie_throughput_rx_bytes_per_second") refl, tt),
  )
  pcie-IsOwned false = tt

  energy-IsOwned :
      (enabled : Bool) → All IsOwned (described_energy (new_energy_desc host prefix enabled))
  unfolding new_energy_desc fixed_metric_names
  energy-IsOwned true = (owned (codes "energy_joules_total") refl, tt)
  energy-IsOwned false = tt

  mig-IsOwned : (enabled : Bool) → All IsOwned (described_mig (new_mig_descs host prefix enabled))
  unfolding new_mig_descs fixed_metric_names all_mig_descs
  mig-IsOwned true = (
    owned (codes "mig_info") refl,
    (
      owned (codes "mig_memory_total_bytes") refl,
      (
        owned (codes "mig_memory_used_bytes") refl,
        (
          owned (codes "mig_memory_free_bytes") refl,
          (
            owned (codes "mig_memory_reserved_bytes") refl,
            (
              owned (codes "mig_graphics_activity_ratio") refl,
              (
                owned (codes "mig_sm_activity_ratio") refl,
                (
                  owned (codes "mig_sm_occupancy_ratio") refl,
                  (
                    owned (codes "mig_tensor_activity_ratio") refl,
                    (
                      owned (codes "mig_pcie_throughput_tx_bytes_per_second") refl,
                      (owned (codes "mig_pcie_throughput_rx_bytes_per_second") refl, tt),
                    ),
                  ),
                ),
              ),
            ),
          ),
        ),
      ),
    ),
  )
  mig-IsOwned false = tt

  xids-IsOwned : (enabled : Bool) → All IsOwned (described_xids (new_xid_descs host prefix enabled))
  unfolding new_xid_descs fixed_metric_names
  xids-IsOwned true =
      (owned (codes "xid_errors_total") refl, (owned (codes "xid_last_timestamp_seconds") refl, tt))
  xids-IsOwned false = tt

  health-IsOwned :
      (resolved : ResolvedFields) (features : Features)
      → All IsOwned (described_health (new_exporter host prefix resolved features m))
  unfolding new_exporter fixed_metric_names
  health-IsOwned resolved features = (
    owned (codes "failed_scrapes_total") refl,
    (
      owned m.name (
          contains_last fixed_metric_names exec_exit_code_metric.name nvml_return_code_metric.name
            m.name),
      (
        owned (codes "last_collect_success") refl,
        (
          owned (codes "last_collect_success_timestamp_seconds") refl,
          (owned (codes "last_collect_duration_seconds") refl, (owned (codes "gpu_info") refl, tt)),
        ),
      ),
    ),
  )

  families-IsOwned :
      (resolved : ResolvedFields) (features : Features)
      → All IsOwned (described_families (new_exporter host prefix resolved features m))
  unfolding new_exporter
  families-IsOwned resolved features =
      let e = new_exporter host prefix resolved features m in
      All-append IsOwned (described_health e) _ (health-IsOwned resolved features) (
        All-append IsOwned (described_apps e.app_descs) _
          (apps-IsOwned features.compute_apps features.compute_app_mig_labels)
          (All-append IsOwned (described_pcie e.pcie_descs) _
            (pcie-IsOwned features.pcie_throughput)
            (All-append IsOwned (described_energy e.energy_desc) _ (energy-IsOwned features.energy)
              (All-append IsOwned (described_mig e.mig_descs) _ (mig-IsOwned features.mig)
                (xids-IsOwned features.xid_events)))))

-- Whatever the features are, the name of a query field's metric is that of no other metric: neither
-- of another field nor of a family that the exporter describes beside the fields.
pub new_exporter_names :
    (host : Host) (prefix : Text) (resolved : ResolvedFields) (features : Features)
    (m : ExitCodeMetric) (q : QField) (i : MetricInfo)
    → lookup q (new_exporter host prefix resolved features m).infos ≡ some i
    → All
        (λ (d : Desc). i.desc.fq_name ≢ d.fq_name)
        (described_families (new_exporter host prefix resolved features m))
      × ((r : QField) (j : MetricInfo)
          → lookup r (new_exporter host prefix resolved features m).infos ≡ some j
          → i.desc.fq_name ≡ j.desc.fq_name
          → q ≡ r)
unfolding new_exporter
new_exporter_names host prefix resolved features m q i h =
    let reserved = reserved_metric_names host prefix m in
    let unique = build_q_field_to_metric_info_map_unique host prefix resolved.returned reserved in
    (
      All-map (IsOwned host prefix m) (λ (d : Desc). i.desc.fq_name ≢ d.fq_name)
          (λ d owned_name same. (let free = (unique q q i i h h).1 in cc))
          (described_families (new_exporter host prefix resolved features m))
          (families-IsOwned host prefix m resolved features),
      λ r j g. (unique q r i j h g).2,
    )
