-- ===== src/Exporter/Render/Described.antt =====
-- internal/exporter/exporter.go: what Collect sends is what Describe announced.
use nvidia_gpu_exporter.Collect.{Snapshot}
use nvidia_gpu_exporter.Collect.Readings.{
  PcieThroughput, EnergyCounter, MigMemory, MigUtilization, MigInstance,
}
use nvidia_gpu_exporter.Common.{
  Bool-cases, Option-cases, Sum-cases, All, All-split, lookup, insert, Float64, Floats, contains, ℕ,
  ◌+◌, inl, inr, Bool, Option, none, some, List, [], ◌∷◌, list_comparable, nat_comparable,
}
use nvidia_gpu_exporter.Exporter.Descs.{
  AppDescs, PcieDescs, MigDescs, GpuExporter, all_mig_descs, described_fields, described_health,
  described_apps, described_pcie, described_energy, described_mig, describe,
}
use nvidia_gpu_exporter.Exporter.Names.{Desc, Host, mebi}
use nvidia_gpu_exporter.Exporter.Render.{
  Metric, Conversions, XidCounter, render_app, zero_counts, count_or_zero, render_app_loop,
  render_counts, render_apps, send_opt, render_memory, render_utilization, gi_key,
  render_gpu_instance, render_mig_info, render_mig_instances, render_pcie, render_energy,
  render_extras, collect,
}
use nvidia_gpu_exporter.Exporter.Render.Sent.{
  Among, All-Among, Sends, of_Sends, Sends-none, Sends-option, Sends-append, Sends-send_if,
  Sends-send, Sends-render_health, Sends-render_xids, Sends-render_rows,
}
use nvidia_gpu_exporter.Nvidiasmi.ComputeApps.{ComputeApp, is_known_absent_value}
use nvidia_gpu_exporter.Nvidiasmi.Csv.{Row}
use nvidia_gpu_exporter.Nvidiasmi.Transform.{transform_raw_value}
use nvidia_gpu_exporter.Text.{Text}

module _ {P : Desc → Type 0} (host : Host) (fl : Floats) (cv : Conversions) where
  Sends-render_app :
      (d : AppDescs) (mig_labels : Bool) (app : ComputeApp)
      → All P (described_apps (some d))
      → Sends P (render_app host fl cv d mig_labels app)
  unfolding render_app
  Sends-render_app d mig_labels app h =
      elim (Sum-cases (transform_raw_value fl app.used_memory mebi)) [
        | inl (num, g) ↦ elim (Bool-cases (is_known_absent_value app.used_memory)) [
          | inl t ↦ rw (g, t, render_app) (Sends-append (Sends-send _ _ _ _ _ h.0) Sends-none)
          | inr t ↦
              rw (g, t, render_app)
                (Sends-append (Sends-send _ _ _ _ _ h.0) (Sends-send _ _ _ _ _ h.1.0))
        ]
        | inr (error, g) ↦ elim (Bool-cases (is_known_absent_value app.used_memory)) [
          | inl t ↦ rw (g, t, render_app) (Sends-append (Sends-send _ _ _ _ _ h.0) Sends-none)
          | inr t ↦ rw (g, t, render_app) (Sends-append (Sends-send _ _ _ _ _ h.0) Sends-none)
        ]
      ]

  Sends-render_app_loop :
      (d : AppDescs) (mig_labels : Bool) (apps : List ComputeApp) (counts : List (Text × ℕ))
      → All P (described_apps (some d))
      → Sends P (render_app_loop host fl cv d mig_labels apps counts).1
  unfolding render_app_loop
  Sends-render_app_loop d mig_labels [] counts h = Sends-none
  Sends-render_app_loop d mig_labels (app ∷ apps) counts h =
      Sends-append (Sends-render_app d mig_labels app h) (
        Sends-render_app_loop d mig_labels apps
          (insert app.gpu_uuid (count_or_zero host fl cv (lookup app.gpu_uuid counts) + 1) counts)
          h)

  Sends-render_counts :
      (desc : Desc) (counts : List (Text × ℕ))
      → P desc
      → Sends P (render_counts host fl cv desc counts)
  unfolding render_counts
  Sends-render_counts desc [] h = Sends-none
  Sends-render_counts desc ((uuid, count) ∷ counts) h =
      Sends-append (Sends-send _ _ _ _ _ h) (Sends-render_counts desc counts h)

  Sends-render_apps :
      (e : GpuExporter) (s : Snapshot) (rows : List Row)
      → All P (described_apps e.app_descs)
      → Sends P (render_apps host fl cv e s rows)
  unfolding render_apps
  Sends-render_apps e s rows h = elim (Option-cases e.app_descs) [
    | inl n ↦ rw (n, render_apps) Sends-none
    | inr (d, f) ↦
        let own : All P (described_apps (some d)) = rw f at h in
        rw (f, render_apps)
          (Sends-send_if host s.apps_attempted (
            Sends-append (Sends-send _ _ _ _ _ own.1.1.1.0) (
              Sends-send_if host s.apps_success (
                Sends-append
                  (Sends-render_app_loop d e.app_mig_labels s.apps (zero_counts host fl cv rows [])
                    own)
                  (Sends-render_counts d.app_count _ own.1.1.0)))))
  ]

  Sends-send_opt :
      (desc : Desc) (values : List Text) (value : Option Float64)
      → P desc
      → Sends P (send_opt host fl cv desc values value)
  unfolding send_opt
  Sends-send_opt desc values none h = Sends-none
  Sends-send_opt desc values (some value) h = Sends-send _ _ _ _ _ h

  Sends-render_memory :
      (d : MigDescs) (values : List Text) (memory : Option MigMemory)
      → All P (described_mig (some d))
      → Sends P (render_memory host fl cv d values memory)
  unfolding all_mig_descs
  Sends-render_memory d values none h = Sends-none
  Sends-render_memory d values (some memory) h = Sends-append (Sends-send _ _ _ _ _ h.1.0) (
      Sends-append (Sends-send _ _ _ _ _ h.1.1.0)
        (Sends-append (Sends-send _ _ _ _ _ h.1.1.1.0) (Sends-send _ _ _ _ _ h.1.1.1.1.0)))

  Sends-render_utilization :
      (d : MigDescs) (values : List Text) (utilization : Option MigUtilization)
      → All P (described_mig (some d))
      → Sends P (render_utilization host fl cv d values utilization)
  unfolding all_mig_descs
  Sends-render_utilization d values none h = Sends-none
  Sends-render_utilization d values (some util) all =
      let h = all.1.1.1.1.1 in
      Sends-append (Sends-send_opt _ _ _ h.0) (
        Sends-append (Sends-send_opt _ _ _ h.1.0) (
          Sends-append (Sends-send_opt _ _ _ h.1.1.0) (
            Sends-append (Sends-send_opt _ _ _ h.1.1.1.0) (
              Sends-append (Sends-send_opt _ _ _ h.1.1.1.1.0)
                (Sends-send_opt _ _ _ h.1.1.1.1.1.0)))))

  Sends-render_mig_instances :
      (d : MigDescs) (emitted : List Text) (instances : List MigInstance)
      → All P (described_mig (some d))
      → Sends P (render_mig_instances host fl cv d emitted instances)
  unfolding render_mig_instances render_mig_info render_gpu_instance all_mig_descs
  Sends-render_mig_instances d emitted [] h = Sends-none
  Sends-render_mig_instances d emitted (i ∷ instances) h =
      elim (Bool-cases (contains emitted (gi_key host fl cv i))) [
        | inl e ↦
            rw (e, render_mig_instances)
              (Sends-append (Sends-send _ _ _ _ _ h.0)
                (Sends-render_mig_instances d emitted instances h))
        | inr e ↦
            rw (e, render_mig_instances)
              (Sends-append (Sends-send _ _ _ _ _ h.0) (
                Sends-append
                  (Sends-append (Sends-render_memory d _ i.memory h)
                    (Sends-render_utilization d _ i.utilization h))
                  (Sends-render_mig_instances d (gi_key host fl cv i ∷ emitted) instances h)))
      ]

  Sends-render_pcie :
      (d : PcieDescs) (samples : List PcieThroughput)
      → All P (described_pcie (some d))
      → Sends P (render_pcie host fl cv d samples)
  unfolding render_pcie
  Sends-render_pcie d [] h = Sends-none
  Sends-render_pcie d (sample ∷ samples) h =
      Sends-append (Sends-send _ _ _ _ _ h.0)
        (Sends-append (Sends-send _ _ _ _ _ h.1.0) (Sends-render_pcie d samples h))

  Sends-render_energy :
      (desc : Desc) (counters : List EnergyCounter)
      → P desc
      → Sends P (render_energy host fl cv desc counters)
  unfolding render_energy
  Sends-render_energy desc [] h = Sends-none
  Sends-render_energy desc (c ∷ counters) h =
      Sends-append (Sends-send _ _ _ _ _ h) (Sends-render_energy desc counters h)

  Sends-render_extras :
      (e : GpuExporter) (s : Snapshot)
      → All P (described_pcie e.pcie_descs)
      → All P (described_energy e.energy_desc)
      → All P (described_mig e.mig_descs)
      → Sends P (render_extras host fl cv e s)
  unfolding render_extras
  Sends-render_extras e s hp he hm =
      Sends-append
        (Sends-option e.pcie_descs described_pcie (λ d. render_pcie host fl cv d s.extras.pcie) hp
          (λ d h. Sends-render_pcie d s.extras.pcie h))
        (Sends-append
          (Sends-option e.energy_desc described_energy
            (λ d. render_energy host fl cv d s.extras.energy) he
            (λ d h. Sends-render_energy d s.extras.energy h.0))
          (Sends-option e.mig_descs described_mig
            (λ d. render_mig_instances host fl cv d [] s.extras.mig) hm
            (λ d h. Sends-render_mig_instances d [] s.extras.mig h)))

  Sends-collect :
      (e : GpuExporter) (xids : Option (List XidCounter)) (s : Snapshot)
      → All P (describe e)
      → Sends P (collect host fl cv e xids s)
  unfolding collect describe
  Sends-collect e xids s h =
      let fields = All-split P (described_fields e.infos) _ h in
      let health = All-split P (described_health e) _ fields.1 in
      let apps = All-split P (described_apps e.app_descs) _ health.1 in
      let pcie = All-split P (described_pcie e.pcie_descs) _ apps.1 in
      let energy = All-split P (described_energy e.energy_desc) _ pcie.1 in
      let mig = All-split P (described_mig e.mig_descs) _ energy.1 in
      Sends-append (Sends-render_health host fl cv e s health.0) (
        Sends-append (Sends-render_xids host fl cv e xids mig.1) (elim (Option-cases s.table) [
          | inl n ↦ rw n Sends-none
          | inr (table, f) ↦ rw f (
              Sends-append
                (Sends-render_rows host fl cv e s.extras.cuda_version table.rows fields.0
                  health.0.1.1.1.1.1.0)
                (Sends-append (Sends-render_apps e s table.rows apps.0)
                  (Sends-render_extras e s pcie.0 energy.0 mig.0)))
        ]))

-- Every metric that a scrape sends has one of the descriptions that Describe sends, whatever the
-- exporter, the snapshot and the XID counters are.
pub collect-Among :
    (host : Host) (fl : Floats) (cv : Conversions) (e : GpuExporter)
    (xids : Option (List XidCounter)) (s : Snapshot)
    → All (λ (m : Metric). Among (describe e) m.desc) (collect host fl cv e xids s)
collect-Among host fl cv e xids s =
    of_Sends (Among (describe e)) (collect host fl cv e xids s)
      (Sends-collect host fl cv e xids s (All-Among (describe e)))
