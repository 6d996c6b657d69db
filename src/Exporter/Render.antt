-- ===== src/Exporter/Render.antt =====
-- internal/exporter/exporter.go: Collect and what it renders. The channel is the list of what is
-- sent, in order. Log lines are left out. A Go map that is ranged over gives its entries in the
-- order in which they were put.
pub mod Sent
pub mod Described
pub mod Apps
pub mod Mig
pub mod Plain
pub mod Health
mod Examples
use nvidia_gpu_exporter.Collect.{Time, Snapshot}
use nvidia_gpu_exporter.Collect.Readings.{
  PcieThroughput, EnergyCounter, MigMemory, MigUtilization, MigInstance,
}
use nvidia_gpu_exporter.Common.{
  if◌then◌else◌, ℤ, lookup, insert, Float64, Floats, ◌==◌, contains, ℕ, ◌+◌, inl, inr, Bool, true,
  false, not, Option, none, some, List, [], ◌∷◌, ◌++◌, map, list_comparable, nat_comparable,
}
use nvidia_gpu_exporter.Exporter.Claims.{ValueType, counter_value, gauge_value, MetricInfo}
use nvidia_gpu_exporter.Exporter.Descs.{AppDescs, PcieDescs, MigDescs, XidDescs, GpuExporter}
use nvidia_gpu_exporter.Exporter.Names.{Desc, Host, one, mebi}
use nvidia_gpu_exporter.Nvidiasmi.ComputeApps.{ComputeApp, normalize_uuid, is_known_absent_value}
use nvidia_gpu_exporter.Nvidiasmi.Csv.{QField, Cell, Row}
use nvidia_gpu_exporter.Nvidiasmi.Fields.{uuid_q_field, InfoField}
use nvidia_gpu_exporter.Nvidiasmi.Transform.{transform_raw_value, transform_field_value}
use nvidia_gpu_exporter.Text.{Text, decimal}

pub record Metric : Type 0 where
  pub desc : Desc
  pub value_type : ValueType
  pub value : Float64
  pub label_values : List Text

-- Conversions to float64 of an int, of a duration in seconds, and of a time in whole seconds and
-- in seconds of Unix time.
pub record Conversions : Type 0 where
  pub of_int : ℤ → Float64
  pub seconds : Time → Float64
  pub unix : Time → Float64
  pub unix_nano_seconds : Time → Float64

-- collect.XIDCounter
pub record XidCounter : Type 0 where
  pub uuid : Text
  pub xid : ℕ
  pub count : ℕ
  pub last_seen : Time

-- `row.QFieldToCells[q].RawValue`, of the zero cell for a missing key.
abbrev pub raw_or_nil : Option Cell → Text
raw_or_nil none = []
raw_or_nil (some c) = c.raw_value

abbrev pub raw_of : Row → QField → Text
raw_of row q = raw_or_nil (lookup q row.q_field_to_cells)

-- The normalized uuid of a row.
abbrev pub row_uuid : Row → Text
row_uuid row = normalize_uuid (raw_of row uuid_q_field)

abbrev pub zero_float : Float64
zero_float = 0

abbrev pub float_of_bool : Bool → Float64
float_of_bool b = if b then one else zero_float

module _ (host : Host) where
  -- sendConst, sendConstWithUUID, sendLabeledGauge, sendLabeledCounter: nothing is sent where
  -- NewConstMetric fails.
  unfoldable pub send : Desc → ValueType → Float64 → List Text → List Metric
  send desc t value values =
      if host.accepts desc values
      then record { desc = desc; value_type = t; value = value; label_values = values } ∷ []
      else []

  unfoldable pub send_if : Bool → List Metric → List Metric
  send_if test metrics = if test then metrics else []

module _ (host : Host) (fl : Floats) (cv : Conversions) where
  -- renderHealth
  unfoldable pub render_health : GpuExporter → Snapshot → List Metric
  unfolding send_if
  render_health e s =
      send host e.failed_scrapes_desc counter_value (fl.of_uint s.failures) []
      ++ (send host e.collect_success_desc gauge_value (float_of_bool s.success) []
          ++ (send_if host s.attempted (
                send host e.exit_code_desc gauge_value (cv.of_int s.exit_code) []
                ++ send host e.collect_duration_desc gauge_value (cv.seconds s.duration) [])
              ++ send_if host (not (s.last_success == 0))
                  (send host e.collect_timestamp_desc gauge_value (cv.unix s.last_success) [])))

  -- The loop of renderXIDs.
  unfoldable pub render_xid_counters : XidDescs → List XidCounter → List Metric
  render_xid_counters d [] = []
  render_xid_counters d (c ∷ counters) =
      send host d.xid_count counter_value (fl.of_uint c.count) (c.uuid ∷ decimal c.xid ∷ [])
      ++ (send host d.xid_timestamp gauge_value (cv.unix_nano_seconds c.last_seen)
            (c.uuid ∷ decimal c.xid ∷ [])
          ++ render_xid_counters d counters)

  -- renderXIDs, with what the source counted if there is one.
  unfoldable pub render_xids : GpuExporter → Option (List XidCounter) → List Metric
  unfolding render_xid_counters
  render_xids e xids = elim e.xid_descs [
    | none ↦ []
    | some d ↦ elim xids [ none ↦ [] | some counters ↦ render_xid_counters d counters ]
  ]

  -- renderCell
  unfoldable pub render_cell : List (QField × MetricInfo) → Text → Cell → List Metric
  render_cell infos uuid cell = elim (lookup cell.q_field infos) [
    | none ↦ []
    | some info ↦
        elim (transform_field_value fl cell.q_field cell.raw_value info.value_multiplier) [
          | inl num ↦ send host info.desc info.m_type num (uuid ∷ [])
          | inr e ↦ []
        ]
  ]

  unfoldable pub render_cells : List (QField × MetricInfo) → Text → List Cell → List Metric
  unfolding render_cell
  render_cells infos uuid [] = []
  render_cells infos uuid (cell ∷ cells) =
      render_cell infos uuid cell ++ render_cells infos uuid cells

  -- The value of one label of gpu_info.
  abbrev pub info_value : Row → InfoField → Text
  info_value row f = if f.q_field == uuid_q_field then row_uuid row else raw_of row f.q_field

  -- renderRow
  unfoldable pub render_row : GpuExporter → Text → Row → List Metric
  unfolding render_cells
  render_row e cuda_version row =
      let values = map (info_value row) e.info ++ cuda_version ∷ [] in
      let cells = render_cells e.infos (row_uuid row) row.cells in
      if host.accepts e.gpu_info_desc values
      then record {
        desc = e.gpu_info_desc;
        value_type = gauge_value;
        value = one;
        label_values = values;
      }
        ∷ cells
      else []

  unfoldable pub render_rows : GpuExporter → Text → List Row → List Metric
  unfolding render_row
  render_rows e cuda_version [] = []
  render_rows e cuda_version (row ∷ rows) =
      render_row e cuda_version row ++ render_rows e cuda_version rows

  -- The label values of sendAppMetric.
  abbrev pub app_values : Bool → ComputeApp → List Text
  app_values mig_labels app =
      app.gpu_uuid
      ∷ app.pid
      ∷ app.process_name
      ∷ (if mig_labels then app.gpu_instance_id ∷ app.compute_instance_id ∷ [] else [])

  -- renderApp, with the descriptions of the family.
  unfoldable pub render_app : AppDescs → Bool → ComputeApp → List Metric
  render_app d mig_labels app =
      let info = send host d.app_info gauge_value one (app_values mig_labels app) in
      let memory : List Metric = elim (transform_raw_value fl app.used_memory mebi) [
        | inl num ↦ send host d.app_memory gauge_value num (app_values mig_labels app)
        | inr e ↦ []
      ] in
      info ++ (if is_known_absent_value app.used_memory then [] else memory)

  -- counts[...] = 0 for each row.
  unfoldable pub zero_counts : List Row → List (Text × ℕ) → List (Text × ℕ)
  zero_counts [] counts = counts
  zero_counts (row ∷ rows) counts = zero_counts rows (insert (row_uuid row) 0 counts)

  abbrev pub count_or_zero : Option ℕ → ℕ
  count_or_zero none = 0
  count_or_zero (some n) = n

  -- The loop over the processes: the counts behind it, and what it sent. A count is the number of
  -- increments of a float64 by 1, which is exact up to 2^53.
  unfoldable pub render_app_loop :
      AppDescs → Bool → List ComputeApp → List (Text × ℕ) → List (Text × ℕ) × List Metric
  unfolding render_app
  render_app_loop d mig_labels [] counts = (counts, [])
  render_app_loop d mig_labels (app ∷ apps) counts =
      let count = count_or_zero (lookup app.gpu_uuid counts) + 1 in
      let rest = render_app_loop d mig_labels apps (insert app.gpu_uuid count counts) in
      (rest.0, render_app d mig_labels app ++ rest.1)

  -- The loop over the counts.
  unfoldable pub render_counts : Desc → List (Text × ℕ) → List Metric
  render_counts desc [] = []
  render_counts desc ((uuid, count) ∷ counts) =
      send host desc gauge_value (fl.of_uint count) (uuid ∷ []) ++ render_counts desc counts

  -- renderApps, on a snapshot with these rows.
  unfoldable pub render_apps : GpuExporter → Snapshot → List Row → List Metric
  unfolding render_app_loop render_counts zero_counts send_if
  render_apps e s rows = elim e.app_descs [
    | none ↦ []
    | some d ↦
        let success = send host d.apps_success gauge_value (float_of_bool s.apps_success) [] in
        let loop = render_app_loop d e.app_mig_labels s.apps (zero_counts rows []) in
        send_if host s.apps_attempted
          (success ++ send_if host s.apps_success (loop.1 ++ render_counts d.app_count loop.0))
  ]

  -- One entry of the last loop of renderMIGInstance.
  unfoldable pub send_opt : Desc → List Text → Option Float64 → List Metric
  send_opt desc values none = []
  send_opt desc values (some value) = send host desc gauge_value value values

  abbrev pub render_memory : MigDescs → List Text → Option MigMemory → List Metric
  render_memory d values none = []
  render_memory d values (some memory) =
      send host d.mem_total gauge_value (fl.of_uint memory.total) values
      ++ (send host d.mem_used gauge_value (fl.of_uint memory.used) values
          ++ (send host d.mem_free gauge_value (fl.of_uint memory.free) values
              ++ send host d.mem_reserved gauge_value (fl.of_uint memory.reserved) values))

  abbrev pub render_utilization : MigDescs → List Text → Option MigUtilization → List Metric
  render_utilization d values none = []
  render_utilization d values (some util) =
      send_opt d.graphics_activity values util.graphics_activity_ratio
      ++ (send_opt d.sm_activity values util.sm_activity_ratio
          ++ (send_opt d.sm_occupancy values util.sm_occupancy_ratio
              ++ (send_opt d.tensor_activity values util.tensor_activity_ratio
                  ++ (send_opt d.mig_pcie_tx values util.pcie_tx_bytes_per_second
                      ++ send_opt d.mig_pcie_rx values util.pcie_rx_bytes_per_second))))

  -- instance.ParentUUID + "/" + instance.GPUInstanceID
  abbrev pub gi_key : MigInstance → Text
  gi_key instance_of = instance_of.parent_uuid ++ b'/' ∷ instance_of.gpu_instance_id

  abbrev pub gi_values : MigInstance → List Text
  gi_values instance_of = instance_of.parent_uuid ∷ instance_of.gpu_instance_id ∷ []

  -- What belongs to the GPU instance.
  unfoldable pub render_gpu_instance : MigDescs → MigInstance → List Metric
  unfolding send_opt
  render_gpu_instance d i =
      render_memory d (gi_values i) i.memory ++ render_utilization d (gi_values i) i.utilization

  unfoldable pub render_mig_info : MigDescs → MigInstance → List Metric
  render_mig_info d i =
      send host d.mig_info gauge_value one
        (i.parent_uuid ∷ i.uuid ∷ i.gpu_instance_id ∷ i.compute_instance_id ∷ i.profile ∷ [])

  -- renderMIGInstance, and the loop around it with the keys that were rendered.
  unfoldable pub render_mig_instances : MigDescs → List Text → List MigInstance → List Metric
  unfolding render_gpu_instance render_mig_info
  render_mig_instances d emitted [] = []
  render_mig_instances d emitted (i ∷ instances) =
      render_mig_info d i ++ elim (contains emitted (gi_key i)) [
        | true ↦ render_mig_instances d emitted instances
        | false ↦ render_gpu_instance d i ++ render_mig_instances d (gi_key i ∷ emitted) instances
      ]

  unfoldable pub render_pcie : PcieDescs → List PcieThroughput → List Metric
  render_pcie d [] = []
  render_pcie d (sample ∷ samples) =
      send host d.pcie_tx gauge_value sample.tx_bytes_per_second (sample.uuid ∷ [])
      ++ (send host d.pcie_rx gauge_value sample.rx_bytes_per_second (sample.uuid ∷ [])
          ++ render_pcie d samples)

  unfoldable pub render_energy : Desc → List EnergyCounter → List Metric
  render_energy desc [] = []
  render_energy desc (c ∷ counters) =
      send host desc counter_value c.joules (c.uuid ∷ []) ++ render_energy desc counters

  -- renderExtras
  unfoldable pub render_extras : GpuExporter → Snapshot → List Metric
  unfolding render_mig_instances render_pcie render_energy
  render_extras e s =
      let pcie : List Metric = elim e.pcie_descs [
        | none ↦ []
        | some d ↦ render_pcie d s.extras.pcie
      ] in
      let energy : List Metric = elim e.energy_desc [
        | none ↦ []
        | some d ↦ render_energy d s.extras.energy
      ] in
      let mig : List Metric = elim e.mig_descs [
        | none ↦ []
        | some d ↦ render_mig_instances d [] s.extras.mig
      ] in
      pcie ++ (energy ++ mig)

  -- Collect, with the snapshot that the source has and what the other source counted.
  unfoldable pub collect : GpuExporter → Option (List XidCounter) → Snapshot → List Metric
  unfolding render_health render_xids render_rows render_apps render_extras
  collect e xids s =
      let of_table : List Metric = elim s.table [
        | none ↦ []
        | some table ↦
            render_rows e s.extras.cuda_version table.rows
            ++ (render_apps e s table.rows ++ render_extras e s)
      ] in
      render_health e s ++ (render_xids e xids ++ of_table)
