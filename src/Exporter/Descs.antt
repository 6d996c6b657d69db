-- ===== src/Exporter/Descs.antt =====
-- internal/exporter/exporter.go: the descriptions that New builds and Describe sends.
pub mod Families
mod Examples
use Prim.Native.String.{String}
use nvidia_gpu_exporter.Common.{
  if◌then◌else◌, Bool, not, Option, none, some, List, [], ◌∷◌, ◌++◌, map, list_comparable,
  nat_comparable,
}
use nvidia_gpu_exporter.Exporter.Claims.{
  MetricInfo, ExitCodeMetric, reserved_metric_names, build_q_field_to_metric_info_map,
}
use nvidia_gpu_exporter.Exporter.Names.{Desc, Host}
use nvidia_gpu_exporter.Nvidiasmi.Csv.{QField}
use nvidia_gpu_exporter.Nvidiasmi.Fields.{InfoField}
use nvidia_gpu_exporter.Nvidiasmi.Resolve.{ResolvedFields}
use nvidia_gpu_exporter.Text.{Text, codes, join}

pub record Features : Type 0 where
  pub compute_apps : Bool
  pub compute_app_mig_labels : Bool
  pub pcie_throughput : Bool
  pub energy : Bool
  pub mig : Bool
  pub xid_events : Bool

-- The descriptions of a family are all nil or all set, so each family is one option.
pub record AppDescs : Type 0 where
  pub app_info : Desc
  pub app_memory : Desc
  pub app_count : Desc
  pub apps_success : Desc

pub record PcieDescs : Type 0 where
  pub pcie_tx : Desc
  pub pcie_rx : Desc

pub record MigDescs : Type 0 where
  pub mig_info : Desc
  pub mem_total : Desc
  pub mem_used : Desc
  pub mem_free : Desc
  pub mem_reserved : Desc
  pub graphics_activity : Desc
  pub sm_activity : Desc
  pub sm_occupancy : Desc
  pub tensor_activity : Desc
  pub mig_pcie_tx : Desc
  pub mig_pcie_rx : Desc

pub record XidDescs : Type 0 where
  pub xid_count : Desc
  pub xid_timestamp : Desc

-- GPUExporter. The two sources are given to Collect.
pub record GpuExporter : Type 0 where
  pub info : List InfoField
  pub infos : List (QField × MetricInfo)
  pub failed_scrapes_desc : Desc
  pub exit_code_desc : Desc
  pub collect_success_desc : Desc
  pub collect_timestamp_desc : Desc
  pub collect_duration_desc : Desc
  pub gpu_info_desc : Desc
  pub app_descs : Option AppDescs
  pub pcie_descs : Option PcieDescs
  pub energy_desc : Option Desc
  pub mig_descs : Option MigDescs
  pub app_mig_labels : Bool
  pub xid_descs : Option XidDescs

abbrev pub uuid_label : Text
uuid_label = codes "uuid"

abbrev pub uuid_labels : List Text
uuid_labels = uuid_label ∷ []

abbrev pub compute_app_labels : List Text
compute_app_labels = uuid_label ∷ codes "pid" ∷ codes "process_name" ∷ []

abbrev pub compute_app_mig_labels_list : List Text
compute_app_mig_labels_list =
    compute_app_labels ++ codes "gpu_instance_id" ∷ codes "compute_instance_id" ∷ []

abbrev pub instance_labels : List Text
instance_labels = uuid_label ∷ codes "gpu_instance_id" ∷ []

-- migDescs.all
unfoldable pub all_mig_descs : MigDescs → List Desc
all_mig_descs m =
    m.mig_info ∷ m.mem_total ∷ m.mem_used ∷ m.mem_free ∷ m.mem_reserved ∷ m.graphics_activity
    ∷ m.sm_activity ∷ m.sm_occupancy ∷ m.tensor_activity ∷ m.mig_pcie_tx ∷ m.mig_pcie_rx ∷ []

module _ (host : Host) (prefix : Text) where
  -- NewDesc of a name under the prefix.
  abbrev pub new_desc : Text → String → List Text → Desc
  new_desc name help labels = record {
    fq_name = host.build_fq_name prefix name;
    help = codes help;
    labels = labels;
  }

  -- newComputeAppDescs
  unfoldable pub new_compute_app_descs : Bool → Bool → Option AppDescs
  new_compute_app_descs enabled mig_labels =
      let labels = if mig_labels then compute_app_mig_labels_list else compute_app_labels in
      if not enabled
      then none
      else some (record {
        app_info =
            new_desc (codes "compute_app_info")
              "A metric with a constant '1' value labeled by the identity of a process with a compute context on a GPU."
              labels;
        app_memory =
            new_desc (codes "compute_app_used_memory_bytes")
              "GPU memory used by the process. Absent when the driver cannot report it (e.g. Windows WDDM)."
              labels;
        app_count =
            new_desc (codes "compute_apps") "Number of processes with a compute context on the GPU."
              uuid_labels;
        apps_success =
            new_desc (codes "compute_apps_last_collect_success")
              "Whether the most recent per-process collection succeeded (1) or not (0)" [];
      })

  -- newPCIeDescs
  unfoldable pub new_pcie_descs : Bool → Option PcieDescs
  new_pcie_descs enabled =
      if not enabled
      then none
      else some (record {
        pcie_tx =
            new_desc (codes "pcie_throughput_tx_bytes_per_second")
              "PCIe traffic transmitted by the GPU, sampled by the driver over a dedicated 20ms window."
              uuid_labels;
        pcie_rx =
            new_desc (codes "pcie_throughput_rx_bytes_per_second")
              "PCIe traffic received by the GPU, sampled by the driver over a dedicated 20ms window."
              uuid_labels;
      })

  -- newEnergyDesc
  unfoldable pub new_energy_desc : Bool → Option Desc
  new_energy_desc enabled =
      if not enabled
      then none
      else some (
          new_desc (codes "energy_joules_total")
            "Total energy consumed by the GPU in joules since the driver was last loaded. Resets on a driver reload; absent on GPUs that cannot report it."
            uuid_labels)

  -- memDesc
  abbrev pub mem_desc : String → Desc
  mem_desc kind = record {
    fq_name = host.build_fq_name prefix (codes "mig_memory_" ++ codes kind ++ codes "_bytes");
    help =
        codes "Memory of the GPU instance ("
        ++ codes kind
        ++ codes
            "). The framebuffer belongs to the GPU instance and is shared by its compute instances (verified live: sibling compute instances report identical values).";
    labels = instance_labels;
  }

  -- activityDesc
  abbrev pub activity_desc : String → String → Desc
  activity_desc name help = record {
    fq_name = host.build_fq_name prefix (codes name);
    help =
        codes help
        ++ codes
            " Computed over the window between the two most recent collections; absent on the first collection that sees the GPU instance.";
    labels = instance_labels;
  }

  -- newMIGDescs
  unfoldable pub new_mig_descs : Bool → Option MigDescs
  new_mig_descs enabled =
      if not enabled
      then none
      else some (record {
        mig_info =
            new_desc (codes "mig_info")
              "A metric with a constant '1' value labeled by the identity of a MIG device: the parent GPU's uuid, the MIG device's own uuid, its GPU instance and compute instance ids, and its profile."
              (uuid_label
                ∷ codes "mig_uuid"
                ∷ codes "gpu_instance_id"
                ∷ codes "compute_instance_id"
                ∷ codes "profile"
                ∷ []);
        mem_total = mem_desc "total";
        mem_used = mem_desc "used";
        mem_free = mem_desc "free";
        mem_reserved = mem_desc "reserved";
        graphics_activity =
            activity_desc "mig_graphics_activity_ratio"
              "Fraction of time the GPU instance's graphics/compute engines were active.";
        sm_activity =
            activity_desc "mig_sm_activity_ratio"
              "Fraction of time the GPU instance's SMs were active.";
        sm_occupancy =
            activity_desc "mig_sm_occupancy_ratio"
              "Fraction of the GPU instance's resident warp slots that were occupied.";
        tensor_activity =
            activity_desc "mig_tensor_activity_ratio"
              "Fraction of time the GPU instance's tensor pipes were active.";
        mig_pcie_tx =
            activity_desc "mig_pcie_throughput_tx_bytes_per_second"
              "PCIe traffic transmitted by the GPU instance.";
        mig_pcie_rx =
            activity_desc "mig_pcie_throughput_rx_bytes_per_second"
              "PCIe traffic received by the GPU instance.";
      })

  -- addXIDDescs
  unfoldable pub new_xid_descs : Bool → Option XidDescs
  new_xid_descs enabled =
      if not enabled
      then none
      else some (record {
        xid_count =
            new_desc (codes "xid_errors_total")
              "Number of XID errors observed on the GPU since the exporter started. A series appears when its first event arrives; earlier history cannot be replayed."
              (uuid_label ∷ codes "xid" ∷ []);
        xid_timestamp =
            new_desc (codes "xid_last_timestamp_seconds")
              "Unix timestamp of the most recently observed XID error, as received by the exporter (the driver events carry no timestamp of their own)."
              (uuid_label ∷ codes "xid" ∷ []);
      })

  -- The labels of gpu_info.
  abbrev pub info_labels : List InfoField → List Text
  info_labels info = map (λ (f : InfoField). f.label) info ++ codes "cuda_version" ∷ []

  -- New, with addHealthDescs.
  unfoldable pub new_exporter : ResolvedFields → Features → ExitCodeMetric → GpuExporter
  unfolding new_compute_app_descs new_pcie_descs new_energy_desc new_mig_descs new_xid_descs
  new_exporter resolved features exit_code_metric = record {
    info = resolved.info;
    infos =
        build_q_field_to_metric_info_map host prefix resolved.returned
          (reserved_metric_names host prefix exit_code_metric);
    failed_scrapes_desc = new_desc (codes "failed_scrapes_total") "Number of failed collections" [];
    exit_code_desc = record {
      fq_name = host.build_fq_name prefix exit_code_metric.name;
      help = exit_code_metric.help;
      labels = [];
    };
    collect_success_desc =
        new_desc (codes "last_collect_success")
          "Whether the most recent collection succeeded (1) or not (0)" [];
    collect_timestamp_desc =
        new_desc (codes "last_collect_success_timestamp_seconds")
          "Unix timestamp of the most recent successful collection" [];
    collect_duration_desc =
        new_desc (codes "last_collect_duration_seconds") "Duration of the most recent collection"
          [];
    gpu_info_desc = record {
      fq_name = host.build_fq_name prefix (codes "gpu_info");
      help =
          codes "A metric with a constant '1' value labeled by gpu "
          ++ join (codes ", ") (info_labels resolved.info)
          ++ codes ".";
      labels = info_labels resolved.info;
    };
    app_descs = new_compute_app_descs features.compute_apps features.compute_app_mig_labels;
    pcie_descs = new_pcie_descs features.pcie_throughput;
    energy_desc = new_energy_desc features.energy;
    mig_descs = new_mig_descs features.mig;
    app_mig_labels = features.compute_app_mig_labels;
    xid_descs = new_xid_descs features.xid_events;
  }

abbrev pub described_fields : List (QField × MetricInfo) → List Desc
described_fields = map (λ (m : QField × MetricInfo). m.1.desc)

abbrev pub described_health : GpuExporter → List Desc
described_health e =
    e.failed_scrapes_desc ∷ e.exit_code_desc ∷ e.collect_success_desc ∷ e.collect_timestamp_desc
    ∷ e.collect_duration_desc ∷ e.gpu_info_desc ∷ []

abbrev pub described_apps : Option AppDescs → List Desc
described_apps none = []
described_apps (some d) = d.app_info ∷ d.app_memory ∷ d.app_count ∷ d.apps_success ∷ []

abbrev pub described_pcie : Option PcieDescs → List Desc
described_pcie none = []
described_pcie (some d) = d.pcie_tx ∷ d.pcie_rx ∷ []

abbrev pub described_energy : Option Desc → List Desc
described_energy none = []
described_energy (some d) = d ∷ []

abbrev pub described_mig : Option MigDescs → List Desc
described_mig none = []
described_mig (some d) = all_mig_descs d

abbrev pub described_xids : Option XidDescs → List Desc
described_xids none = []
described_xids (some d) = d.xid_count ∷ d.xid_timestamp ∷ []

-- Describe
unfoldable pub describe : GpuExporter → List Desc
unfolding all_mig_descs
describe e =
    described_fields e.infos
    ++ (described_health e
        ++ (described_apps e.app_descs
            ++ (described_pcie e.pcie_descs
                ++ (described_energy e.energy_desc
                    ++ (described_mig e.mig_descs ++ described_xids e.xid_descs)))))
