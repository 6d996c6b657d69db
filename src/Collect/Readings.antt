-- ===== src/Collect/Readings.antt =====
-- internal/collect/extras.go: the readings of a backend outside the query fields. No
-- reading is computed on here.
use nvidia_gpu_exporter.Common.{Float64, ℕ, Option, List, [], list_comparable, nat_comparable}
use nvidia_gpu_exporter.Text.{Text}

pub record PcieThroughput : Type 0 where
  pub uuid : Text
  pub tx_bytes_per_second : Float64
  pub rx_bytes_per_second : Float64

pub record EnergyCounter : Type 0 where
  pub uuid : Text
  pub joules : Float64

pub record MigMemory : Type 0 where
  pub total : ℕ
  pub used : ℕ
  pub free : ℕ
  pub reserved : ℕ

pub record MigUtilization : Type 0 where
  pub graphics_activity_ratio : Option Float64
  pub sm_activity_ratio : Option Float64
  pub sm_occupancy_ratio : Option Float64
  pub tensor_activity_ratio : Option Float64
  pub pcie_tx_bytes_per_second : Option Float64
  pub pcie_rx_bytes_per_second : Option Float64

pub record MigInstance : Type 0 where
  pub parent_uuid : Text
  pub uuid : Text
  pub gpu_instance_id : Text
  pub compute_instance_id : Text
  pub profile : Text
  pub memory : Option MigMemory
  pub utilization : Option MigUtilization

pub record Extras : Type 0 where
  pub cuda_version : Text
  pub pcie : List PcieThroughput
  pub energy : List EnergyCounter
  pub mig : List MigInstance

-- The zero value.
abbrev pub no_extras : Extras
no_extras = record { cuda_version = []; pcie = []; energy = []; mig = [] }
