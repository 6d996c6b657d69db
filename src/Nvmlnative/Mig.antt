-- ===== src/Nvmlnative/Mig.antt =====
-- internal/nvmlnative/mig_nvml.go: the MIG devices of a GPU and the activity of its GPU instances.
-- What the driver answers in a cycle is given per device; ids and counts are not negative, and the
-- clock is monotonic.
pub mod Gpm
pub mod Scan
pub mod Activity
use nvidia_gpu_exporter.Collect.{Time}
use nvidia_gpu_exporter.Collect.Readings.{MigMemory}
use nvidia_gpu_exporter.Common.{
  if◌then◌else◌, Float64, ◌==◌, ℕ, Bool, List, [], ◌∷◌, ◌++◌, list_comparable, nat_comparable,
}
use nvidia_gpu_exporter.Nvmlnative.Driver.{Return, Answer}
use nvidia_gpu_exporter.Text.{Text, decimal}

-- What a MIG device handle answers.
pub record MigDevice : Type 0 where
  pub uuid : Answer Text
  pub gpu_instance_id : Answer ℕ
  pub compute_instance_id : Answer ℕ
  pub name : Answer Text
  pub memory : Answer MigMemory

-- What the sampling of one GPU instance answers: the clock, the handle of a new sample, whether
-- the sample could be taken, and for two samples the value of each metric by its id.
pub record GpmAnswers : Type 0 where
  pub now : Time
  pub alloc : Answer ℕ
  pub get : Return
  pub metrics : Answer (ℕ → Return × Float64)

-- What a GPU answers in a cycle. `mig_mode` is whether MIG is enabled, `gpm_support` whether the
-- device is supported, `gpm` the sampling of a GPU instance by its id.
pub record Device : Type 0 where
  pub handle : Return
  pub uuid : Answer Text
  pub energy : Answer ℕ
  pub pcie_tx : Answer ℕ
  pub pcie_rx : Answer ℕ
  pub mig_mode : Answer Bool
  pub max_mig : Answer ℕ
  pub mig_device : ℕ → Answer MigDevice
  pub gpm_support : Answer Bool
  pub gpm : ℕ → GpmAnswers
  -- Whether the context has ended before the device, and between its two PCIe windows.
  pub ended_before : Bool
  pub ended_between : Bool

-- The arithmetic on float64 of the backend: v / 100, v * 2^20, float64(v) / 1000 and
-- float64(v) * 1000.
pub record Scales : Type 0 where
  pub of_percent : Float64 → Float64
  pub of_mebi : Float64 → Float64
  pub of_milli : ℕ → Float64
  pub of_kilo : ℕ → Float64

-- giKey
unfoldable pub gi_key : Text → ℕ → Text
gi_key parent_uuid gi = parent_uuid ++ b'/' ∷ decimal gi

-- migGroup
pub record MigGroup : Type 0 where
  pub gi : ℕ
  pub members : List Text

-- migAppID: the id that stands for no MIG instance is the empty label.
abbrev mig_app_id : ℕ → Text
mig_app_id id = if id == 4294967295 then [] else decimal id
