-- ===== src/Nvidiasmi/Fields/Builtin.antt =====
-- The built-in mapping of fields.go, in the order of the source.
use nvidia_gpu_exporter.Common.{List, [], ◌∷◌, list_comparable, nat_comparable}
use nvidia_gpu_exporter.Nvidiasmi.Csv.{QField, RField}
use nvidia_gpu_exporter.Text.{codes}

-- fallbackQFieldToRFieldMap
unfoldable pub fallback_q_field_to_r_field_map : List (QField × RField)
fallback_q_field_to_r_field_map =
    (codes "timestamp", codes "timestamp")
    ∷ (codes "driver_version", codes "driver_version")
    ∷ (codes "count", codes "count")
    ∷ (codes "name", codes "name")
    ∷ (codes "serial", codes "serial")
    ∷ (codes "uuid", codes "uuid")
    ∷ (codes "pci.bus_id", codes "pci.bus_id")
    ∷ (codes "pci.domain", codes "pci.domain")
    ∷ (codes "pci.bus", codes "pci.bus")
    ∷ (codes "pci.device", codes "pci.device")
    ∷ (codes "pci.device_id", codes "pci.device_id")
    ∷ (codes "pci.sub_device_id", codes "pci.sub_device_id")
    ∷ (codes "pcie.link.gen.current", codes "pcie.link.gen.current")
    ∷ (codes "pcie.link.gen.max", codes "pcie.link.gen.max")
    ∷ (codes "pcie.link.width.current", codes "pcie.link.width.current")
    ∷ (codes "pcie.link.width.max", codes "pcie.link.width.max")
    ∷ (codes "index", codes "index")
    ∷ (codes "display_mode", codes "display_mode")
    ∷ (codes "display_active", codes "display_active")
    ∷ (codes "persistence_mode", codes "persistence_mode")
    ∷ (codes "accounting.mode", codes "accounting.mode")
    ∷ (codes "accounting.buffer_size", codes "accounting.buffer_size")
    ∷ (codes "driver_model.current", codes "driver_model.current")
    ∷ (codes "driver_model.pending", codes "driver_model.pending")
    ∷ (codes "vbios_version", codes "vbios_version")
    ∷ (codes "inforom.img", codes "inforom.img")
    ∷ (codes "inforom.oem", codes "inforom.oem")
    ∷ (codes "inforom.ecc", codes "inforom.ecc")
    ∷ (codes "inforom.pwr", codes "inforom.pwr")
    ∷ (codes "gom.current", codes "gom.current")
    ∷ (codes "gom.pending", codes "gom.pending")
    ∷ (codes "fan.speed", codes "fan.speed [%]")
    ∷ (codes "pstate", codes "pstate")
    ∷ (codes "clocks_throttle_reasons.supported", codes "clocks_throttle_reasons.supported")
    ∷ (codes "clocks_throttle_reasons.active", codes "clocks_throttle_reasons.active")
    ∷ (codes "clocks_throttle_reasons.gpu_idle", codes "clocks_throttle_reasons.gpu_idle")
    ∷ (
      codes "clocks_throttle_reasons.applications_clocks_setting",
      codes "clocks_throttle_reasons.applications_clocks_setting",
    )
    ∷ (codes "clocks_throttle_reasons.sw_power_cap", codes "clocks_throttle_reasons.sw_power_cap")
    ∷ (codes "clocks_throttle_reasons.hw_slowdown", codes "clocks_throttle_reasons.hw_slowdown")
    ∷ (
      codes "clocks_throttle_reasons.hw_thermal_slowdown",
      codes "clocks_throttle_reasons.hw_thermal_slowdown",
    )
    ∷ (
      codes "clocks_throttle_reasons.hw_power_brake_slowdown",
      codes "clocks_throttle_reasons.hw_power_brake_slowdown",
    )
    ∷ (
      codes "clocks_throttle_reasons.sw_thermal_slowdown",
      codes "clocks_throttle_reasons.sw_thermal_slowdown",
    )
    ∷ (codes "clocks_throttle_reasons.sync_boost", codes "clocks_throttle_reasons.sync_boost")
    ∷ (codes "memory.total", codes "memory.total [MiB]")
    ∷ (codes "memory.used", codes "memory.used [MiB]")
    ∷ (codes "memory.free", codes "memory.free [MiB]")
    ∷ (codes "compute_mode", codes "compute_mode")
    ∷ (codes "compute_cap", codes "compute_cap")
    ∷ (codes "utilization.gpu", codes "utilization.gpu [%]")
    ∷ (codes "utilization.memory", codes "utilization.memory [%]")
    ∷ (codes "encoder.stats.sessionCount", codes "encoder.stats.sessionCount")
    ∷ (codes "encoder.stats.averageFps", codes "encoder.stats.averageFps")
    ∷ (codes "encoder.stats.averageLatency", codes "encoder.stats.averageLatency")
    ∷ (codes "ecc.mode.current", codes "ecc.mode.current")
    ∷ (codes "ecc.mode.pending", codes "ecc.mode.pending")
    ∷ (
      codes "ecc.errors.corrected.volatile.device_memory",
      codes "ecc.errors.corrected.volatile.device_memory",
    )
    ∷ (codes "ecc.errors.corrected.volatile.dram", codes "ecc.errors.corrected.volatile.dram")
    ∷ (
      codes "ecc.errors.corrected.volatile.register_file",
      codes "ecc.errors.corrected.volatile.register_file",
    )
    ∷ (
      codes "ecc.errors.corrected.volatile.l1_cache",
      codes "ecc.errors.corrected.volatile.l1_cache",
    )
    ∷ (
      codes "ecc.errors.corrected.volatile.l2_cache",
      codes "ecc.errors.corrected.volatile.l2_cache",
    )
    ∷ (
      codes "ecc.errors.corrected.volatile.texture_memory",
      codes "ecc.errors.corrected.volatile.texture_memory",
    )
    ∷ (codes "ecc.errors.corrected.volatile.cbu", codes "ecc.errors.corrected.volatile.cbu")
    ∷ (codes "ecc.errors.corrected.volatile.sram", codes "ecc.errors.corrected.volatile.sram")
    ∷ (codes "ecc.errors.corrected.volatile.total", codes "ecc.errors.corrected.volatile.total")
    ∷ (
      codes "ecc.errors.corrected.aggregate.device_memory",
      codes "ecc.errors.corrected.aggregate.device_memory",
    )
    ∷ (codes "ecc.errors.corrected.aggregate.dram", codes "ecc.errors.corrected.aggregate.dram")
    ∷ (
      codes "ecc.errors.corrected.aggregate.register_file",
      codes "ecc.errors.corrected.aggregate.register_file",
    )
    ∷ (
      codes "ecc.errors.corrected.aggregate.l1_cache",
      codes "ecc.errors.corrected.aggregate.l1_cache",
    )
    ∷ (
      codes "ecc.errors.corrected.aggregate.l2_cache",
      codes "ecc.errors.corrected.aggregate.l2_cache",
    )
    ∷ (
      codes "ecc.errors.corrected.aggregate.texture_memory",
      codes "ecc.errors.corrected.aggregate.texture_memory",
    )
    ∷ (codes "ecc.errors.corrected.aggregate.cbu", codes "ecc.errors.corrected.aggregate.cbu")
    ∷ (codes "ecc.errors.corrected.aggregate.sram", codes "ecc.errors.corrected.aggregate.sram")
    ∷ (codes "ecc.errors.corrected.aggregate.total", codes "ecc.errors.corrected.aggregate.total")
    ∷ (
      codes "ecc.errors.uncorrected.volatile.device_memory",
      codes "ecc.errors.uncorrected.volatile.device_memory",
    )
    ∷ (codes "ecc.errors.uncorrected.volatile.dram", codes "ecc.errors.uncorrected.volatile.dram")
    ∷ (
      codes "ecc.errors.uncorrected.volatile.register_file",
      codes "ecc.errors.uncorrected.volatile.register_file",
    )
    ∷ (
      codes "ecc.errors.uncorrected.volatile.l1_cache",
      codes "ecc.errors.uncorrected.volatile.l1_cache",
    )
    ∷ (
      codes "ecc.errors.uncorrected.volatile.l2_cache",
      codes "ecc.errors.uncorrected.volatile.l2_cache",
    )
    ∷ (
      codes "ecc.errors.uncorrected.volatile.texture_memory",
      codes "ecc.errors.uncorrected.volatile.texture_memory",
    )
    ∷ (codes "ecc.errors.uncorrected.volatile.cbu", codes "ecc.errors.uncorrected.volatile.cbu")
    ∷ (codes "ecc.errors.uncorrected.volatile.sram", codes "ecc.errors.uncorrected.volatile.sram")
    ∷ (codes "ecc.errors.uncorrected.volatile.total", codes "ecc.errors.uncorrected.volatile.total")
    ∷ (
      codes "ecc.errors.uncorrected.aggregate.device_memory",
      codes "ecc.errors.uncorrected.aggregate.device_memory",
    )
    ∷ (codes "ecc.errors.uncorrected.aggregate.dram", codes "ecc.errors.uncorrected.aggregate.dram")
    ∷ (
      codes "ecc.errors.uncorrected.aggregate.register_file",
      codes "ecc.errors.uncorrected.aggregate.register_file",
    )
    ∷ (
      codes "ecc.errors.uncorrected.aggregate.l1_cache",
      codes "ecc.errors.uncorrected.aggregate.l1_cache",
    )
    ∷ (
      codes "ecc.errors.uncorrected.aggregate.l2_cache",
      codes "ecc.errors.uncorrected.aggregate.l2_cache",
    )
    ∷ (
      codes "ecc.errors.uncorrected.aggregate.texture_memory",
      codes "ecc.errors.uncorrected.aggregate.texture_memory",
    )
    ∷ (codes "ecc.errors.uncorrected.aggregate.cbu", codes "ecc.errors.uncorrected.aggregate.cbu")
    ∷ (codes "ecc.errors.uncorrected.aggregate.sram", codes "ecc.errors.uncorrected.aggregate.sram")
    ∷ (
      codes "ecc.errors.uncorrected.aggregate.total",
      codes "ecc.errors.uncorrected.aggregate.total",
    )
    ∷ (codes "retired_pages.single_bit_ecc.count", codes "retired_pages.single_bit_ecc.count")
    ∷ (codes "retired_pages.double_bit.count", codes "retired_pages.double_bit.count")
    ∷ (codes "retired_pages.pending", codes "retired_pages.pending")
    ∷ (codes "temperature.gpu", codes "temperature.gpu")
    ∷ (codes "temperature.memory", codes "temperature.memory")
    ∷ (codes "power.management", codes "power.management")
    ∷ (codes "power.draw", codes "power.draw [W]")
    ∷ (codes "power.limit", codes "power.limit [W]")
    ∷ (codes "enforced.power.limit", codes "enforced.power.limit [W]")
    ∷ (codes "power.default_limit", codes "power.default_limit [W]")
    ∷ (codes "power.min_limit", codes "power.min_limit [W]")
    ∷ (codes "power.max_limit", codes "power.max_limit [W]")
    ∷ (codes "clocks.current.graphics", codes "clocks.current.graphics [MHz]")
    ∷ (codes "clocks.current.sm", codes "clocks.current.sm [MHz]")
    ∷ (codes "clocks.current.memory", codes "clocks.current.memory [MHz]")
    ∷ (codes "clocks.current.video", codes "clocks.current.video [MHz]")
    ∷ (codes "clocks.applications.graphics", codes "clocks.applications.graphics [MHz]")
    ∷ (codes "clocks.applications.memory", codes "clocks.applications.memory [MHz]")
    ∷ (
      codes "clocks.default_applications.graphics",
      codes "clocks.default_applications.graphics [MHz]",
    )
    ∷ (codes "clocks.default_applications.memory", codes "clocks.default_applications.memory [MHz]")
    ∷ (codes "clocks.max.graphics", codes "clocks.max.graphics [MHz]")
    ∷ (codes "clocks.max.sm", codes "clocks.max.sm [MHz]")
    ∷ (codes "clocks.max.memory", codes "clocks.max.memory [MHz]")
    ∷ (codes "mig.mode.current", codes "mig.mode.current")
    ∷ (codes "mig.mode.pending", codes "mig.mode.pending")
    ∷ []
