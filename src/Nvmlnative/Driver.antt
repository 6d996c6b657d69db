-- ===== src/Nvmlnative/Driver.antt =====
-- internal/nvmlnative: what the driver answers, which of its exports are guarded (guard_nvml.go,
-- guardsymbols_nvml.go, availability_nvml.go), and its calls that acquire and release something.
use nvidia_gpu_exporter.Common.{
  if◌then◌else◌, filter, contains, ℕ, Bool, true, false, not, ◌&&◌, List, [], ◌∷◌, list_comparable,
  nat_comparable,
}
use nvidia_gpu_exporter.Text.{Text, codes}

-- nvml.Return, by the names that the code asks for.
pub data Return : Type 0 where
  success : Return
  uninitialized : Return
  invalid_argument : Return
  not_supported : Return
  no_permission : Return
  not_found : Return
  driver_not_loaded : Return
  timeout : Return
  function_not_found : Return
  gpu_is_lost : Return
  lib_rm_version_mismatch : Return
  deprecated : Return
  gpu_not_found : Return
  other_return : ℕ → Return

unfoldable pub is_success : Return → Bool
is_success success = true
is_success _ = false

unfoldable pub is_not_supported : Return → Bool
is_not_supported not_supported = true
is_not_supported _ = false

-- isLifecycleError
unfoldable pub is_lifecycle_error : Return → Bool
is_lifecycle_error gpu_is_lost = true
is_lifecycle_error uninitialized = true
is_lifecycle_error driver_not_loaded = true
is_lifecycle_error lib_rm_version_mismatch = true
is_lifecycle_error gpu_not_found = true
is_lifecycle_error _ = false

-- firstError
unfoldable pub first_error : Return → Return → Return
first_error a other = if not (is_success a) then a else other

-- The result of a call, and the value that counts only with success.
abbrev pub Answer : Type 0 → Type 0
Answer A = Return × A

-- The exports that the driver library has, of the guarded ones.
abbrev pub Availability : Type 0
Availability = List Text

-- guardedSymbols
unfoldable pub guarded_symbols : List Text
guarded_symbols =
    codes "nvmlDeviceGetAccountingBufferSize"
    ∷ codes "nvmlDeviceGetAccountingMode"
    ∷ codes "nvmlDeviceGetAddressingMode"
    ∷ codes "nvmlDeviceGetC2cModeInfoV"
    ∷ codes "nvmlDeviceGetClockInfo"
    ∷ codes "nvmlDeviceGetComputeInstanceId"
    ∷ codes "nvmlDeviceGetComputeMode"
    ∷ codes "nvmlDeviceGetConfComputeProtectedMemoryUsage"
    ∷ codes "nvmlDeviceGetCudaComputeCapability"
    ∷ codes "nvmlDeviceGetCurrPcieLinkGeneration"
    ∷ codes "nvmlDeviceGetCurrPcieLinkWidth"
    ∷ codes "nvmlDeviceGetCurrentClocksEventReasons"
    ∷ codes "nvmlDeviceGetDecoderUtilization"
    ∷ codes "nvmlDeviceGetDisplayActive"
    ∷ codes "nvmlDeviceGetDisplayMode"
    ∷ codes "nvmlDeviceGetDramEncryptionMode"
    ∷ codes "nvmlDeviceGetEccMode"
    ∷ codes "nvmlDeviceGetEncoderStats"
    ∷ codes "nvmlDeviceGetEncoderUtilization"
    ∷ codes "nvmlDeviceGetEnforcedPowerLimit"
    ∷ codes "nvmlDeviceGetFanSpeed"
    ∷ codes "nvmlDeviceGetFieldValues"
    ∷ codes "nvmlDeviceGetGpuFabricInfoV"
    ∷ codes "nvmlDeviceGetGpuInstanceId"
    ∷ codes "nvmlDeviceGetGpuMaxPcieLinkGeneration"
    ∷ codes "nvmlDeviceGetGpuOperationMode"
    ∷ codes "nvmlDeviceGetGspFirmwareMode"
    ∷ codes "nvmlDeviceGetHostname_v1"
    ∷ codes "nvmlDeviceGetIndex"
    ∷ codes "nvmlDeviceGetInforomImageVersion"
    ∷ codes "nvmlDeviceGetInforomVersion"
    ∷ codes "nvmlDeviceGetJpgUtilization"
    ∷ codes "nvmlDeviceGetMarginTemperature"
    ∷ codes "nvmlDeviceGetMaxClockInfo"
    ∷ codes "nvmlDeviceGetMaxMigDeviceCount"
    ∷ codes "nvmlDeviceGetMaxPcieLinkGeneration"
    ∷ codes "nvmlDeviceGetMaxPcieLinkWidth"
    ∷ codes "nvmlDeviceGetMemoryErrorCounter"
    ∷ codes "nvmlDeviceGetMemoryInfo_v2"
    ∷ codes "nvmlDeviceGetMigDeviceHandleByIndex"
    ∷ codes "nvmlDeviceGetMigMode"
    ∷ codes "nvmlDeviceGetName"
    ∷ codes "nvmlDeviceGetOfaUtilization"
    ∷ codes "nvmlDeviceGetPciInfoExt"
    ∷ codes "nvmlDeviceGetPcieThroughput"
    ∷ codes "nvmlDeviceGetPerformanceState"
    ∷ codes "nvmlDeviceGetPersistenceMode"
    ∷ codes "nvmlDeviceGetPlatformInfo"
    ∷ codes "nvmlDeviceGetPowerManagementDefaultLimit"
    ∷ codes "nvmlDeviceGetPowerManagementLimit"
    ∷ codes "nvmlDeviceGetPowerManagementLimitConstraints"
    ∷ codes "nvmlDeviceGetPowerUsage"
    ∷ codes "nvmlDeviceGetRemappedRows"
    ∷ codes "nvmlDeviceGetRemappedRows_v2"
    ∷ codes "nvmlDeviceGetRetiredPages"
    ∷ codes "nvmlDeviceGetRetiredPagesPendingStatus"
    ∷ codes "nvmlDeviceGetRowRemapperHistogram"
    ∷ codes "nvmlDeviceGetSerial"
    ∷ codes "nvmlDeviceGetSramEccErrorStatus"
    ∷ codes "nvmlDeviceGetSupportedClocksEventReasons"
    ∷ codes "nvmlDeviceGetTemperature"
    ∷ codes "nvmlDeviceGetTotalEccErrors"
    ∷ codes "nvmlDeviceGetTotalEnergyConsumption"
    ∷ codes "nvmlDeviceGetUUID"
    ∷ codes "nvmlDeviceGetUtilizationRates"
    ∷ codes "nvmlDeviceGetVbiosVersion"
    ∷ codes "nvmlDeviceValidateInforom"
    ∷ codes "nvmlGpmSampleAlloc"
    ∷ codes "nvmlGpmSampleFree"
    ∷ codes "nvmlGpmMigSampleGet"
    ∷ codes "nvmlGpmMetricsGet"
    ∷ codes "nvmlEventSetCreate"
    ∷ codes "nvmlEventSetFree"
    ∷ codes "nvmlSystemGetProcessName"
    ∷ codes "nvmlSystemGetDriverVersion"
    ∷ codes "nvmlSystemGetCudaDriverVersion"
    ∷ codes "nvmlDeviceGetDriverModel"
    ∷ codes "nvmlDeviceGetDriverModel_v2"
    ∷ codes "nvmlDeviceGetComputeRunningProcesses"
    ∷ codes "nvmlDeviceGetComputeRunningProcesses_v2"
    ∷ codes "nvmlDeviceGetComputeRunningProcesses_v3"
    ∷ codes "nvmlDeviceRegisterEvents"
    ∷ codes "nvmlGpmQueryDeviceSupport"
    ∷ []

-- probeSymbols, with what the library exports.
unfoldable pub probe_symbols : (Text → Bool) → List Text → Availability
probe_symbols exports symbols = filter exports symbols

-- availability.has
abbrev pub has : Availability → Text → Bool
has avail symbol = contains avail symbol

-- availability.hasAll
unfoldable pub has_all : Availability → List Text → Bool
has_all avail [] = true
has_all avail (symbol ∷ symbols) = has avail symbol && has_all avail symbols

-- A getter of guardedDevice: the driver is asked only for an export that it has.
abbrev pub guarded : {A : Type 0} → Availability → Text → A → Answer A → Answer A
guarded avail symbol nil answer = if has avail symbol then answer else (function_not_found, nil)

-- The calls of the driver that acquire or release something, or use what was acquired: a GPM
-- sample by its handle.
pub data Call : Type 0 where
  init_call : Call
  shutdown_call : Call
  sample_alloc : ℕ → Call
  sample_free : ℕ → Call
  sample_get : ℕ → Call
  metrics_get : ℕ → ℕ → Call
