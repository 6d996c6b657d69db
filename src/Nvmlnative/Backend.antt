-- ===== src/Nvmlnative/Backend.antt =====
-- internal/nvmlnative/backend_nvml.go: the life cycle of the backend. Log lines are left out. A
-- collection holds the lock of the backend throughout; whether the lock of the life cycle is
-- acquired in time is an input. A Go map that is ranged over gives its entries in the order in
-- which they were put.
use nvidia_gpu_exporter.Collect.{Time}
use nvidia_gpu_exporter.Collect.Readings.{MigUtilization}
use nvidia_gpu_exporter.Common.{
  if◌then◌else◌, ℕ, ◌+◌, ◌%◌, ◌^◌, Bool, true, false, not, ◌&&◌, ◌||◌, Option, none, some, List, [],
  ◌∷◌, list_comparable, nat_comparable,
}
use nvidia_gpu_exporter.Nvmlnative.Driver.{
  Return, is_success, is_lifecycle_error, Availability, guarded_symbols, probe_symbols, has, Call,
  init_call, shutdown_call, sample_free,
}
use nvidia_gpu_exporter.Text.{Text, codes}

-- gpmState. `last` is nil before the first values.
pub record GpmState : Type 0 where
  pub sample : ℕ
  pub taken : Time
  pub fingerprint : Text
  pub last : Option MigUtilization

-- Backend, with the calls that it made of the driver, the latest first.
pub record Backend : Type 0 where
  pub initialized : Bool
  pub last_cuda_version : Text
  pub avail : Availability
  pub gpm : List (Text × GpmState)
  pub generation : ℕ
  pub gen_live : Bool
  pub calls : List Call

abbrev pub note : Call → Backend → Backend
note c b = record b { calls = c ∷ b.calls }

-- The calls of freeGPMSamples.
unfoldable pub free_calls : List (Text × GpmState) → List Call → List Call
free_calls [] calls = calls
free_calls (entry ∷ gpm) calls = free_calls gpm (sample_free entry.1.sample ∷ calls)

-- freeGPMSamples
unfoldable pub free_gpm_samples : Backend → Backend
unfolding free_calls
free_gpm_samples b = record b { gpm = []; calls = free_calls b.gpm b.calls }

-- The second half of markLost and of Close. `acquired` tells whether tryLifecycleLock got the lock.
unfoldable pub tear_down : Bool → Backend → Backend
unfolding free_gpm_samples
tear_down acquired b =
    let dead = record (free_gpm_samples b) { initialized = false; gen_live = false } in
    if acquired then note shutdown_call dead else dead

-- markLost
unfoldable pub mark_lost : Bool → Backend → Backend
unfolding tear_down
mark_lost acquired b = if not b.initialized then b else tear_down acquired b

-- Close, which does nothing while a collection holds the backend.
unfoldable pub close : Bool → Bool → Backend → Backend
unfolding tear_down
close locked acquired b = if not locked || not b.initialized then b else tear_down acquired b

-- A successful init, and what stands behind it: refreshAvailability, a new generation.
abbrev pub initialize : (Text → Bool) → Backend → Backend
initialize exports b = record (note init_call b) {
  initialized = true;
  avail = probe_symbols exports guarded_symbols;
  generation = (b.generation + 1) % 2 ^ 64;
  gen_live = true;
}

-- newWithAPI: none if the library cannot be initialized, or has no uuids.
unfoldable pub new_with_api : Return → (Text → Bool) → Option Backend
unfolding probe_symbols
new_with_api ret exports =
    let b : Backend = record {
      initialized = true;
      last_cuda_version = [];
      avail = probe_symbols exports guarded_symbols;
      gpm = [];
      generation = 1;
      gen_live = true;
      calls = init_call ∷ [];
    } in
    if is_success ret && has b.avail (codes "nvmlDeviceGetUUID") then some b else none

-- The re-initialization at the start of collectTable. False is a FatalError.
unfoldable pub ensure_initialized : Return → (Text → Bool) → Backend → Bool × Backend
unfolding probe_symbols
ensure_initialized ret exports b =
    if b.initialized
    then (true, b)
    else if is_success ret
    then (true, initialize exports b)
    else (false, b)

-- lifecycle, whose result is whether the error is a FatalError.
unfoldable pub lifecycle : Bool → Return → Backend → Bool × Backend
unfolding mark_lost
lifecycle acquired ret b =
    if is_lifecycle_error ret then (true, mark_lost acquired b) else (false, b)

-- tryRecover, behind its lock.
unfoldable pub try_recover : Bool → Return → (Text → Bool) → Backend → Backend
unfolding mark_lost probe_symbols
try_recover acquired ret exports b =
    let lost = if b.initialized then mark_lost acquired b else b in
    if is_success ret then initialize exports lost else lost

-- extrasFailure: whether the extras may go on.
unfoldable pub extras_failure : Bool → Return → Backend → Bool × Backend
unfolding mark_lost
extras_failure acquired ret b =
    if is_lifecycle_error ret then (false, mark_lost acquired b) else (true, b)
