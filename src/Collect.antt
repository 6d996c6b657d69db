-- ===== src/Collect.antt =====
-- internal/collect/collect.go: one collection and the counters it is folded into. A time is the
-- nanoseconds since Go's zero time, so that 0 is the zero time; the clock is monotonic. Log lines
-- are left out.
pub mod Readings
pub mod Totals
pub mod Cached
pub mod Live
use nvidia_gpu_exporter.Collect.Readings.{Extras, no_extras}
use nvidia_gpu_exporter.Common.{
  if◌then◌else◌, ℤ, pos, ℕ, ◌+◌, ◌-◌, ◌%◌, ◌^◌, Bool, true, false, not, ◌&&◌, Option, none, some,
  List, [], list_comparable, nat_comparable,
}
use nvidia_gpu_exporter.Nvidiasmi.ComputeApps.{ComputeApp}
use nvidia_gpu_exporter.Nvidiasmi.Csv.{Table}
use nvidia_gpu_exporter.Text.{Text}

abbrev pub Time : Type 0
Time = ℕ

-- An error by what `errors.As` finds in its chain: an *exec.ExitError, a *FatalError or neither.
pub data CollectError : Type 0 where
  exit_error : Text → CollectError
  fatal_error : Text → CollectError
  other_error : Text → CollectError

pub record Snapshot : Type 0 where
  pub attempted : Bool
  pub success : Bool
  pub table : Option Table
  pub apps : List ComputeApp
  pub apps_attempted : Bool
  pub apps_success : Bool
  pub extras : Extras
  pub exit_code : ℤ
  pub duration : Time
  pub last_success : Time
  pub failures : ℕ
  pub error : Option CollectError

-- Snapshot{}
abbrev pub zero_snapshot : Snapshot
zero_snapshot = record {
  attempted = false;
  success = false;
  table = none;
  apps = [];
  apps_attempted = false;
  apps_success = false;
  extras = no_extras;
  exit_code = pos 0;
  duration = 0;
  last_success = 0;
  failures = 0;
  error = none;
}

pub record Reading : Type 0 where
  pub table : Option Table
  pub apps : List ComputeApp
  pub apps_attempted : Bool
  pub apps_success : Bool
  pub extras : Extras

-- What one call of the `QueryFunc` brings: its three results, the clock before and after it, and
-- whether the context of the call had ended by then (`callCtx.Err() != nil`).
pub record Attempt : Type 0 where
  pub reading : Reading
  pub exit_code : ℤ
  pub error : Option CollectError
  pub start : Time
  pub now : Time
  pub expired : Bool

-- errors.As(err, &exitErr) || errors.As(err, &fatalErr)
unfoldable pub is_fatal : CollectError → Bool
is_fatal (exit_error _) = true
is_fatal (fatal_error _) = true
is_fatal (other_error _) = false

-- The snapshot before the outcome is looked at.
abbrev pub attempt_snapshot : Attempt → Snapshot
attempt_snapshot a = record zero_snapshot {
  attempted = true;
  exit_code = a.exit_code;
  duration = a.now - a.start;
  error = a.error;
}

-- collectOnce: the snapshot, and the error that `onFatal` is called with. `on_fatal` tells whether
-- that callback is set.
unfoldable pub collect_once : Bool → Attempt → Snapshot × Option CollectError
unfolding is_fatal
collect_once on_fatal a = elim a.error [
  | some e ↦
      let call = if not a.expired && on_fatal && is_fatal e then some e else none in
      (attempt_snapshot a, call)
  | none ↦
      let snapshot = record (attempt_snapshot a) {
        success = true;
        table = a.reading.table;
        apps = a.reading.apps;
        apps_attempted = a.reading.apps_attempted;
        apps_success = a.reading.apps_success;
        extras = a.reading.extras;
        last_success = a.now;
      } in
      (snapshot, none)
]

-- The counters that a source owns: a uint64 and a time.
pub record Counters : Type 0 where
  pub failures : ℕ
  pub last_ok : Time

abbrev pub no_counters : Counters
no_counters = record { failures = 0; last_ok = 0 }

-- foldCumulative
unfoldable pub fold_cumulative : Snapshot → Counters → Snapshot × Counters
fold_cumulative snapshot c =
    let last_ok = if snapshot.success then snapshot.last_success else c.last_ok in
    let failures = if snapshot.success then c.failures else (c.failures + 1) % 2 ^ 64 in
    (
      record snapshot { failures = failures; last_success = last_ok },
      record { failures = failures; last_ok = last_ok },
    )
