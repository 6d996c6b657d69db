-- ===== src/Collect/Live.antt =====
-- internal/collect/live.go: the source that collects when it is asked. The flights are a heap
-- from the numbers below `next`, in the order in which they were started. The lock is what makes
-- each of these functions one step.
pub mod Steps
pub mod Tracked
pub mod Joining
pub mod Leaving
pub mod Landing
pub mod Sharing
pub mod Kept
pub mod Accounts
mod Examples
use nvidia_gpu_exporter.Collect.{
  CollectError, Snapshot, zero_snapshot, Attempt, collect_once, Counters, no_counters,
  fold_cumulative,
}
use nvidia_gpu_exporter.Common.{
  nat_same, if◌then◌else◌, ℕ, ◌+◌, ◌-◌, Bool, true, false, ◌&&◌, Option, none, some,
  list_comparable, nat_comparable,
}

-- `done` is closed when there is a snapshot. `cancelled` is whether the context of the run is.
pub record Flight : Type 0 where
  pub snapshot : Option Snapshot
  pub cancelled : Bool
  pub waiters : ℕ

abbrev pub new_flight : Flight
new_flight = record { snapshot = none; cancelled = false; waiters = 0 }

pub record Live : Type 0 where
  pub on_fatal : Bool
  pub inflight : Option ℕ
  pub counters : Counters
  pub next : ℕ
  pub flights : ℕ → Flight

-- NewLive
abbrev pub new_live : Bool → Live
new_live on_fatal = record {
  on_fatal = on_fatal;
  inflight = none;
  counters = no_counters;
  next = 0;
  flights = λ i. new_flight;
}

abbrev pub update : ℕ → Flight → (ℕ → Flight) → ℕ → Flight
update i f flights j = if nat_same j i then f else flights j

-- s.inflight.waiters++, on the flight `i`
abbrev pub board : Live → ℕ → Live
board s i =
    let f = s.flights i in
    record s { flights = update i (record f { waiters = f.waiters + 1 }) s.flights }

-- join: the flight that the caller waits on comes second.
unfoldable pub join : Live → Live × ℕ
join s = elim s.inflight [
  | some i ↦ (board s i, i)
  | none ↦
      let i = s.next in
      let started = record s {
        inflight = some i;
        next = i + 1;
        flights = update i new_flight s.flights;
      } in
      (board started i, i)
]

-- s.inflight == shared
abbrev pub is_inflight : Option ℕ → ℕ → Bool
is_inflight none i = false
is_inflight (some j) i = nat_same j i

-- leave. The flight has a waiter, the caller.
unfoldable pub leave : Live → ℕ → Live
leave s i =
    let f = s.flights i in
    let left = record f { waiters = f.waiters - 1 } in
    if nat_same left.waiters 0 && is_inflight s.inflight i
    then record s {
      inflight = none;
      flights = update i (record left { cancelled = true }) s.flights;
    }
    else record s { flights = update i left s.flights }

-- run, from the collection on, with its deferred cancel: the source behind it, and the error that
-- `onFatal` was called with.
unfoldable pub finish : Live → ℕ → Attempt → Live × Option CollectError
finish s i a =
    let outcome = collect_once s.on_fatal a in
    let folded = fold_cumulative outcome.0 s.counters in
    let f = s.flights i in
    let landed = record f { snapshot = some folded.0; cancelled = true } in
    (
      record s {
        inflight = if is_inflight s.inflight i then none else s.inflight;
        counters = folded.1;
        flights = update i landed s.flights;
      },
      outcome.1,
    )

-- noResult
unfoldable pub no_result : Live → Snapshot
no_result s = record zero_snapshot {
  failures = s.counters.failures;
  last_success = s.counters.last_ok;
}
