-- ===== src/Collect/Cached.antt =====
-- internal/collect/cached.go: the source that collects in the background. The ticker and the
-- context are the list of the attempts that are made before the context ends.
pub mod Runs
mod Examples
use nvidia_gpu_exporter.Collect.{
  CollectError, Snapshot, zero_snapshot, Attempt, collect_once, Counters, no_counters,
  fold_cumulative,
}
use nvidia_gpu_exporter.Common.{
  if◌then◌else◌, Bool, true, false, Option, none, some, List, [], ◌∷◌, list_comparable,
  nat_comparable,
}

pub record Cached : Type 0 where
  pub on_fatal : Bool
  pub cur : Option Snapshot
  pub started : Bool
  pub counters : Counters

-- NewCached
abbrev pub new_cached : Bool → Cached
new_cached on_fatal = record {
  on_fatal = on_fatal;
  cur = none;
  started = false;
  counters = no_counters;
}

-- Latest
unfoldable pub latest : Cached → Snapshot
latest s = elim s.cur [ some snapshot ↦ snapshot | none ↦ zero_snapshot ]

-- tick: the source behind it, and the error that `onFatal` was called with.
unfoldable pub tick : Cached → Attempt → Cached × Option CollectError
tick s a =
    let outcome = collect_once s.on_fatal a in
    let folded = fold_cumulative outcome.0 s.counters in
    (record s { cur = some folded.0; counters = folded.1 }, outcome.1)

abbrev pub add_call : Option CollectError → List CollectError → List CollectError
add_call none calls = calls
add_call (some e) calls = e ∷ calls

-- The ticks, and the calls of `onFatal` in their order.
unfoldable pub ticks : Cached → List Attempt → Cached × List CollectError
unfolding tick
ticks s [] = (s, [])
ticks s (a ∷ more) =
    let ticked = tick s a in let rest = ticks ticked.0 more in (rest.0, add_call ticked.1 rest.1)

-- Run, up to the end of its context: `first` is the attempt that warms the cache. A source that was
-- started already returns an error.
unfoldable pub run : Cached → Attempt → List Attempt → Option (Cached × List CollectError)
unfolding ticks
run s first more =
    if s.started then none else some (ticks (record s { started = true }) (first ∷ more))
