-- ===== src/Nvmlnative/Xid.antt =====
-- internal/nvmlnative/xid_nvml.go: the counts of the XID errors that were observed, behind their lock.
-- Log lines are left out. A device is its handle.
pub mod Tallied
mod Examples
use nvidia_gpu_exporter.Collect.{Time}
use nvidia_gpu_exporter.Common.{
  leb, if◌then◌else◌, lookup, insert, ◌==◌, ℕ, ◌+◌, ◌%◌, ◌^◌, Bool, Option, none, some, List, [],
  ◌∷◌, ◌++◌, list_comparable, nat_comparable,
}
use nvidia_gpu_exporter.Exporter.Claims.{text_leb}
use nvidia_gpu_exporter.Exporter.Render.{XidCounter}
use nvidia_gpu_exporter.Nvidiasmi.ComputeApps.{last}
use nvidia_gpu_exporter.Text.{Text, codes}

-- xidStat
pub record XidStat : Type 0 where
  pub count : ℕ
  pub last : Time

-- xidAccumulator.stats
abbrev pub XidStats : Type 0
XidStats = List (Text × List (ℕ × XidStat))

abbrev pub per_gpu_or_empty : Option (List (ℕ × XidStat)) → List (ℕ × XidStat)
per_gpu_or_empty none = []
per_gpu_or_empty (some per_gpu) = per_gpu

abbrev pub count_of : Option XidStat → ℕ
count_of none = 0
count_of (some stat) = stat.count

-- bump
unfoldable pub bump : Text → ℕ → Time → XidStats → XidStats
bump uuid xid at stats =
    let per_gpu = per_gpu_or_empty (lookup uuid stats) in
    let stat : XidStat = record {
      count = (count_of (lookup xid per_gpu) + 1) % 2 ^ 64;
      last = at;
    } in
    insert uuid (insert xid stat per_gpu) stats

-- nvml.EventData, and when it was received.
pub record XidEvent : Type 0 where
  pub device : ℕ
  pub xid : ℕ
  pub at : Time

-- The label of a device: one that was not registered is "unknown".
unfoldable pub uuid_of : List (ℕ × Text) → ℕ → Text
uuid_of uuids device = elim (lookup device uuids) [
  | none ↦ codes "unknown"
  | some uuid ↦ if uuid == [] then codes "unknown" else uuid
]

-- recordXID
unfoldable pub record_xid : List (ℕ × Text) → XidEvent → XidStats → XidStats
unfolding bump uuid_of
record_xid uuids event stats = bump (uuid_of uuids event.device) event.xid event.at stats

-- The counters of one GPU.
unfoldable pub counters_of : Text → List (ℕ × XidStat) → List XidCounter
counters_of uuid [] = []
counters_of uuid ((xid, stat) ∷ per_gpu) =
    record { uuid = uuid; xid = xid; count = stat.count; last_seen = stat.last }
    ∷ counters_of uuid per_gpu

-- The two loops of counts.
unfoldable pub all_counters : XidStats → List XidCounter
unfolding counters_of
all_counters [] = []
all_counters ((uuid, per_gpu) ∷ stats) = counters_of uuid per_gpu ++ all_counters stats

-- Whether the first counter does not stand behind the second.
abbrev pub counter_leb : XidCounter → XidCounter → Bool
counter_leb c d = if c.uuid == d.uuid then leb c.xid d.xid else text_leb c.uuid d.uuid

unfoldable pub insert_counter : XidCounter → List XidCounter → List XidCounter
unfolding text_leb
insert_counter c [] = c ∷ []
insert_counter c (d ∷ counters) =
    let later = insert_counter c counters in if counter_leb c d then c ∷ d ∷ counters else d ∷ later

unfoldable pub sort_counters : List XidCounter → List XidCounter
unfolding insert_counter
sort_counters [] = []
sort_counters (c ∷ counters) = insert_counter c (sort_counters counters)

-- counts
unfoldable pub counts : XidStats → List XidCounter
unfolding all_counters sort_counters
counts stats = sort_counters (all_counters stats)
