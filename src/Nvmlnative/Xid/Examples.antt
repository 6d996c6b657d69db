-- ===== src/Nvmlnative/Xid/Examples.antt =====
-- Four events of two devices. The first was registered from the start, the second only before the
-- latest event.
use nvidia_gpu_exporter.Collect.{Time}
use nvidia_gpu_exporter.Common.{
  filter, lookup, insert, ℕ, ◌≡◌, refl, List, [], ◌∷◌, list_comparable, nat_comparable,
}
use nvidia_gpu_exporter.Nvmlnative.Xid.{XidEvent, record_xid, counts}
use nvidia_gpu_exporter.Nvmlnative.Xid.Tallied.{
  stat_of, Received, recorded, is_of, tally, recorded-tally,
}
use nvidia_gpu_exporter.Text.{Text, codes}

abbrev first_uuids : List (ℕ × Text)
first_uuids = (4, codes "a") ∷ []

abbrev later_uuids : List (ℕ × Text)
later_uuids = (4, codes "a") ∷ (5, codes "b") ∷ []

abbrev event : ℕ → ℕ → Time → XidEvent
event device xid at = record { device = device; xid = xid; at = at }

abbrev events : List Received
events =
    (later_uuids, event 5 79 40)
    ∷ (first_uuids, event 4 79 30)
    ∷ (first_uuids, event 5 79 20)
    ∷ (first_uuids, event 4 79 10)
    ∷ []

recorded-tally_example :
    stat_of (recorded events) (codes "a") 79 ≡ tally (filter (is_of (codes "a") 79) events)
recorded-tally_example = recorded-tally events (codes "a") 79

counts_test :
    counts (recorded events)
    ≡ record { uuid = codes "a"; xid = 79; count = 2; last_seen = 30 }
      ∷ record { uuid = codes "b"; xid = 79; count = 1; last_seen = 40 }
      ∷ record { uuid = codes "unknown"; xid = 79; count = 1; last_seen = 20 }
      ∷ []
unfolding counts record_xid nvidia_gpu_exporter.Common.lookup nvidia_gpu_exporter.Common.insert
counts_test = refl
