-- ===== src/Nvmlnative/Xid/Tallied.antt =====
-- internal/nvmlnative/xid_nvml.go: what is counted of the events.
use nvidia_gpu_exporter.Collect.{Time}
use nvidia_gpu_exporter.Common.{
  if◌then◌else◌, nat_same_iff, Bool-cases, Option-cases, length, filter, lookup, insert,
  lookup-insert, ◌==◌, list_same_iff, ℕ, ◌+◌, ◌%◌, ◌^◌, ◌≡◌, refl, ◌∙◌, inl, inr, Bool, ◌&&◌,
  Option, none, some, List, [], ◌∷◌, arith, list_comparable, nat_comparable,
}
use nvidia_gpu_exporter.Nvmlnative.Xid.{
  XidStat, XidStats, per_gpu_or_empty, count_of, bump, XidEvent, uuid_of, record_xid,
}
use nvidia_gpu_exporter.Text.{Text, codes}

-- What is kept of an XID of a GPU.
abbrev pub stat_of : XidStats → Text → ℕ → Option XidStat
stat_of stats uuid xid = lookup xid (per_gpu_or_empty (lookup uuid stats))

-- An event, with the devices of the registration under which it was received.
abbrev pub Received : Type 0
Received = List (ℕ × Text) × XidEvent

-- What is kept once the events were recorded, the latest of which comes first.
abbrev pub recorded : List Received → XidStats
recorded [] = []
recorded ((uuids, event) ∷ earlier) = record_xid uuids event (recorded earlier)

-- The GPU that an event counts for, from what is registered of its device.
abbrev pub label_of : Option Text → Text
label_of none = codes "unknown"
label_of (some []) = codes "unknown"
label_of (some (c ∷ uuid)) = c ∷ uuid

abbrev pub is_of : Text → ℕ → Received → Bool
is_of uuid xid (uuids, event) = label_of (lookup event.device uuids) == uuid && event.xid == xid

-- The number of the events as a uint64, and when the latest one was received.
abbrev pub tally : List Received → Option XidStat
tally [] = none
tally ((uuids, event) ∷ earlier) =
    some (record { count = (length earlier + 1) % 2 ^ 64; last = event.at })

uuid_of-label_of :
    (uuids : List (ℕ × Text)) (device : ℕ) → uuid_of uuids device ≡ label_of (lookup device uuids)
unfolding uuid_of
uuid_of-label_of uuids device = elim (Option-cases (lookup device uuids)) [
  | inl e ↦ rw (e, uuid_of) refl
  | inr ([], e) ↦ rw (e, uuid_of) refl
  | inr (c ∷ uuid, e) ↦ rw (e, uuid_of) refl
]

stat_of-bump :
    (uuid : Text) (xid : ℕ) (at : Time) (stats : XidStats) (u : Text) (x : ℕ)
    → stat_of (bump uuid xid at stats) u x ≡ (
        if uuid == u && xid == x
        then some (record { count = (count_of (stat_of stats u x) + 1) % 2 ^ 64; last = at })
        else stat_of stats u x)
unfolding bump
stat_of-bump uuid xid at stats u x =
    let per_gpu = per_gpu_or_empty (lookup uuid stats) in
    let stat : XidStat = record {
      count = (count_of (lookup xid per_gpu) + 1) % 2 ^ 64;
      last = at;
    } in
    elim (Bool-cases (uuid == u)) [
      | inl e ↦
          let same : uuid ≡ u = (list_same_iff uuid u).0 e in
          rw (lookup-insert uuid u (insert xid stat per_gpu) stats, e)
            (rw (lookup-insert xid x stat per_gpu) (elim (Bool-cases (xid == x)) [
              | inl f ↦ rw f (rw (same, (nat_same_iff xid x).0 f) refl)
              | inr f ↦ rw f (rw same refl)
            ]))
      | inr e ↦ rw (lookup-insert uuid u (insert xid stat per_gpu) stats, e) refl
    ]

count_of-tally :
    (events : List Received) → (count_of (tally events) + 1) % 2 ^ 64 ≡ (length events + 1) % 2 ^ 64
count_of-tally [] = refl
count_of-tally (event ∷ events) = omega arith

-- Whatever events are recorded, each under the registration of its time, of each XID of each GPU
-- there is the number of its events, as a uint64, and the time of the latest; and nothing where
-- there was none. An event counts for the GPU whose uuid was registered for its device, and for the
-- GPU "unknown" where none, or an empty one, was.
pub recorded-tally :
    (events : List Received) (uuid : Text) (xid : ℕ)
    → stat_of (recorded events) uuid xid ≡ tally (filter (is_of uuid xid) events)
unfolding lookup record_xid
recorded-tally [] uuid xid = refl
recorded-tally ((uuids, event) ∷ earlier) uuid xid =
    let before = recorded-tally earlier uuid xid in
    let some_events = filter (is_of uuid xid) earlier in
    stat_of-bump (uuid_of uuids event.device) event.xid event.at (recorded earlier) uuid xid
    ∙ rw (uuid_of-label_of uuids event.device) (elim (Bool-cases (is_of uuid xid (uuids, event))) [
      | inl e ↦ rw (e, before, count_of-tally some_events) refl
      | inr e ↦ rw (e, before) refl
    ])
