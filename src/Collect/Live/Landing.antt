-- ===== src/Collect/Live/Landing.antt =====
-- internal/collect/live.go: what the end of a run keeps.
use nvidia_gpu_exporter.Collect.{Snapshot, Attempt, collect_once, fold_cumulative}
use nvidia_gpu_exporter.Collect.Live.{Flight, Live, update, is_inflight, finish}
use nvidia_gpu_exporter.Collect.Live.Leaving.{is_inflight_iff, emptied-IsTracked}
use nvidia_gpu_exporter.Collect.Live.Tracked.{IsTracked, IsShared, update-IsTracked}
use nvidia_gpu_exporter.Common.{
  if◌then◌else◌, Bool-cases, ℕ, ◌≡◌, refl, sym, ◌≢◌, inl, inr, true, Option, none, some,
  list_comparable, nat_comparable,
}

-- The flight that landed, when the slot is not its.
landed-IsTracked :
    (slot : Option ℕ) (next k : ℕ) (f : Flight) (n : ℕ) (snapshot : Snapshot)
    → slot ≢ some k
    → IsTracked slot next k f n
    → IsTracked slot next k (record f { snapshot = some snapshot; cancelled = true }) n
landed-IsTracked slot next k f n snapshot ne h = record {
  counted = λ a. cc;
  bounded = h.bounded;
  unstarted = h.unstarted;
  in_slot = λ e. elim (ne e) [ ];
  running = λ a b c. cc;
  abandoned = λ a b. cc;
}

-- The same when it was.
landed_slot-IsTracked :
    (next k : ℕ) (f : Flight) (n : ℕ) (snapshot : Snapshot)
    → IsTracked (some k) next k f n
    → IsTracked none next k (record f { snapshot = some snapshot; cancelled = true }) n
landed_slot-IsTracked next k f n snapshot h = record {
  counted = λ a. cc;
  bounded = h.bounded;
  unstarted = h.unstarted;
  in_slot = λ e. cc;
  running = λ a b c. cc;
  abandoned = λ a b. cc;
}

-- The snapshot that a run of flight publishes.
abbrev pub published : Live → Attempt → Snapshot
published s a = (fold_cumulative (collect_once s.on_fatal a).0 s.counters).0

pub finish_live :
    (s : Live) (k : ℕ) (a : Attempt)
    → (finish s k a).0 ≡ record s {
      inflight = if is_inflight s.inflight k then none else s.inflight;
      counters = (fold_cumulative (collect_once s.on_fatal a).0 s.counters).1;
      flights =
          update k
            (record (s.flights k) { snapshot = some (published s a); cancelled = true })
            s.flights;
    }
unfolding finish
finish_live s k a = refl

pub finish-IsShared :
    (s : Live) (k : ℕ) (a : Attempt) (n : ℕ → ℕ) → IsShared s n → IsShared (finish s k a).0 n
finish-IsShared s k a n h = elim (Bool-cases (is_inflight s.inflight k)) [
  | inl t ↦
      let e : s.inflight ≡ some k = (is_inflight_iff s.inflight k).0 t in
      rw (finish_live s k a, t)
        (update-IsTracked none s.next k
          (record (s.flights k) { snapshot = some (published s a); cancelled = true }) s.flights n
          (landed_slot-IsTracked s.next k (s.flights k) (n k) (published s a) (rw (sym e) (h k)))
          (λ i g. emptied-IsTracked s.next k i (s.flights i) (n i) g (rw (sym e) (h i))))
  | inr t ↦
      let ne : s.inflight ≢ some k = λ e. (let held = (is_inflight_iff s.inflight k).1 e in cc) in
      rw (finish_live s k a, t)
        (update-IsTracked s.inflight s.next k
          (record (s.flights k) { snapshot = some (published s a); cancelled = true }) s.flights n
          (landed-IsTracked s.inflight s.next k (s.flights k) (n k) (published s a) ne (h k))
          (λ i g. h i))
]
