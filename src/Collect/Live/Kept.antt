-- ===== src/Collect/Live/Kept.antt =====
-- internal/collect/live.go: the snapshots and counters that `join`, `leave` and `run` keep.
use nvidia_gpu_exporter.Collect.{Snapshot, Attempt, collect_once, Counters, fold_cumulative}
use nvidia_gpu_exporter.Collect.Live.{
  join, Flight, new_flight, Live, update, board, is_inflight, leave, finish,
}
use nvidia_gpu_exporter.Collect.Live.Joining.{start, join-some, join-none}
use nvidia_gpu_exporter.Collect.Live.Landing.{published, finish_live}
use nvidia_gpu_exporter.Collect.Live.Tracked.{nat_same_self}
use nvidia_gpu_exporter.Collect.Totals.{totals, report, fold_cumulative-collect_once}
use nvidia_gpu_exporter.Common.{
  nat_same, nat_same_iff, Bool-cases, Option-cases, ℕ, ◌+◌, ◌-◌, ◌≡◌, refl, ap, ◌∙◌, ◌⊎◌, inl, inr,
  true, ◌&&◌, some, List, [], ◌∷◌, ◌++◌, list_comparable, nat_comparable,
}

-- A flight that is replaced by one with the same snapshot, or with none.
update_kept :
    (k : ℕ) (f : Flight) (flights : ℕ → Flight) (i : ℕ) (snapshot : Snapshot)
    → (f.snapshot ≡ some snapshot → (flights k).snapshot ≡ some snapshot)
    → (update k f flights i).snapshot ≡ some snapshot
    → (flights i).snapshot ≡ some snapshot
update_kept k f flights i snapshot keep e = elim (Bool-cases (nat_same i k)) [
  | inl g ↦
      let there : i ≡ k = (nat_same_iff i k).0 g in
      rw there (keep (rw (there, nat_same_self k) at e))
  | inr g ↦ rw g at e
]

board_kept :
    (s : Live) (k i : ℕ) (snapshot : Snapshot)
    → ((board s k).flights i).snapshot ≡ some snapshot
    → (s.flights i).snapshot ≡ some snapshot
board_kept s k i snapshot e =
    update_kept k (record (s.flights k) { waiters = (s.flights k).waiters + 1 }) s.flights i
      snapshot (λ g. g) e

pub join_kept :
    (s : Live) (i : ℕ) (snapshot : Snapshot)
    → ((join s).0.flights i).snapshot ≡ some snapshot
    → (s.flights i).snapshot ≡ some snapshot
join_kept s i snapshot e = elim (Option-cases s.inflight) [
  | inl g ↦
      update_kept s.next new_flight s.flights i snapshot (λ e. cc)
        (board_kept (start s) s.next i snapshot (rw (join-none s g) at e))
  | inr (k, g) ↦ board_kept s k i snapshot (rw (join-some s k g) at e)
]

pub join_counters : (s : Live) → (join s).0.counters ≡ s.counters
join_counters s = elim (Option-cases s.inflight) [
  | inl g ↦ rw (join-none s g) refl
  | inr (k, g) ↦ rw (join-some s k g) refl
]

pub leave_kept :
    (s : Live) (k i : ℕ) (snapshot : Snapshot)
    → ((leave s k).flights i).snapshot ≡ some snapshot
    → (s.flights i).snapshot ≡ some snapshot
unfolding leave
leave_kept s k i snapshot e =
    let w = (s.flights k).waiters - 1 in
    elim (Bool-cases (nat_same w 0 && is_inflight s.inflight k)) [
      | inl t ↦
          update_kept k (record (s.flights k) { waiters = w; cancelled = true }) s.flights i
            snapshot (λ g. g) (rw t at e)
      | inr t ↦
          update_kept k (record (s.flights k) { waiters = w }) s.flights i snapshot (λ g. g)
            (rw t at e)
    ]

pub leave_counters : (s : Live) (k : ℕ) → (leave s k).counters ≡ s.counters
unfolding leave
leave_counters s k =
    elim (Bool-cases (nat_same ((s.flights k).waiters - 1) 0 && is_inflight s.inflight k)) [
      | inl t ↦ rw t refl
      | inr t ↦ rw t refl
    ]

-- A flight holds what it held, or the snapshot of the run that ended.
pub finish_kept :
    (s : Live) (k : ℕ) (a : Attempt) (i : ℕ) (snapshot : Snapshot)
    → ((finish s k a).0.flights i).snapshot ≡ some snapshot
    → ((s.flights i).snapshot ≡ some snapshot) ⊎ (snapshot ≡ published s a)
finish_kept s k a i snapshot e =
    let flown = rw (finish_live s k a) at e in
    elim (Bool-cases (nat_same i k)) [
      | inl g ↦ let held = rw g at flown in inr (cc)
      | inr g ↦ inl (rw g at flown)
    ]

pub published-report :
    (s : Live) (attempts : List Attempt) (a : Attempt)
    → s.counters ≡ totals attempts
    → published s a ≡ report a (totals (attempts ++ a ∷ []))
published-report s attempts a e =
    ap (λ c. (fold_cumulative (collect_once s.on_fatal a).0 c).0) e
    ∙ ap (λ (p : Snapshot × Counters). p.0) (fold_cumulative-collect_once s.on_fatal attempts a)

pub finish_counters :
    (s : Live) (k : ℕ) (attempts : List Attempt) (a : Attempt)
    → s.counters ≡ totals attempts
    → (finish s k a).0.counters ≡ totals (attempts ++ a ∷ [])
finish_counters s k attempts a e =
    rw (finish_live s k a, e, fold_cumulative-collect_once s.on_fatal attempts a) refl
