-- ===== src/Collect/Live/Joining.antt =====
-- internal/collect/live.go: what `join` keeps.
use nvidia_gpu_exporter.Collect.Live.{join, Flight, new_flight, Live, update, board}
use nvidia_gpu_exporter.Collect.Live.Tracked.{
  IsTracked, IsShared, update_hit, update_miss, update-IsTracked,
}
use nvidia_gpu_exporter.Common.{
  Option-cases, ℕ, ◌+◌, ◌≡◌, refl, sym, ap, ◌≢◌, inl, inr, none, some, arith, list_comparable,
  nat_comparable,
}

boarded-IsTracked :
    (next i : ℕ) (f : Flight) (n : ℕ)
    → IsTracked (some i) next i f n
    → IsTracked (some i) next i (record f { waiters = f.waiters + 1 }) (n + 1)
boarded-IsTracked next i f n h =
    let slot = h.in_slot refl in
    record {
      counted = λ a. ap (λ k. k + 1) (h.counted a);
      bounded = omega (arith, h.bounded);
      unstarted = λ g. omega (arith, slot.0, g);
      in_slot = λ e. (slot.0, slot.1, slot.2, omega arith);
      running = λ a b c. refl;
      abandoned = λ a b. let alive = slot.2 in cc;
    }

board-IsShared :
    (s : Live) (k : ℕ) (n m : ℕ → ℕ)
    → s.inflight ≡ some k
    → IsShared s n
    → m k ≡ n k + 1
    → ((i : ℕ) → i ≢ k → m i ≡ n i)
    → IsShared (board s k) m
board-IsShared s k n m e h more same =
    let f = s.flights k in
    update-IsTracked s.inflight s.next k (record f { waiters = f.waiters + 1 }) s.flights m
      (rw (more, e) (boarded-IsTracked s.next k f (n k) (rw (sym e) (h k))))
      (λ i g. rw (same i g) (h i))

started-IsTracked :
    (next : ℕ) → IsTracked (some next) (next + 1) next (record new_flight { waiters = 1 }) 1
started-IsTracked next = record {
  counted = λ a. refl;
  bounded = omega arith;
  unstarted = λ g. omega arith;
  in_slot = λ e. (omega arith, refl, refl, omega arith);
  running = λ a b c. refl;
  abandoned = λ a b. cc;
}

-- The other flights when a run is started in an empty slot.
others-IsTracked :
    (next i : ℕ) (f : Flight) (n : ℕ)
    → i ≢ next
    → IsTracked none next i f n
    → IsTracked (some next) (next + 1) i f n
others-IsTracked next i f n ne h = record {
  counted = h.counted;
  bounded = h.bounded;
  unstarted = λ g. h.unstarted (omega arith);
  in_slot = λ e. let g : i ≡ next = cc in elim (ne g) [ ];
  running = λ a b c. let g : none ≡ some i = h.running (ground arith) b c in cc;
  abandoned = h.abandoned;
}

-- `join` on an empty slot, before the caller boards.
abbrev pub start : Live → Live
start s = record s {
  inflight = some s.next;
  next = s.next + 1;
  flights = update s.next new_flight s.flights;
}

board_start-IsShared :
    (s : Live) (n m : ℕ → ℕ)
    → s.inflight ≡ none
    → IsShared s n
    → m s.next ≡ n s.next + 1
    → ((i : ℕ) → i ≢ s.next → m i ≡ n i)
    → IsShared (board (start s) s.next) m
board_start-IsShared s n m e h more same =
    let fresh = update_hit s.next new_flight s.flights in
    let nobody : n s.next ≡ 0 = (h s.next).unstarted (omega arith) in
    update-IsTracked (some s.next) (s.next + 1) s.next
      (record (update s.next new_flight s.flights s.next) {
        waiters = (update s.next new_flight s.flights s.next).waiters + 1;
      })
      (update s.next new_flight s.flights) m (rw (fresh, more, nobody) (started-IsTracked s.next))
      (λ i g.
        rw (update_miss s.next new_flight s.flights i g, same i g)
          (others-IsTracked s.next i (s.flights i) (n i) g (rw (sym e) (h i))))

pub join-some : (s : Live) (k : ℕ) → s.inflight ≡ some k → join s ≡ (board s k, k)
unfolding join
join-some s k e = rw e refl

pub join-none : (s : Live) → s.inflight ≡ none → join s ≡ (board (start s) s.next, s.next)
unfolding join
join-none s e = rw e refl

pub join-IsShared :
    (s : Live) (n m : ℕ → ℕ)
    → IsShared s n
    → m (join s).1 ≡ n (join s).1 + 1
    → ((i : ℕ) → i ≢ (join s).1 → m i ≡ n i)
    → IsShared (join s).0 m
join-IsShared s n m h more same = elim (Option-cases s.inflight) [
  | inl e ↦
      rw (join-none s e)
        (board_start-IsShared s n m e h (rw (join-none s e) at more) (rw (join-none s e) at same))
  | inr (k, e) ↦
      rw (join-some s k e)
        (board-IsShared s k n m e h (rw (join-some s k e) at more) (rw (join-some s k e) at same))
]
