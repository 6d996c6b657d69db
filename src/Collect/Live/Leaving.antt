-- ===== src/Collect/Live/Leaving.antt =====
-- internal/collect/live.go: what `leave` keeps.
use nvidia_gpu_exporter.Collect.Live.{Flight, Live, update, is_inflight, leave}
use nvidia_gpu_exporter.Collect.Live.Tracked.{IsTracked, IsShared, nat_same_self, update-IsTracked}
use nvidia_gpu_exporter.Common.{
  nat_same, nat_same_iff, Bool-cases, ℕ, ◌+◌, ◌-◌, ◌≤◌, ◌≡◌, refl, sym, ap, ◌≢◌, ◌↔◌, inl, inr,
  Bool, true, false, ◌&&◌, Option, none, some, arith, list_comparable, nat_comparable,
}

pub is_inflight_iff : (slot : Option ℕ) (i : ℕ) → (is_inflight slot i ≡ true) ↔ (slot ≡ some i)
is_inflight_iff none i = (λ h. cc, λ h. cc)
is_inflight_iff (some j) i = (λ h. ap some ((nat_same_iff j i).0 h), λ h. (nat_same_iff j i).1 (cc))

-- The last one out.
leave_last :
    (s : Live) (k : ℕ)
    → (s.flights k).waiters ≡ 1
    → s.inflight ≡ some k
    → leave s k ≡ record s {
      inflight = none;
      flights = update k (record (s.flights k) { waiters = 0; cancelled = true }) s.flights;
    }
unfolding leave
leave_last s k w e = rw (w, e, nat_same_self k) refl

leave_other :
    (s : Live) (k : ℕ)
    → nat_same ((s.flights k).waiters - 1) 0 && is_inflight s.inflight k ≡ false
    → leave s k ≡ record s {
      flights = update k (record (s.flights k) { waiters = (s.flights k).waiters - 1 }) s.flights;
    }
unfolding leave
leave_other s k h = rw h refl

left_last-IsTracked :
    (next k : ℕ) (f : Flight) (n : ℕ)
    → IsTracked (some k) next k f n
    → IsTracked none next k (record f { waiters = 0; cancelled = true }) 0
left_last-IsTracked next k f n h = record {
  counted = λ a. refl;
  bounded = omega arith;
  unstarted = λ g. refl;
  in_slot = λ e. cc;
  running = λ a b c. cc;
  abandoned = λ a b. refl;
}

-- The other flights when the slot is emptied.
pub emptied-IsTracked :
    (next k i : ℕ) (f : Flight) (n : ℕ)
    → i ≢ k
    → IsTracked (some k) next i f n
    → IsTracked none next i f n
emptied-IsTracked next k i f n ne h = record {
  counted = h.counted;
  bounded = h.bounded;
  unstarted = h.unstarted;
  in_slot = λ e. cc;
  running =
      λ a b c. let g : i ≡ k = (let e : some k ≡ some i = h.running a b c in cc) in elim (ne g) [ ];
  abandoned = h.abandoned;
}

-- A caller leaves, and the slot keeps what it holds.
left_other-IsTracked :
    (slot : Option ℕ) (next k : ℕ) (f : Flight) (m n : ℕ)
    → n ≡ m + 1
    → (slot ≡ some k → 1 ≤ m)
    → IsTracked slot next k f n
    → IsTracked slot next k (record f { waiters = f.waiters - 1 }) m
left_other-IsTracked slot next k f m n less still h = record {
  counted = λ a. omega (arith, h.counted a);
  bounded = omega (arith, h.bounded);
  unstarted = λ g. omega (arith, h.unstarted g);
  in_slot =
      λ e. let slot_facts = h.in_slot e in (slot_facts.0, slot_facts.1, slot_facts.2, still e);
  running = h.running;
  abandoned = λ a b. omega (arith, h.abandoned a b);
}

and_true : (a b : Bool) → a && b ≡ true → (a ≡ true) × (b ≡ true)
and_true true true h = (refl, refl)
and_true true false h = cc
and_true false b h = cc

leave_slot-IsShared :
    (s : Live) (k : ℕ) (n m : ℕ → ℕ)
    → s.inflight ≡ some k
    → (s.flights k).waiters ≡ 1
    → IsShared s n
    → n k ≡ m k + 1
    → ((i : ℕ) → i ≢ k → m i ≡ n i)
    → IsShared (leave s k) m
leave_slot-IsShared s k n m e w h less same =
    let nobody : m k ≡ 0 = omega (arith, (h k).counted ((h k).in_slot e).1) in
    rw (leave_last s k w e) (
      update-IsTracked none s.next k (record (s.flights k) { waiters = 0; cancelled = true })
        s.flights m
        (rw nobody (left_last-IsTracked s.next k (s.flights k) (n k) (rw (sym e) (h k))))
        (λ i g.
          rw (same i g) (emptied-IsTracked s.next k i (s.flights i) (n i) g (rw (sym e) (h i)))))

leave_keep-IsShared :
    (s : Live) (k : ℕ) (n m : ℕ → ℕ)
    → nat_same ((s.flights k).waiters - 1) 0 && is_inflight s.inflight k ≡ false
    → IsShared s n
    → n k ≡ m k + 1
    → ((i : ℕ) → i ≢ k → m i ≡ n i)
    → IsShared (leave s k) m
leave_keep-IsShared s k n m t h less same =
    let still : s.inflight ≡ some k → 1 ≤ m k = λ e.
      let held = (is_inflight_iff s.inflight k).1 e in
      (let exact = (h k).counted ((h k).in_slot e).1 in ground arith) in
    rw (leave_other s k t) (
      update-IsTracked s.inflight s.next k
        (record (s.flights k) { waiters = (s.flights k).waiters - 1 }) s.flights m
        (left_other-IsTracked s.inflight s.next k (s.flights k) (m k) (n k) less still (h k))
        (λ i g. rw (same i g) (h i)))

pub leave-IsShared :
    (s : Live) (k : ℕ) (n m : ℕ → ℕ)
    → IsShared s n
    → n k ≡ m k + 1
    → ((i : ℕ) → i ≢ k → m i ≡ n i)
    → IsShared (leave s k) m
leave-IsShared s k n m h less same =
    elim (Bool-cases (nat_same ((s.flights k).waiters - 1) 0 && is_inflight s.inflight k)) [
      | inl t ↦
          let both =
            and_true (nat_same ((s.flights k).waiters - 1) 0) (is_inflight s.inflight k) t in
          let w : (s.flights k).waiters ≡ 1 =
            (let gone = (nat_same_iff ((s.flights k).waiters - 1) 0).0 both.0 in
              omega (arith, (h k).bounded)) in
          leave_slot-IsShared s k n m ((is_inflight_iff s.inflight k).0 both.1) w h less same
      | inr t ↦ leave_keep-IsShared s k n m t h less same
    ]
