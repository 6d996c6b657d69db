-- ===== src/Collect/Live/Tracked.antt =====
-- internal/collect/live.go: what holds of every flight. `n` is the number of callers that wait on
-- each of them.
use nvidia_gpu_exporter.Collect.Live.{Flight, Live, update}
use nvidia_gpu_exporter.Common.{
  nat_same, nat_same_iff, Bool-cases, ℕ, ◌≤◌, ◌<◌, ◌≡◌, refl, ◌≢◌, inl, inr, true, false, Option,
  none, some, list_comparable, nat_comparable,
}

-- Of the flight `i`, with the slot and the number of the next flight: while it is under way
-- its waiters are counted, and later they are no fewer than the callers still there; in
-- the slot it is under way, not cancelled and waited for; under way and not cancelled it is in the
-- slot; under way and cancelled nobody waits for it.
pub record IsTracked (slot : Option ℕ) (next i : ℕ) (f : Flight) (n : ℕ) : Type 0 where
  pub counted : f.snapshot ≡ none → f.waiters ≡ n
  pub bounded : n ≤ f.waiters
  pub unstarted : next ≤ i → n ≡ 0
  pub in_slot : slot ≡ some i → (i < next) × (f.snapshot ≡ none) × (f.cancelled ≡ false) × (1 ≤ n)
  pub running : i < next → f.snapshot ≡ none → f.cancelled ≡ false → slot ≡ some i
  pub abandoned : f.snapshot ≡ none → f.cancelled ≡ true → n ≡ 0

abbrev pub IsShared : Live → (ℕ → ℕ) → Type 0
IsShared s n = (i : ℕ) → IsTracked s.inflight s.next i (s.flights i) (n i)

pub nat_same_self : (k : ℕ) → nat_same k k ≡ true
nat_same_self k = (nat_same_iff k k).1 refl

pub update_hit : (k : ℕ) (f : Flight) (flights : ℕ → Flight) → update k f flights k ≡ f
update_hit k f flights = rw (nat_same_self k) refl

pub update_miss :
    (k : ℕ) (f : Flight) (flights : ℕ → Flight) (i : ℕ) → i ≢ k → update k f flights i ≡ flights i
update_miss k f flights i h = elim (Bool-cases (nat_same i k)) [
  | inl e ↦ elim (h ((nat_same_iff i k).0 e)) [ ]
  | inr e ↦ rw e refl
]

pub update-IsTracked :
    (slot : Option ℕ) (next k : ℕ) (f : Flight) (flights : ℕ → Flight) (n : ℕ → ℕ)
    → IsTracked slot next k f (n k)
    → ((i : ℕ) → i ≢ k → IsTracked slot next i (flights i) (n i))
    → (i : ℕ) → IsTracked slot next i (update k f flights i) (n i)
update-IsTracked slot next k f flights n hit miss i = elim (Bool-cases (nat_same i k)) [
  | inl e ↦ rw ((nat_same_iff i k).0 e, nat_same_self k) hit
  | inr e ↦
      let other : i ≢ k = λ g. let h : nat_same i k ≡ true = (nat_same_iff i k).1 g in cc in
      rw e (miss i other)
]
