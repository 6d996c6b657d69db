-- ===== src/Collect/Live/Sharing.antt =====
-- internal/collect/live.go: what any number of concurrent calls of `Latest` share.
use nvidia_gpu_exporter.Collect.{Snapshot}
use nvidia_gpu_exporter.Collect.Live.{join, Flight, Live, leave, no_result}
use nvidia_gpu_exporter.Collect.Live.Joining.{join-IsShared}
use nvidia_gpu_exporter.Collect.Live.Landing.{finish-IsShared}
use nvidia_gpu_exporter.Collect.Live.Leaving.{leave-IsShared}
use nvidia_gpu_exporter.Collect.Live.Steps.{
  Caller, idle, waiting, departed, resigned, answered, World, Step, turned_away, joined, served,
  gave_up, served_late, passed_over, unserved, finished, first_world, Reached, here, later,
}
use nvidia_gpu_exporter.Collect.Live.Tracked.{IsTracked, IsShared, nat_same_self}
use nvidia_gpu_exporter.Common.{
  ltb, nat_same, if◌then◌else◌, nat_same_iff, Bool-cases, replicate, ℕ, zero, suc, ◌+◌, ◌≤◌, ◌<◌,
  ◌≡◌, refl, sym, ◌≢◌, inl, inr, Bool, false, Option, none, some, List, [], ◌∷◌, ◌++◌, arith,
  list_comparable, nat_comparable,
}

abbrev waits_on : ℕ → Caller → ℕ
waits_on i (waiting j) = if nat_same i j then 1 else 0
waits_on i idle = 0
waits_on i (departed j) = 0
waits_on i resigned = 0
waits_on i (answered s) = 0

abbrev pub count_waiting : List Caller → ℕ → ℕ
count_waiting [] i = 0
count_waiting (c ∷ cs) i = waits_on i c + count_waiting cs i

count_waiting-append :
    (before : List Caller) (c : Caller) (after : List Caller) (i : ℕ)
    → count_waiting (before ++ c ∷ after) i
      ≡ waits_on i c + (count_waiting before i + count_waiting after i)
count_waiting-append [] c after i = omega arith
count_waiting-append (d ∷ before) c after i = omega (arith, count_waiting-append before c after i)

waits_on_self : (i : ℕ) → waits_on i (waiting i) ≡ 1
waits_on_self i = rw (nat_same_self i) refl

waits_on_other : (i k : ℕ) → i ≢ k → waits_on i (waiting k) ≡ 0
waits_on_other i k h = elim (Bool-cases (nat_same i k)) [
  | inl e ↦ elim (h ((nat_same_iff i k).0 e)) [ ]
  | inr e ↦ rw e refl
]

-- Every flight is tracked, with the callers that wait on it.
abbrev pub IsFair : World → Type 0
IsFair w = IsShared w.live (count_waiting w.callers)

-- A caller goes from one state to another that waits on no other flight.
callers-IsFair :
    (s : Live) (before after : List Caller) (c d : Caller)
    → ((i : ℕ) → waits_on i c ≡ waits_on i d)
    → IsFair (record { live = s; callers = before ++ c ∷ after })
    → IsFair (record { live = s; callers = before ++ d ∷ after })
callers-IsFair s before after c d same h i =
    rw (count_waiting-append before d after i, sym (same i))
      (rw (count_waiting-append before c after i) at (h i))

served-IsTracked :
    (slot : Option ℕ) (next i : ℕ) (f : Flight) (n m : ℕ) (snapshot : Snapshot)
    → f.snapshot ≡ some snapshot
    → m ≤ n
    → IsTracked slot next i f n
    → IsTracked slot next i f m
served-IsTracked slot next i f n m snapshot landed less h = record {
  counted = λ a. cc;
  bounded = omega (arith, h.bounded);
  unstarted = λ g. omega (arith, h.unstarted g);
  in_slot = λ e. let under_way = (h.in_slot e).1 in cc;
  running = h.running;
  abandoned = λ a b. cc;
}

served-IsFair :
    (s : Live) (before after : List Caller) (k : ℕ) (snapshot : Snapshot)
    → (s.flights k).snapshot ≡ some snapshot
    → IsFair (record { live = s; callers = before ++ waiting k ∷ after })
    → IsFair (record { live = s; callers = before ++ answered snapshot ∷ after })
served-IsFair s before after k snapshot landed h i =
    let was = count_waiting-append before (waiting k) after i in
    let now = count_waiting-append before (answered snapshot) after i in
    elim (Bool-cases (nat_same i k)) [
      | inl e ↦
          served-IsTracked s.inflight s.next i (s.flights i)
            (count_waiting (before ++ waiting k ∷ after) i)
            (count_waiting (before ++ answered snapshot ∷ after) i) snapshot
            (rw ((nat_same_iff i k).0 e) landed) (omega arith) (h i)
      | inr e ↦
          rw now
            (rw (was, waits_on_other i k (λ g. (let hit = (nat_same_iff i k).1 g in cc))) at (h i))
    ]

joined-IsFair :
    (s : Live) (before after : List Caller)
    → IsFair (record { live = s; callers = before ++ idle ∷ after })
    → IsFair (record { live = (join s).0; callers = before ++ waiting (join s).1 ∷ after })
joined-IsFair s before after h =
    let k = (join s).1 in
    let was = count_waiting-append before idle after in
    let now = count_waiting-append before (waiting k) after in
    join-IsShared s (count_waiting (before ++ idle ∷ after))
      (count_waiting (before ++ waiting k ∷ after)) h (omega (arith, was k, now k, waits_on_self k))
      (λ i g. omega (arith, was i, now i, waits_on_other i k g))

gave_up-IsFair :
    (s : Live) (before after : List Caller) (k : ℕ)
    → IsFair (record { live = s; callers = before ++ waiting k ∷ after })
    → IsFair (record { live = leave s k; callers = before ++ departed k ∷ after })
gave_up-IsFair s before after k h =
    let was = count_waiting-append before (waiting k) after in
    let now = count_waiting-append before (departed k) after in
    leave-IsShared s k (count_waiting (before ++ waiting k ∷ after))
      (count_waiting (before ++ departed k ∷ after)) h
      (omega (arith, was k, now k, waits_on_self k))
      (λ i g. omega (arith, was i, now i, waits_on_other i k g))

Step-IsFair : {w v : World} → Step w v → IsFair w → IsFair v
Step-IsFair (turned_away s before after) h =
    callers-IsFair s before after idle (answered (no_result s)) (λ i. refl) h
Step-IsFair (joined s before after) h = joined-IsFair s before after h
Step-IsFair (served s before after i snapshot e) h = served-IsFair s before after i snapshot e h
Step-IsFair (gave_up s before after i) h = gave_up-IsFair s before after i h
Step-IsFair (served_late s before after i snapshot e) h =
    callers-IsFair s before after (departed i) (answered snapshot) (λ i. refl) h
Step-IsFair (passed_over s before after i e) h =
    callers-IsFair s before after (departed i) resigned (λ i. refl) h
Step-IsFair (unserved s before after) h =
    callers-IsFair s before after resigned (answered (no_result s)) (λ i. refl) h
Step-IsFair (finished s callers i a m e) h = finish-IsShared s i a (count_waiting callers) h

count_waiting-idle : (n i : ℕ) → count_waiting (replicate n idle) i ≡ 0
count_waiting-idle zero i = refl
count_waiting-idle (suc n) i = omega (arith, count_waiting-idle n i)

first_world-IsFair : (on_fatal : Bool) (n : ℕ) → IsFair (first_world on_fatal n)
first_world-IsFair on_fatal n i = rw (count_waiting-idle n i) (record {
  counted = λ a. refl;
  bounded = omega arith;
  unstarted = λ g. refl;
  in_slot = λ e. cc;
  running = λ a b c. absurd (omega arith);
  abandoned = λ a b. refl;
})

Reached-IsFair : {w v : World} → Reached w v → IsFair w → IsFair v
Reached-IsFair here h = h
Reached-IsFair (later r st) h = Step-IsFair st (Reached-IsFair r h)

-- Whatever the calls did, every flight is tracked: while a run is under way its waiters are the
-- callers that wait on it; a run under way is the one in the slot or a cancelled one that nobody
-- waits on; and the one in the slot is under way, not cancelled and waited for.
pub first_world-IsFair_all :
    (on_fatal : Bool) (n : ℕ) (w : World) → Reached (first_world on_fatal n) w → IsFair w
first_world-IsFair_all on_fatal n w r = Reached-IsFair r (first_world-IsFair on_fatal n)

-- A flight below `next` whose run was neither finished nor cancelled.
abbrev pub IsRunning : Live → ℕ → Type 0
IsRunning s i = (i < s.next) × ((s.flights i).snapshot ≡ none) × ((s.flights i).cancelled ≡ false)

-- Whatever the calls did, at most one run is neither finished nor cancelled, and the run that a
-- caller waits on is that one or has finished: nobody inherits a cancellation.
pub one-IsRunning :
    (on_fatal : Bool) (n : ℕ) (w : World)
    → Reached (first_world on_fatal n) w
    → ((i j : ℕ) → IsRunning w.live i → IsRunning w.live j → i ≡ j)
      × ((i : ℕ)
          → 1 ≤ count_waiting w.callers i
          → (w.live.flights i).snapshot ≡ none
          → IsRunning w.live i)
one-IsRunning on_fatal n w r =
    let fair = first_world-IsFair_all on_fatal n w r in
    (
      λ i j hi hj.
          (let a = (fair i).running hi.0 hi.1 hi.2 in
            let b = (fair j).running hj.0 hj.1 hj.2 in cc),
      λ i h e. (
        elim (Bool-cases (ltb i w.live.next)) [
          | inl t ↦ ground arith
          | inr t ↦ absurd (omega (arith, (fair i).unstarted (ground arith)))
        ],
        e,
        elim (Bool-cases (w.live.flights i).cancelled) [
          | inl c ↦ absurd (omega (arith, (fair i).abandoned e c))
          | inr c ↦ c
        ],
      ),
    )
