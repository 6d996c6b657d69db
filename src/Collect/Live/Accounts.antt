-- ===== src/Collect/Live/Accounts.antt =====
-- internal/collect/live.go: what the calls of `Latest` are told.
use nvidia_gpu_exporter.Collect.{Snapshot, zero_snapshot, Attempt}
use nvidia_gpu_exporter.Collect.Live.{join, Live, leave, finish, no_result}
use nvidia_gpu_exporter.Collect.Live.Kept.{
  join_kept, join_counters, leave_kept, leave_counters, finish_kept, published-report,
  finish_counters,
}
use nvidia_gpu_exporter.Collect.Live.Steps.{
  Caller, idle, waiting, departed, resigned, answered, World, Step, turned_away, joined, served,
  gave_up, served_late, passed_over, unserved, finished, first_world, Reached, here, later,
}
use nvidia_gpu_exporter.Collect.Totals.{totals, report}
use nvidia_gpu_exporter.Common.{
  replicate, All, ℕ, zero, suc, ◌≡◌, refl, sym, ◌∙◌, ◌≢◌, ◌⊎◌, inl, inr, Bool, Option, none, some,
  List, [], ◌∷◌, ◌++◌, append_assoc, append-nil, list_comparable, nat_comparable,
}

-- The attempts that a step ends.
abbrev landed : {w v : World} → Step w v → List Attempt
landed (turned_away s before after) = []
landed (joined s before after) = []
landed (served s before after i snapshot e) = []
landed (gave_up s before after i) = []
landed (served_late s before after i snapshot e) = []
landed (passed_over s before after i e) = []
landed (unserved s before after) = []
landed (finished s callers i a m e) = a ∷ []

-- The attempts that ended, in their order.
abbrev pub completions : {w v : World} → Reached w v → List Attempt
completions here = []
completions (later r st) = completions r ++ landed st

-- The report of one of the attempts, with the totals up to it.
abbrev pub IsReport : List Attempt → Snapshot → Type 0
IsReport attempts snapshot =
    (before : List Attempt) × (a : Attempt) × (after : List Attempt) × (attempts
      ≡ before ++ a ∷ after)
    × (snapshot ≡ report a (totals (before ++ a ∷ [])))

-- No data and no attempt, with the totals at some time.
abbrev pub IsNoResult : List Attempt → Snapshot → Type 0
IsNoResult attempts snapshot =
    (before : List Attempt) × (after : List Attempt) × (attempts ≡ before ++ after)
    × (snapshot ≡ record zero_snapshot {
      failures = (totals before).failures;
      last_success = (totals before).last_ok;
    })

abbrev pub IsTold : List Attempt → Caller → Type 0
IsTold attempts (answered snapshot) = IsReport attempts snapshot ⊎ IsNoResult attempts snapshot
IsTold attempts idle = Unit
IsTold attempts (waiting i) = Unit
IsTold attempts (departed i) = Unit
IsTold attempts resigned = Unit

pub record IsTrue (attempts : List Attempt) (w : World) : Type 0 where
  pub counted : w.live.counters ≡ totals attempts
  pub landed_true :
      (i : ℕ) (snapshot : Snapshot)
      → (w.live.flights i).snapshot ≡ some snapshot
      → IsReport attempts snapshot
  pub told : All (IsTold attempts) w.callers

IsReport-append :
    (attempts more : List Attempt) (snapshot : Snapshot)
    → IsReport attempts snapshot
    → IsReport (attempts ++ more) snapshot
IsReport-append attempts more snapshot (before, a, after, e, told) =
    (before, a, after ++ more, rw e (append_assoc before (a ∷ after) more), told)

IsTold-append :
    (attempts more : List Attempt) (c : Caller) → IsTold attempts c → IsTold (attempts ++ more) c
IsTold-append attempts more idle h = tt
IsTold-append attempts more (waiting i) h = tt
IsTold-append attempts more (departed i) h = tt
IsTold-append attempts more resigned h = tt
IsTold-append attempts more (answered snapshot) (inl h) =
    inl (IsReport-append attempts more snapshot h)
IsTold-append attempts more (answered snapshot) (inr (before, after, e, told)) =
    inr (before, after ++ more, rw e (append_assoc before after more), told)

All-IsTold-append :
    (attempts more : List Attempt) (cs : List Caller)
    → All (IsTold attempts) cs
    → All (IsTold (attempts ++ more)) cs
All-IsTold-append attempts more [] h = tt
All-IsTold-append attempts more (c ∷ cs) h =
    (IsTold-append attempts more c h.0, All-IsTold-append attempts more cs h.1)

-- One caller among the others.
All-middle :
    (attempts : List Attempt) (before after : List Caller) (c d : Caller)
    → All (IsTold attempts) (before ++ c ∷ after)
    → (IsTold attempts c → IsTold attempts d)
    → All (IsTold attempts) (before ++ d ∷ after)
All-middle attempts [] after c d h f = (f h.0, h.1)
All-middle attempts (x ∷ before) after c d h f = (h.0, All-middle attempts before after c d h.1 f)

no_result_true :
    (s : Live) (attempts : List Attempt)
    → s.counters ≡ totals attempts
    → IsNoResult attempts (no_result s)
unfolding no_result
no_result_true s attempts e = (attempts, [], sym (append-nil attempts), rw e refl)

-- A step that ends no run, moves one caller and keeps the counters and the snapshots.
moved-IsTrue :
    (attempts : List Attempt) (s t : Live) (before after : List Caller) (c d : Caller)
    → t.counters ≡ s.counters
    → ((i : ℕ) (snapshot : Snapshot)
        → (t.flights i).snapshot ≡ some snapshot
        → (s.flights i).snapshot ≡ some snapshot)
    → (IsTold attempts c → IsTold attempts d)
    → IsTrue attempts (record { live = s; callers = before ++ c ∷ after })
    → IsTrue (attempts ++ []) (record { live = t; callers = before ++ d ∷ after })
moved-IsTrue attempts s t before after c d same kept told h = rw (append-nil attempts) (record {
  counted = same ∙ h.counted;
  landed_true = λ i snapshot e. h.landed_true i snapshot (kept i snapshot e);
  told = All-middle attempts before after c d h.told told;
})

finished-IsTrue :
    (attempts : List Attempt) (s : Live) (callers : List Caller) (k : ℕ) (a : Attempt)
    → IsTrue attempts (record { live = s; callers = callers })
    → IsTrue (attempts ++ a ∷ []) (record { live = (finish s k a).0; callers = callers })
finished-IsTrue attempts s callers k a h = record {
  counted = finish_counters s k attempts a h.counted;
  landed_true = λ i snapshot e. elim (finish_kept s k a i snapshot e) [
    | inl g ↦ IsReport-append attempts (a ∷ []) snapshot (h.landed_true i snapshot g)
    | inr g ↦ (attempts, a, [], refl, g ∙ published-report s attempts a h.counted)
  ];
  told = All-IsTold-append attempts (a ∷ []) callers h.told;
}

Step-IsTrue :
    {w v : World} (st : Step w v) (attempts : List Attempt)
    → IsTrue attempts w
    → IsTrue (attempts ++ landed st) v
Step-IsTrue (turned_away s before after) attempts h =
    moved-IsTrue attempts s s before after idle (answered (no_result s)) refl (λ i x e. e)
      (λ t. inr (no_result_true s attempts h.counted)) h
Step-IsTrue (joined s before after) attempts h =
    moved-IsTrue attempts s (join s).0 before after idle (waiting (join s).1) (join_counters s)
      (join_kept s) (λ t. tt) h
Step-IsTrue (served s before after i snapshot e) attempts h =
    moved-IsTrue attempts s s before after (waiting i) (answered snapshot) refl (λ i x e. e)
      (λ t. inl (h.landed_true i snapshot e)) h
Step-IsTrue (gave_up s before after i) attempts h =
    moved-IsTrue attempts s (leave s i) before after (waiting i) (departed i) (leave_counters s i)
      (leave_kept s i) (λ t. tt) h
Step-IsTrue (served_late s before after i snapshot e) attempts h =
    moved-IsTrue attempts s s before after (departed i) (answered snapshot) refl (λ i x e. e)
      (λ t. inl (h.landed_true i snapshot e)) h
Step-IsTrue (passed_over s before after i e) attempts h =
    moved-IsTrue attempts s s before after (departed i) resigned refl (λ i x e. e) (λ t. tt) h
Step-IsTrue (unserved s before after) attempts h =
    moved-IsTrue attempts s s before after resigned (answered (no_result s)) refl (λ i x e. e)
      (λ t. inr (no_result_true s attempts h.counted)) h
Step-IsTrue (finished s callers i a m e) attempts h = finished-IsTrue attempts s callers i a h

idle-IsTold : (n : ℕ) → All (IsTold []) (replicate n idle)
idle-IsTold zero = tt
idle-IsTold (suc n) = (tt, idle-IsTold n)

none_some : {A : Type 0} {a : A} → ◌≢◌ {A = Option A} none (some a)
none_some e = cc

first_world-IsTrue : (on_fatal : Bool) (n : ℕ) → IsTrue [] (first_world on_fatal n)
first_world-IsTrue on_fatal n = record {
  counted = refl;
  landed_true = λ i snapshot e. elim (none_some e) [ ];
  told = idle-IsTold n;
}

Reached-IsTrue : {w v : World} (r : Reached w v) → IsTrue [] w → IsTrue (completions r) v
Reached-IsTrue here h = h
Reached-IsTrue (later r st) h = Step-IsTrue st (completions r) (Reached-IsTrue r h)

-- Whatever the calls did, the counters are the totals of the attempts that ended, and every answer
-- and published snapshot is either the report of one of these attempts with the totals up to it,
-- or (an answer only) a snapshot without data and with the totals at some time.
pub completions-IsTrue :
    (on_fatal : Bool) (n : ℕ) (w : World) (r : Reached (first_world on_fatal n) w)
    → IsTrue (completions r) w
completions-IsTrue on_fatal n w r = Reached-IsTrue r (first_world-IsTrue on_fatal n)
