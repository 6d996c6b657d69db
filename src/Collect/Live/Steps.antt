-- ===== src/Collect/Live/Steps.antt =====
-- internal/collect/live.go: the calls of `Latest` and the runs as steps in any order.
use nvidia_gpu_exporter.Collect.{Snapshot, Attempt}
use nvidia_gpu_exporter.Collect.Live.{join, Live, new_live, leave, finish, no_result}
use nvidia_gpu_exporter.Common.{
  replicate, ℕ, ◌<◌, ◌≡◌, Bool, none, some, List, ◌∷◌, ◌++◌, list_comparable, nat_comparable,
}

-- Where a call of `Latest` stands: before it, waiting in the first `select`, past `leave` and
-- before the second `select`, past that one's default branch and before the lock of `noResult`,
-- returned.
pub data Caller : Type 0 where
  idle : Caller
  waiting : ℕ → Caller
  departed : ℕ → Caller
  resigned : Caller
  answered : Snapshot → Caller

pub record World : Type 0 where
  pub live : Live
  pub callers : List Caller

-- `before` and `after` are the other callers.
pub data Step : World → World → Type 0 where
  -- ctx.Err() != nil
  turned_away :
      (s : Live) (before after : List Caller)
      → Step
          (record { live = s; callers = before ++ idle ∷ after })
          (record { live = s; callers = before ++ answered (no_result s) ∷ after })
  joined :
      (s : Live) (before after : List Caller)
      → Step
          (record { live = s; callers = before ++ idle ∷ after })
          (record { live = (join s).0; callers = before ++ waiting (join s).1 ∷ after })
  -- <-shared.done
  served :
      (s : Live) (before after : List Caller) (i : ℕ) (snapshot : Snapshot)
      → (s.flights i).snapshot ≡ some snapshot
      → Step
          (record { live = s; callers = before ++ waiting i ∷ after })
          (record { live = s; callers = before ++ answered snapshot ∷ after })
  -- <-ctx.Done()
  gave_up :
      (s : Live) (before after : List Caller) (i : ℕ)
      → Step
          (record { live = s; callers = before ++ waiting i ∷ after })
          (record { live = leave s i; callers = before ++ departed i ∷ after })
  served_late :
      (s : Live) (before after : List Caller) (i : ℕ) (snapshot : Snapshot)
      → (s.flights i).snapshot ≡ some snapshot
      → Step
          (record { live = s; callers = before ++ departed i ∷ after })
          (record { live = s; callers = before ++ answered snapshot ∷ after })
  -- The second `select` takes its default branch.
  passed_over :
      (s : Live) (before after : List Caller) (i : ℕ)
      → (s.flights i).snapshot ≡ none
      → Step
          (record { live = s; callers = before ++ departed i ∷ after })
          (record { live = s; callers = before ++ resigned ∷ after })
  -- `noResult` takes the lock, and the run may have ended since.
  unserved :
      (s : Live) (before after : List Caller)
      → Step
          (record { live = s; callers = before ++ resigned ∷ after })
          (record { live = s; callers = before ++ answered (no_result s) ∷ after })
  -- A run that was started ends, whatever its query brings.
  finished :
      (s : Live) (callers : List Caller) (i : ℕ) (a : Attempt)
      → i < s.next
      → (s.flights i).snapshot ≡ none
      → Step
          (record { live = s; callers = callers })
          (record { live = (finish s i a).0; callers = callers })

abbrev pub first_world : Bool → ℕ → World
first_world on_fatal n = record { live = new_live on_fatal; callers = replicate n idle }

-- What any number of calls can come to.
pub data Reached (w : World) : World → Type 0 where
  here : Reached w w
  later : {u v : World} → Reached w u → Step u v → Reached w v
