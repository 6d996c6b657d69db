-- ===== src/Collect/Cached/Runs.antt =====
-- internal/collect/cached.go: a run from the attempts it makes.
use nvidia_gpu_exporter.Collect.{CollectError, Snapshot, Attempt}
use nvidia_gpu_exporter.Collect.Cached.{Cached, new_cached, latest, tick, add_call, ticks, run}
use nvidia_gpu_exporter.Collect.Totals.{
  totals, report, fatal_call, fold_cumulative-collect_once, collect_once-fatal_call,
}
use nvidia_gpu_exporter.Common.{
  append_cons, ◌≡◌, refl, ap, ◌∙◌, Bool, true, Option, none, some, List, [], ◌∷◌, ◌++◌,
  list_comparable, nat_comparable,
}

abbrev pub last_attempt : Attempt → List Attempt → Attempt
last_attempt a [] = a
last_attempt a (b ∷ more) = last_attempt b more

abbrev pub fatal_calls : Bool → List Attempt → List CollectError
fatal_calls on_fatal [] = []
fatal_calls on_fatal (a ∷ more) = add_call (fatal_call on_fatal a) (fatal_calls on_fatal more)

-- The source behind a run whose attempts are `attempts` and whose last snapshot is `snapshot`.
abbrev published : Bool → List Attempt → Snapshot → Cached
published on_fatal attempts snapshot = record {
  on_fatal = on_fatal;
  cur = some snapshot;
  started = true;
  counters = totals attempts;
}

tick_lem :
    (on_fatal : Bool) (cur : Option Snapshot) (earlier : List Attempt) (a : Attempt)
    → tick (record { on_fatal = on_fatal; cur = cur; started = true; counters = totals earlier }) a
      ≡ (
        published on_fatal (earlier ++ a ∷ []) (report a (totals (earlier ++ a ∷ []))),
        fatal_call on_fatal a,
      )
unfolding tick
tick_lem on_fatal cur earlier a =
    rw (fold_cumulative-collect_once on_fatal earlier a, collect_once-fatal_call on_fatal a) refl

ticks_one : (s : Cached) (a : Attempt) → ticks s (a ∷ []) ≡ ((tick s a).0, add_call (tick s a).1 [])
unfolding ticks
ticks_one s a = refl

ticks_more :
    (s : Cached) (a : Attempt) (more : List Attempt)
    → ticks s (a ∷ more)
      ≡ ((ticks (tick s a).0 more).0, add_call (tick s a).1 (ticks (tick s a).0 more).1)
unfolding ticks
ticks_more s a more = refl

ticks_lem :
    (on_fatal : Bool) (cur : Option Snapshot) (earlier : List Attempt) (a : Attempt)
    (more : List Attempt)
    → ticks
        (record { on_fatal = on_fatal; cur = cur; started = true; counters = totals earlier })
        (a ∷ more)
      ≡ (
        published on_fatal
            (earlier ++ a ∷ more)
            (report (last_attempt a more) (totals (earlier ++ a ∷ more))),
        fatal_calls on_fatal (a ∷ more),
      )
ticks_lem on_fatal cur earlier a [] =
    ticks_one (record { on_fatal = on_fatal; cur = cur; started = true; counters = totals earlier })
      a
    ∙ ap (λ t. (t.0, add_call t.1 [])) (tick_lem on_fatal cur earlier a)
ticks_lem on_fatal cur earlier a (b ∷ more) =
    let published_a = report a (totals (earlier ++ a ∷ [])) in
    ticks_more
      (record { on_fatal = on_fatal; cur = cur; started = true; counters = totals earlier }) a
      (b ∷ more)
    ∙ rw
        (
          tick_lem on_fatal cur earlier a,
          ticks_lem on_fatal (some published_a) (earlier ++ a ∷ []) b more,
          append_cons earlier a (b ∷ more),
        )
        refl

-- A new source runs, and reports its last attempt: the data only if it succeeded, with the number
-- of all the attempts that failed (as a uint64) and the end of the last one that succeeded. Its
-- callback got the fatal errors in order, and a second run is refused.
pub run-report :
    (on_fatal : Bool) (first : Attempt) (more : List Attempt)
    → (s : Cached) × (run (new_cached on_fatal) first more
        ≡ some (s, fatal_calls on_fatal (first ∷ more)))
      × (latest s ≡ report (last_attempt first more) (totals (first ∷ more)))
      × ((a : Attempt) (rest : List Attempt) → run s a rest ≡ none)
unfolding run latest
run-report on_fatal first more = (
  published on_fatal (first ∷ more) (report (last_attempt first more) (totals (first ∷ more))),
  ap some (ticks_lem on_fatal none [] first more),
  refl,
  λ a rest. refl,
)
