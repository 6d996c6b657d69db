-- ===== src/Collect/Live/Examples.antt =====
-- Two calls share a run; one of them gives up before it ends.
use nvidia_gpu_exporter.Collect.{Reading, Attempt, collect_once, fold_cumulative}
use nvidia_gpu_exporter.Collect.Live.{join, Live, new_live, leave, finish}
use nvidia_gpu_exporter.Collect.Live.Accounts.{completions, IsTrue, completions-IsTrue}
use nvidia_gpu_exporter.Collect.Live.Sharing.{
  count_waiting, IsFair, first_world-IsFair_all, IsRunning, one-IsRunning,
}
use nvidia_gpu_exporter.Collect.Live.Steps.{
  idle, waiting, departed, answered, World, joined, served, gave_up, finished, first_world, Reached,
  here, later,
}
use nvidia_gpu_exporter.Collect.Readings.{no_extras}
use nvidia_gpu_exporter.Collect.Totals.{totals, report}
use nvidia_gpu_exporter.Common.{
  pos, ℕ, ◌≤◌, ◌≡◌, refl, true, false, none, [], ◌∷◌, arith, list_comparable, nat_comparable,
}

abbrev reading : Reading
reading = record {
  table = none;
  apps = [];
  apps_attempted = false;
  apps_success = false;
  extras = no_extras;
}

abbrev attempt : Attempt
attempt = record {
  reading = reading;
  exit_code = pos 0;
  error = none;
  start = 5;
  now = 7;
  expired = false;
}

abbrev live0 : Live
live0 = new_live true

abbrev live1 : Live
live1 = (join live0).0

abbrev live2 : Live
live2 = (join live1).0

abbrev live3 : Live
live3 = leave live2 0

-- Both are on the flight 0, and the first has left it.
abbrev world : World
world = record { live = live3; callers = departed 0 ∷ waiting 0 ∷ [] }

reached_world : Reached (first_world true 2) world
unfolding join
reached_world =
    later (later (later here (joined live0 [] (idle ∷ []))) (joined live1 (waiting 0 ∷ []) []))
      (gave_up live2 [] (waiting 0 ∷ []) 0)

abbrev landed_world : World
landed_world = record { live = (finish live3 0 attempt).0; callers = departed 0 ∷ waiting 0 ∷ [] }

abbrev served_world : World
served_world = record {
  live = (finish live3 0 attempt).0;
  callers = departed 0 ∷ answered (report attempt (totals (attempt ∷ []))) ∷ [];
}

reached_served : Reached (first_world true 2) served_world
unfolding join leave finish nvidia_gpu_exporter.Collect.collect_once
    nvidia_gpu_exporter.Collect.fold_cumulative
reached_served =
    later
      (later reached_world
        (finished live3 (departed 0 ∷ waiting 0 ∷ []) 0 attempt (omega arith) refl))
      (served (finish live3 0 attempt).0 (departed 0 ∷ []) [] 0
        (report attempt (totals (attempt ∷ []))) refl)

first_world-IsFair_all_example : IsFair world
first_world-IsFair_all_example = first_world-IsFair_all true 2 world reached_world

one-IsRunning_example :
    ((i j : ℕ) → IsRunning live3 i → IsRunning live3 j → i ≡ j)
    × ((i : ℕ)
        → 1 ≤ count_waiting world.callers i
        → (live3.flights i).snapshot ≡ none
        → IsRunning live3 i)
one-IsRunning_example = one-IsRunning true 2 world reached_world

completions-IsTrue_example : IsTrue (completions reached_served) served_world
completions-IsTrue_example = completions-IsTrue true 2 served_world reached_served
