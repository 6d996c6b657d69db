-- ===== src/Collect/Cached/Examples.antt =====
-- A background source over three attempts.
use nvidia_gpu_exporter.Collect.{exit_error, Reading, Attempt}
use nvidia_gpu_exporter.Collect.Cached.{Cached, new_cached, latest, run}
use nvidia_gpu_exporter.Collect.Cached.Runs.{last_attempt, fatal_calls, run-report}
use nvidia_gpu_exporter.Collect.Readings.{no_extras}
use nvidia_gpu_exporter.Collect.Totals.{totals, report}
use nvidia_gpu_exporter.Common.{
  pos, ◌≡◌, true, false, none, some, List, [], ◌∷◌, list_comparable, nat_comparable,
}

abbrev reading : Reading
reading = record {
  table = none;
  apps = [];
  apps_attempted = false;
  apps_success = false;
  extras = no_extras;
}

abbrev good : Attempt
good = record {
  reading = reading;
  exit_code = pos 0;
  error = none;
  start = 5;
  now = 7;
  expired = false;
}

abbrev bad : Attempt
bad = record good { exit_code = pos 9; error = some (exit_error []); start = 10; now = 11 }

abbrev attempts : List Attempt
attempts = bad ∷ good ∷ bad ∷ []

run-report_example :
    (s : Cached) × (run (new_cached true) bad (good ∷ bad ∷ [])
      ≡ some (s, fatal_calls true attempts))
    × (latest s ≡ report (last_attempt bad (good ∷ bad ∷ [])) (totals attempts))
    × ((a : Attempt) (rest : List Attempt) → run s a rest ≡ none)
run-report_example = run-report true bad (good ∷ bad ∷ [])
