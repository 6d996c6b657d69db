-- ===== src/Exporter/Render/Health.antt =====
-- internal/exporter/exporter.go and internal/collect/cached.go: what a scrape of a background source
-- says of its health.
use nvidia_gpu_exporter.Collect.{CollectError, Snapshot, Attempt, Counters}
use nvidia_gpu_exporter.Collect.Cached.{Cached, new_cached, latest, run}
use nvidia_gpu_exporter.Collect.Cached.Runs.{last_attempt, fatal_calls, run-report}
use nvidia_gpu_exporter.Collect.Totals.{succeeded, failed, totals, report}
use nvidia_gpu_exporter.Common.{
  if◌then◌else◌, Bool-cases, Option-cases, Float64, Floats, ◌==◌, ◌-◌, ◌≡◌, refl, ap, ◌∙◌, inl, inr,
  Bool, true, false, Option, none, some, List, [], ◌∷◌, ◌++◌, list_comparable, nat_comparable,
}
use nvidia_gpu_exporter.Exporter.Claims.{ValueType, counter_value, gauge_value, ExitCodeMetric}
use nvidia_gpu_exporter.Exporter.Descs.{Features, GpuExporter, new_exporter}
use nvidia_gpu_exporter.Exporter.Names.{Desc, Host}
use nvidia_gpu_exporter.Exporter.Names.Legal.{JoinsNames}
use nvidia_gpu_exporter.Exporter.Names.Valid.{IsName, IsPrefix}
use nvidia_gpu_exporter.Exporter.Render.{
  Metric, Conversions, XidCounter, float_of_bool, send, send_if, render_health, render_xids,
  render_rows, render_apps, render_extras, collect,
}
use nvidia_gpu_exporter.Exporter.Render.Plain.{
  IsPlain, AcceptsPlain, HealthIsPlain, new_exporter-HealthIsPlain,
}
use nvidia_gpu_exporter.Nvidiasmi.Csv.{Table}
use nvidia_gpu_exporter.Nvidiasmi.Resolve.{ResolvedFields}
use nvidia_gpu_exporter.Text.{Text}

abbrev plain : Desc → ValueType → Float64 → Metric
plain desc t value = record { desc = desc; value_type = t; value = value; label_values = [] }

-- The health of a source after its attempts, the last of which is `a`.
abbrev pub health_of : Floats → Conversions → GpuExporter → List Attempt → Attempt → List Metric
health_of fl cv e attempts a =
    let timestamp =
      plain e.collect_timestamp_desc gauge_value (cv.unix (totals attempts).last_ok) in
    plain e.failed_scrapes_desc counter_value (fl.of_uint (totals attempts).failures)
    ∷ plain e.collect_success_desc gauge_value (float_of_bool (succeeded a))
    ∷ plain e.exit_code_desc gauge_value (cv.of_int a.exit_code)
    ∷ plain e.collect_duration_desc gauge_value (cv.seconds (a.now - a.start))
    ∷ (if (totals attempts).last_ok == 0 then [] else timestamp ∷ [])

send-plain :
    (host : Host) (desc : Desc) (t : ValueType) (value : Float64)
    → host.accepts desc [] ≡ true
    → send host desc t value [] ≡ plain desc t value ∷ []
unfolding send
send-plain host desc t value h = rw h refl

render_health-report :
    (host : Host) (fl : Floats) (cv : Conversions) (e : GpuExporter) (attempts : List Attempt)
    (a : Attempt)
    → AcceptsPlain host
    → HealthIsPlain e
    → render_health host fl cv e (report a (totals attempts)) ≡ health_of fl cv e attempts a
unfolding render_health send_if
render_health-report host fl cv e attempts a accepts (failed, exit, succeeds, timestamp, duration) =
    let last_ok = (totals attempts).last_ok in
    let ok = λ (desc : Desc) (t : ValueType) (value : Float64) (h : IsPlain desc).
      send-plain host desc t value (accepts desc h.0 h.1) in
    elim (Bool-cases (last_ok == 0)) [
      | inl z ↦
          rw
            (
              ok e.failed_scrapes_desc counter_value (fl.of_uint (totals attempts).failures) failed,
              ok e.collect_success_desc gauge_value (float_of_bool (succeeded a)) succeeds,
              ok e.exit_code_desc gauge_value (cv.of_int a.exit_code) exit,
              ok e.collect_duration_desc gauge_value (cv.seconds (a.now - a.start)) duration,
              z,
            )
            refl
      | inr z ↦
          rw
            (
              ok e.failed_scrapes_desc counter_value (fl.of_uint (totals attempts).failures) failed,
              ok e.collect_success_desc gauge_value (float_of_bool (succeeded a)) succeeds,
              ok e.exit_code_desc gauge_value (cv.of_int a.exit_code) exit,
              ok e.collect_duration_desc gauge_value (cv.seconds (a.now - a.start)) duration,
              ok e.collect_timestamp_desc gauge_value (cv.unix last_ok) timestamp,
              z,
            )
            refl
    ]

-- What a scrape says of the GPUs.
gpu_metrics : Host → Floats → Conversions → GpuExporter → Snapshot → Option Table → List Metric
gpu_metrics host fl cv e s none = []
gpu_metrics host fl cv e s (some table) =
    render_rows host fl cv e s.extras.cuda_version table.rows
    ++ (render_apps host fl cv e s table.rows ++ render_extras host fl cv e s)

collect_lem :
    (host : Host) (fl : Floats) (cv : Conversions) (e : GpuExporter)
    (xids : Option (List XidCounter)) (s : Snapshot)
    → collect host fl cv e xids s
      ≡ render_health host fl cv e s
        ++ (render_xids host fl cv e xids ++ gpu_metrics host fl cv e s s.table)
unfolding collect gpu_metrics
collect_lem host fl cv e xids s = elim (Option-cases s.table) [
  | inl n ↦ rw n refl
  | inr (table, f) ↦ rw f refl
]

no_table-gpu_metrics :
    (host : Host) (fl : Floats) (cv : Conversions) (e : GpuExporter) (s : Snapshot) (a : Attempt)
    (c : Counters)
    → s ≡ report a c
    → succeeded a ≡ false
    → gpu_metrics host fl cv e s s.table ≡ []
unfolding gpu_metrics
no_table-gpu_metrics host fl cv e s a c h f =
    let of_table : s.table ≡ none = ap (λ (t : Snapshot). t.table) h ∙ rw f refl in
    ap (gpu_metrics host fl cv e s) of_table

gpu_metrics_lem :
    (host : Host) (fl : Floats) (cv : Conversions) (e : GpuExporter) (s : Snapshot) (a : Attempt)
    (c : Counters) (table : Table)
    → s ≡ report a c
    → succeeded a ≡ true
    → a.reading.table ≡ some table
    → gpu_metrics host fl cv e s s.table
      ≡ render_rows host fl cv e a.reading.extras.cuda_version table.rows
        ++ (render_apps host fl cv e s table.rows ++ render_extras host fl cv e s)
unfolding gpu_metrics
gpu_metrics_lem host fl cv e s a c table h f g =
    let of_table : s.table ≡ some table = ap (λ (t : Snapshot). t.table) h ∙ rw f g in
    let version : s.extras.cuda_version ≡ a.reading.extras.cuda_version =
      ap (λ (t : Snapshot). t.extras.cuda_version) h ∙ rw f refl in
    ap (gpu_metrics host fl cv e s) of_table
    ∙ ap
        (λ v.
          render_rows host fl cv e v table.rows
          ++ (render_apps host fl cv e s table.rows ++ render_extras host fl cv e s))
        version

-- After any attempts of a background source, a scrape begins with its health, which counts the
-- attempts that failed and tells of the last one, and with the XIDs. The metrics of the GPUs stand
-- behind them only if the last attempt succeeded: they are those of its rows, its processes and its
-- extras. The prefix is empty or a metric name, the metric of the exit code has a metric name, and
-- the host joins names and makes every metric that has a metric name and no labels.
pub collect-run :
    (host : Host) (fl : Floats) (cv : Conversions) (prefix : Text) (resolved : ResolvedFields)
    (features : Features) (m : ExitCodeMetric) (xids : Option (List XidCounter)) (on_fatal : Bool)
    (first : Attempt) (more : List Attempt)
    → JoinsNames host
    → IsPrefix prefix
    → IsName m.name
    → AcceptsPlain host
    → (s : Cached) × (calls : List CollectError) × (gpus : List Metric) × (run
          (new_cached on_fatal)
          first
          more
        ≡ some (s, calls))
      × (collect host fl cv (new_exporter host prefix resolved features m) xids (latest s)
          ≡ health_of fl cv
              (new_exporter host prefix resolved features m)
              (first ∷ more)
              (last_attempt first more)
            ++ (render_xids host fl cv (new_exporter host prefix resolved features m) xids ++ gpus))
      × (succeeded (last_attempt first more) ≡ false → gpus ≡ [])
      × ((table : Table)
          → succeeded (last_attempt first more) ≡ true
          → (last_attempt first more).reading.table ≡ some table
          → gpus
            ≡ render_rows host fl cv
                (new_exporter host prefix resolved features m)
                (last_attempt first more).reading.extras.cuda_version
                table.rows
              ++ (render_apps host fl cv
                    (new_exporter host prefix resolved features m)
                    (latest s)
                    table.rows
                  ++ render_extras host fl cv
                      (new_exporter host prefix resolved features m)
                      (latest s)))
unfolding gpu_metrics
collect-run host fl cv prefix resolved features m xids on_fatal first more joins begun named
      accepts =
    let e = new_exporter host prefix resolved features m in
    let a = last_attempt first more in
    let ran = run-report on_fatal first more in
    let s = ran.0 in
    let reported = ran.2 in
    (
      s,
      fatal_calls on_fatal (first ∷ more),
      gpu_metrics host fl cv e (latest s) (latest s).table,
      ran.1,
      collect_lem host fl cv e xids (latest s)
          ∙ ap
              (λ h.
                h
                ++ (render_xids host fl cv e xids
                    ++ gpu_metrics host fl cv e (latest s) (latest s).table))
              (ap (render_health host fl cv e) reported
                ∙ render_health-report host fl cv e (first ∷ more) a accepts
                    (new_exporter-HealthIsPlain host prefix resolved features m joins begun named)),
      λ f. no_table-gpu_metrics host fl cv e (latest s) a (totals (first ∷ more)) reported f,
      λ table f g.
          gpu_metrics_lem host fl cv e (latest s) a (totals (first ∷ more)) table reported f g,
    )
