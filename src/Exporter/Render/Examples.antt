-- ===== src/Exporter/Render/Examples.antt =====
-- A scrape of two GPUs with a process and three MIG devices.
use nvidia_gpu_exporter.Collect.{CollectError, exit_error, Snapshot, Reading, Attempt}
use nvidia_gpu_exporter.Collect.Cached.{Cached, new_cached, latest, run}
use nvidia_gpu_exporter.Collect.Cached.Runs.{last_attempt}
use nvidia_gpu_exporter.Collect.Readings.{MigInstance, no_extras}
use nvidia_gpu_exporter.Collect.Totals.{succeeded, totals, report}
use nvidia_gpu_exporter.Common.{
  ltb, if◌then◌else◌, pos, length, replicate, All, keys, lookup, insert, Floats, ◌==◌, contains,
  Distinct, ℕ, ◌*◌, ◌≡◌, refl, inr, true, false, ◌||◌, Option, none, some, List, [], ◌∷◌, ◌++◌, map,
  list_comparable, nat_comparable,
}
use nvidia_gpu_exporter.Exporter.Claims.{
  gauge_value, exec_exit_code_metric, reserved_metric_names, build_q_field_to_metric_info_map,
}
use nvidia_gpu_exporter.Exporter.Descs.{
  Features, AppDescs, MigDescs, GpuExporter, new_exporter, describe,
}
use nvidia_gpu_exporter.Exporter.Names.{Desc, Host, build_fq_name_and_multiplier}
use nvidia_gpu_exporter.Exporter.Names.Legal.{JoinsNames}
use nvidia_gpu_exporter.Exporter.Names.Valid.{IsName, IsPrefix, IsName-of_checks}
use nvidia_gpu_exporter.Exporter.Render.{
  Metric, Conversions, XidCounter, row_uuid, float_of_bool, send, render_xids, render_cell,
  render_cells, render_row, render_rows, render_app, render_apps, render_gpu_instance,
  render_mig_info, render_mig_instances, render_extras, collect,
}
use nvidia_gpu_exporter.Exporter.Render.Apps.{number_on, sent_by, render_apps-counts}
use nvidia_gpu_exporter.Exporter.Render.Described.{collect-Among}
use nvidia_gpu_exporter.Exporter.Render.Health.{health_of, collect-run}
use nvidia_gpu_exporter.Exporter.Render.Mig.{sent_once, render_mig_instances-sent_once}
use nvidia_gpu_exporter.Exporter.Render.Plain.{AcceptsPlain}
use nvidia_gpu_exporter.Exporter.Render.Sent.{Among}
use nvidia_gpu_exporter.Nvidiasmi.ComputeApps.{ComputeApp}
use nvidia_gpu_exporter.Nvidiasmi.Csv.{Cell, Row, Table}
use nvidia_gpu_exporter.Nvidiasmi.Resolve.{ResolvedFields}
use nvidia_gpu_exporter.Nvidiasmi.Transform.{
  scale_number, parse_sanitized_value, transform_field_value,
}
use nvidia_gpu_exporter.Text.{Text, codes, to_lower, trim_space, has_prefix, split}

abbrev floats : Floats
floats = record {
  parse_float = λ s. some (length s);
  of_uint = λ n. n;
  mul = λ a b. a * b;
  is_inf = λ a. false;
  is_nan = λ a. false;
}

abbrev conversions : Conversions
conversions = record {
  of_int = λ z. 7;
  seconds = λ t. t;
  unix = λ t. t;
  unix_nano_seconds = λ t. t;
}

-- A metric is made with as many label values as there are labels.
abbrev host : Host
host = record {
  build_fq_name = λ prefix name.
      if name == [] then [] else if prefix == [] then name else prefix ++ b'_' ∷ name;
  accepts = λ desc values. length desc.labels == length values;
}

abbrev resolved : ResolvedFields
resolved = record {
  query = codes "uuid" ∷ codes "power.draw" ∷ [];
  returned = (codes "power.draw", codes "power.draw [W]") ∷ [];
  info = [];
}

abbrev features : Features
features = record {
  compute_apps = true;
  compute_app_mig_labels = false;
  pcie_throughput = true;
  energy = true;
  mig = true;
  xid_events = true;
}

abbrev exporter : GpuExporter
exporter = new_exporter host (codes "p") resolved features exec_exit_code_metric

abbrev cell : Text → Text → Cell
cell q value = record { q_field = q; r_field = q; raw_value = value }

abbrev row : Text → Row
row uuid = record {
  q_field_to_cells = (codes "uuid", cell (codes "uuid") uuid) ∷ [];
  cells = cell (codes "uuid") uuid ∷ cell (codes "power.draw") (codes "25 W") ∷ [];
}

abbrev rows : List Row
rows = row (codes "gpu-a") ∷ row (codes "gpu-b") ∷ []

abbrev app : ComputeApp
app = record {
  gpu_uuid = codes "a";
  pid = codes "1";
  process_name = codes "x";
  used_memory = codes "5 MiB";
  gpu_instance_id = [];
  compute_instance_id = [];
}

abbrev mig_instance : Text → MigInstance
mig_instance gpu_instance_id = record {
  parent_uuid = codes "a";
  uuid = codes "m";
  gpu_instance_id = gpu_instance_id;
  compute_instance_id = codes "0";
  profile = codes "1g.10gb";
  memory = some (record { total = 4; used = 3; free = 1; reserved = 0 });
  utilization = none;
}

abbrev mig_instances : List MigInstance
mig_instances = mig_instance (codes "1") ∷ mig_instance (codes "1") ∷ mig_instance (codes "2") ∷ []

abbrev reading : Reading
reading = record {
  table = some (record { rows = rows; r_fields = []; q_field_to_cells = [] });
  apps = app ∷ [];
  apps_attempted = true;
  apps_success = true;
  extras = record no_extras { mig = mig_instances };
}

abbrev good : Attempt
good = record {
  reading = reading;
  exit_code = pos 0;
  error = none;
  start = 5;
  now = 7;
  expired = false;
}

abbrev bad : Attempt
bad = record good { exit_code = pos 9; error = some (exit_error []); start = 10; now = 11 }

abbrev xids : Option (List XidCounter)
xids = some (record { uuid = codes "a"; xid = 79; count = 2; last_seen = 6 } ∷ [])

abbrev snapshot : Snapshot
snapshot = report good (totals (good ∷ []))

collect-Among_example :
    All
      (λ (m : Metric). Among (describe exporter) m.desc)
      (collect host floats conversions exporter xids snapshot)
collect-Among_example = collect-Among host floats conversions exporter xids snapshot

plain_accepted : AcceptsPlain host
plain_accepted desc h g = rw h refl

host_joins : JoinsNames host
host_joins prefix name = refl

prefix_begins : IsPrefix (codes "p")
prefix_begins = inr (IsName-of_checks (codes "p") refl refl)

exit_code_named : IsName exec_exit_code_metric.name
exit_code_named = IsName-of_checks exec_exit_code_metric.name refl refl

collect-run_example :
    (s : Cached) × (calls : List CollectError) × (gpus : List Metric) × (run
        (new_cached true)
        bad
        (good ∷ [])
      ≡ some (s, calls))
    × (collect host floats conversions exporter xids (latest s)
        ≡ health_of floats conversions exporter (bad ∷ good ∷ []) (last_attempt bad (good ∷ []))
          ++ (render_xids host floats conversions exporter xids ++ gpus))
    × (succeeded (last_attempt bad (good ∷ [])) ≡ false → gpus ≡ [])
    × ((table : Table)
        → succeeded (last_attempt bad (good ∷ [])) ≡ true
        → (last_attempt bad (good ∷ [])).reading.table ≡ some table
        → gpus
          ≡ render_rows host floats conversions exporter
              (last_attempt bad (good ∷ [])).reading.extras.cuda_version
              table.rows
            ++ (render_apps host floats conversions exporter (latest s) table.rows
                ++ render_extras host floats conversions exporter (latest s)))
collect-run_example =
    collect-run host floats conversions (codes "p") resolved features exec_exit_code_metric xids
      true bad (good ∷ []) host_joins prefix_begins exit_code_named plain_accepted

abbrev desc : Text → ℕ → Desc
desc name labels = record { fq_name = name; help = []; labels = replicate labels (codes "l") }

abbrev some_descs : AppDescs
some_descs = record {
  app_info = desc (codes "i") 3;
  app_memory = desc (codes "m") 3;
  app_count = desc (codes "c") 1;
  apps_success = desc (codes "s") 0;
}

abbrev with_apps : GpuExporter
with_apps = record exporter { app_descs = some some_descs }

abbrev mig_descs : MigDescs
mig_descs = record {
  mig_info = desc (codes "i") 5;
  mem_total = desc (codes "t") 2;
  mem_used = desc (codes "u") 2;
  mem_free = desc (codes "f") 2;
  mem_reserved = desc (codes "r") 2;
  graphics_activity = desc (codes "g") 2;
  sm_activity = desc (codes "s") 2;
  sm_occupancy = desc (codes "o") 2;
  tensor_activity = desc (codes "n") 2;
  mig_pcie_tx = desc (codes "x") 2;
  mig_pcie_rx = desc (codes "y") 2;
}

render_apps-counts_example :
    (counts : List (Text × ℕ)) × (render_apps host floats conversions with_apps snapshot rows ≡ (
      if snapshot.apps_attempted
      then send host some_descs.apps_success gauge_value (float_of_bool snapshot.apps_success) []
        ++ (if snapshot.apps_success
            then sent_by
                (render_app host floats conversions some_descs with_apps.app_mig_labels)
                snapshot.apps
              ++ sent_by (λ c. send host some_descs.app_count gauge_value c.1 (c.0 ∷ [])) counts
            else [])
      else []))
    × Distinct (keys counts)
    × ((uuid : Text)
        → lookup uuid counts ≡ (
            if contains (map row_uuid rows) uuid || ltb 0 (number_on uuid snapshot.apps)
            then some (number_on uuid snapshot.apps)
            else none))
render_apps-counts_example =
    render_apps-counts host floats conversions with_apps snapshot rows some_descs refl

render_mig_instances-sent_once_example :
    render_mig_instances host floats conversions mig_descs [] mig_instances
    ≡ sent_once
        (render_mig_info host floats conversions mig_descs)
        (render_gpu_instance host floats conversions mig_descs)
        []
        mig_instances
render_mig_instances-sent_once_example =
    render_mig_instances-sent_once host floats conversions mig_descs mig_instances
      (refl, (refl, (refl, tt)))

-- Three infos, and the memory of two GPU instances.
mig_test : length (render_mig_instances host floats conversions mig_descs [] mig_instances) ≡ 11
unfolding render_mig_instances render_mig_info render_gpu_instance send
mig_test = refl

-- Of the cells of a row only the one that the exporter has a metric for is sent.
row_test :
    map
      (λ (m : Metric). m.desc.fq_name)
      (render_row host floats conversions exporter [] (row (codes "gpu-a")))
    ≡ codes "p_gpu_info" ∷ codes "p_power_draw_watts" ∷ []
unfolding render_row render_cells render_cell send new_exporter lookup transform_field_value
    build_q_field_to_metric_info_map nvidia_gpu_exporter.Exporter.Names.build_fq_name_and_multiplier
    nvidia_gpu_exporter.Text.to_lower nvidia_gpu_exporter.Text.split
    nvidia_gpu_exporter.Exporter.Claims.reserved_metric_names nvidia_gpu_exporter.Common.insert
    nvidia_gpu_exporter.Text.has_prefix nvidia_gpu_exporter.Text.trim_space
    nvidia_gpu_exporter.Nvidiasmi.Transform.parse_sanitized_value
    nvidia_gpu_exporter.Nvidiasmi.Transform.scale_number
row_test = refl
