-- ===== src/Nvmlnative/Extras/Examples.antt =====
-- A GPU with one MIG device, over two collections and the loss of the driver.
use nvidia_gpu_exporter.Collect.{Time}
use nvidia_gpu_exporter.Collect.Readings.{MigUtilization}
use nvidia_gpu_exporter.Common.{
  if◌then◌else◌, lookup, Floats, ◌==◌, ok, ℕ, ◌*◌, ◌≡◌, refl, Bool, true, false, not, none, some,
  List, [], ◌∷◌, list_comparable, nat_comparable,
}
use nvidia_gpu_exporter.Nvmlnative.Backend.{GpmState, Backend, free_calls, new_with_api}
use nvidia_gpu_exporter.Nvmlnative.Driver.{
  Return, success, gpu_is_lost, is_success, is_lifecycle_error, guarded_symbols, probe_symbols,
  init_call, sample_alloc, sample_free, sample_get, metrics_get,
}
use nvidia_gpu_exporter.Nvmlnative.Extras.{CollectOptions}
use nvidia_gpu_exporter.Nvmlnative.Extras.Lost.{is_lost, shutdown_calls, take_sample-calls}
use nvidia_gpu_exporter.Nvmlnative.Extras.Operations.{
  Operation, extras_cycle, operate_all, operate_all-IsOrderly,
}
use nvidia_gpu_exporter.Nvmlnative.Extras.Samples.{held, IsOrderly, samples}
use nvidia_gpu_exporter.Nvmlnative.Extras.Windows.{IsWindowed, gpm_utilization-IsWindowed}
use nvidia_gpu_exporter.Nvmlnative.Mig.{MigDevice, GpmAnswers, Device, Scales, MigGroup}
use nvidia_gpu_exporter.Nvmlnative.Mig.Gpm.{set_metric, take_sample, gpm_utilization}
use nvidia_gpu_exporter.Text.{Text, codes, join}

abbrev floats : Floats
floats = record {
  parse_float = λ s. none;
  of_uint = λ n. n;
  mul = λ a b. a * b;
  is_inf = λ a. false;
  is_nan = λ a. false;
}

abbrev scales : Scales
scales = record { of_percent = λ a. a; of_mebi = λ a. a; of_milli = λ n. n; of_kilo = λ n. n }

abbrev exports : Text → Bool
exports symbol = true

abbrev backend : Backend
backend = record {
  initialized = true;
  last_cuda_version = [];
  avail = probe_symbols exports guarded_symbols;
  gpm = [];
  generation = 1;
  gen_live = true;
  calls = init_call ∷ [];
}

abbrev mig_device : MigDevice
mig_device = record {
  uuid = (success, codes "MIG-m");
  gpu_instance_id = (success, 1);
  compute_instance_id = (success, 0);
  name = (success, codes "H100 MIG 1g.10gb");
  memory = (success, record { total = 4; used = 3; free = 1; reserved = 0 });
}

-- The sampling at a time, with the handle of the new sample and the return of the metrics.
abbrev answers_at : Time → ℕ → Return → GpmAnswers
answers_at now sample ret = record {
  now = now;
  alloc = (success, sample);
  get = success;
  metrics = (ret, λ id. (success, id));
}

abbrev gpu : GpmAnswers → Device
gpu gpm = record {
  handle = success;
  uuid = (success, codes "GPU-a");
  energy = (success, 5);
  pcie_tx = (success, 1);
  pcie_rx = (success, 1);
  mig_mode = (success, true);
  max_mig = (success, 1);
  mig_device = λ i. (success, mig_device);
  gpm_support = (success, true);
  gpm = λ gi. gpm;
  ended_before = false;
  ended_between = false;
}

abbrev options : CollectOptions
options = record { compute_apps = false; pcie_throughput = true; energy = true; mig = true }

abbrev cycle : GpmAnswers → Operation
cycle gpm =
    extras_cycle true options
      (record { cuda_version = (success, 13010); device_count = success; devices = gpu gpm ∷ [] })

abbrev operations : List Operation
operations =
    cycle (answers_at 1000000000 7 success)
    ∷ cycle (answers_at 3000000000 8 success)
    ∷ cycle (answers_at 5000000000 9 gpu_is_lost)
    ∷ []

started : new_with_api success exports ≡ some backend
unfolding new_with_api is_success probe_symbols guarded_symbols
started = refl

operate_all-IsOrderly_example :
    IsOrderly (operate_all floats scales operations backend).calls
    × ((h : ℕ)
        → held (operate_all floats scales operations backend).calls h
          ≡ samples (operate_all floats scales operations backend).gpm h)
operate_all-IsOrderly_example =
    operate_all-IsOrderly floats scales success exports backend operations started

abbrev group : MigGroup
group = record { gi = 1; members = codes "m" ∷ [] }

abbrev state : GpmState
state = record { sample = 7; taken = 1000000000; fingerprint = codes "m"; last = none }

abbrev holding : Backend
holding = record backend {
  gpm = (codes "a/1", state) ∷ [];
  calls = sample_alloc 7 ∷ init_call ∷ [];
}

abbrev answers : GpmAnswers
answers = answers_at 3000000000 8 success

abbrev values : MigUtilization
values = record {
  graphics_activity_ratio = some 1;
  sm_activity_ratio = some 2;
  sm_occupancy_ratio = some 3;
  tensor_activity_ratio = some 5;
  pcie_tx_bytes_per_second = some 20;
  pcie_rx_bytes_per_second = some 21;
}

values_served :
    (gpm_utilization floats scales true (codes "a/1") group answers holding).value ≡ some values
unfolding gpm_utilization nvidia_gpu_exporter.Common.lookup nvidia_gpu_exporter.Text.join is_success
    nvidia_gpu_exporter.Nvmlnative.Mig.Gpm.set_metric
values_served = refl

gpm_utilization-IsWindowed_example :
    IsWindowed floats scales true (codes "a/1") group answers holding values
gpm_utilization-IsWindowed_example =
    gpm_utilization-IsWindowed floats scales true (codes "a/1") group answers holding values
      values_served

-- One of the metrics says that the driver is lost, and the lock is not acquired.
abbrev lost_answers : GpmAnswers
lost_answers = record (answers_at 3000000000 8 success) {
  metrics = (success, λ id. if id == 5 then (gpu_is_lost, 0) else (success, 1));
}

take_sample-calls_example :
    ((take_sample floats scales false
        (codes "a/1")
        (codes "m")
        (some state)
        lost_answers
        holding).ok
      ≡ not (is_lost lost_answers))
    × ((take_sample floats scales false
          (codes "a/1")
          (codes "m")
          (some state)
          lost_answers
          holding).backend.calls
        ≡ (if is_lost lost_answers
            then sample_free 8
              ∷ shutdown_calls false (
                  free_calls holding.gpm
                    (metrics_get 7 8 ∷ sample_get 8 ∷ sample_alloc 8 ∷ holding.calls))
            else sample_free 7 ∷ metrics_get 7 8 ∷ sample_get 8 ∷ sample_alloc 8 ∷ holding.calls))
unfolding is_success is_lifecycle_error
take_sample-calls_example =
    take_sample-calls floats scales false (codes "a/1") (codes "m") state lost_answers holding refl
      refl refl

lost_answers_test : is_lost lost_answers ≡ true
unfolding is_success is_lifecycle_error
lost_answers_test = refl
