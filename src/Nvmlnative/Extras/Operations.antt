-- ===== src/Nvmlnative/Extras/Operations.antt =====
-- internal/nvmlnative: any sequence of operations on the backend leaves its GPM samples in order.
use nvidia_gpu_exporter.Common.{
  if◌then◌else◌, Bool-cases, some-injective, Floats, ℕ, ◌≡◌, refl, sym, ◌∙◌, subst, inl, inr, Bool,
  true, not, ◌&&◌, ◌||◌, none, some, List, [], ◌∷◌, arith, list_comparable, nat_comparable,
}
use nvidia_gpu_exporter.Nvmlnative.Backend.{
  Backend, tear_down, mark_lost, close, initialize, new_with_api, ensure_initialized, lifecycle,
  try_recover,
}
use nvidia_gpu_exporter.Nvmlnative.Driver.{
  Return, is_success, is_lifecycle_error, guarded_symbols, probe_symbols, has, init_call,
}
use nvidia_gpu_exporter.Nvmlnative.Extras.{CollectOptions, CycleAnswers, collect_extras}
use nvidia_gpu_exporter.Nvmlnative.Extras.Metrics.{if_both}
use nvidia_gpu_exporter.Nvmlnative.Extras.Orderly.{collect_extras-IsBalanced}
use nvidia_gpu_exporter.Nvmlnative.Extras.Samples.{
  held, IsOrderly, samples, nothing, IsBalanced, tear_down-Accounted, mark_lost-Accounted,
}
use nvidia_gpu_exporter.Nvmlnative.Mig.{Scales}
use nvidia_gpu_exporter.Text.{Text, codes}

-- What changes the backend: the start of a collection, an error of one, its extras, the recovery by
-- the event watcher, and Close.
pub data Operation : Type 0 where
  start_cycle : Return → (Text → Bool) → Operation
  fail_cycle : Bool → Return → Operation
  extras_cycle : Bool → CollectOptions → CycleAnswers → Operation
  recover : Bool → Return → (Text → Bool) → Operation
  close_backend : Bool → Bool → Operation

abbrev pub operate : Floats → Scales → Operation → Backend → Backend
operate fl sc (start_cycle ret exports) b = (ensure_initialized ret exports b).1
operate fl sc (fail_cycle acquired ret) b = (lifecycle acquired ret b).1
operate fl sc (extras_cycle acquired opts answers) b =
    (collect_extras fl sc acquired opts answers b).1
operate fl sc (recover acquired ret exports) b = try_recover acquired ret exports b
operate fl sc (close_backend locked acquired) b = close locked acquired b

abbrev pub operate_all : Floats → Scales → List Operation → Backend → Backend
operate_all fl sc [] b = b
operate_all fl sc (o ∷ operations) b = operate_all fl sc operations (operate fl sc o b)

initialize-IsBalanced :
    (exports : Text → Bool) (b : Backend) → IsBalanced b → IsBalanced (initialize exports b)
initialize-IsBalanced exports b h = record {
  orderly = (tt, h.orderly);
  unique = h.unique;
  account = h.account;
}

record BalancedOutcome (found : Bool × Backend) : Type 0 where
  balanced : IsBalanced found.1

start-Balanced :
    (ret : Return) (exports : Text → Bool) (b : Backend)
    → IsBalanced b
    → BalancedOutcome (ensure_initialized ret exports b)
unfolding ensure_initialized
start-Balanced ret exports b h =
    if_both BalancedOutcome b.initialized _ _ (record { balanced = h })
      (if_both BalancedOutcome (is_success ret) _ _
        (record { balanced = initialize-IsBalanced exports b h }) (record { balanced = h }))

fail-Balanced :
    (acquired : Bool) (ret : Return) (b : Backend)
    → IsBalanced b
    → BalancedOutcome (lifecycle acquired ret b)
unfolding lifecycle
fail-Balanced acquired ret b h =
    if_both BalancedOutcome (is_lifecycle_error ret) _ _
      (record { balanced = mark_lost-Accounted acquired b nothing h }) (record { balanced = h })

try_recover-IsBalanced :
    (acquired : Bool) (ret : Return) (exports : Text → Bool) (b : Backend)
    → IsBalanced b
    → IsBalanced (try_recover acquired ret exports b)
unfolding try_recover
try_recover-IsBalanced acquired ret exports b h =
    let lost : Backend = if b.initialized then mark_lost acquired b else b in
    let after : IsBalanced lost =
      if_both IsBalanced b.initialized (mark_lost acquired b) b
        (mark_lost-Accounted acquired b nothing h) h in
    if_both IsBalanced (is_success ret) (initialize exports lost) lost
      (initialize-IsBalanced exports lost after) after

close-IsBalanced :
    (locked acquired : Bool) (b : Backend) → IsBalanced b → IsBalanced (close locked acquired b)
unfolding close
close-IsBalanced locked acquired b h =
    if_both IsBalanced (not locked || not b.initialized) b (tear_down acquired b) h
      (tear_down-Accounted acquired b nothing h)

operate-IsBalanced :
    (fl : Floats) (sc : Scales) (o : Operation) (b : Backend)
    → IsBalanced b
    → IsBalanced (operate fl sc o b)
operate-IsBalanced fl sc (start_cycle ret exports) b h = (start-Balanced ret exports b h).balanced
operate-IsBalanced fl sc (fail_cycle acquired ret) b h = (fail-Balanced acquired ret b h).balanced
operate-IsBalanced fl sc (extras_cycle acquired opts answers) b h =
    collect_extras-IsBalanced fl sc acquired opts answers b h
operate-IsBalanced fl sc (recover acquired ret exports) b h =
    try_recover-IsBalanced acquired ret exports b h
operate-IsBalanced fl sc (close_backend locked acquired) b h = close-IsBalanced locked acquired b h

operate_all-IsBalanced :
    (fl : Floats) (sc : Scales) (operations : List Operation) (b : Backend)
    → IsBalanced b
    → IsBalanced (operate_all fl sc operations b)
operate_all-IsBalanced fl sc [] b h = h
operate_all-IsBalanced fl sc (o ∷ operations) b h =
    operate_all-IsBalanced fl sc operations (operate fl sc o b) (operate-IsBalanced fl sc o b h)

new-IsBalanced :
    (ret : Return) (exports : Text → Bool) (b : Backend)
    → new_with_api ret exports ≡ some b
    → IsBalanced b
unfolding new_with_api
new-IsBalanced ret exports b h =
    let first : Backend = record {
      initialized = true;
      last_cuda_version = [];
      avail = probe_symbols exports guarded_symbols;
      gpm = [];
      generation = 1;
      gen_live = true;
      calls = init_call ∷ [];
    } in
    elim (Bool-cases (is_success ret && has first.avail (codes "nvmlDeviceGetUUID"))) [
      | inl e ↦
          let same : some first ≡ some b = sym (rw e refl) ∙ h in
          subst IsBalanced (some-injective same)
            (record { orderly = (tt, tt); unique = tt; account = λ g. refl })
      | inr e ↦ (let no : none ≡ some b = sym (rw e refl) ∙ h in cc)
    ]

-- Whatever the driver answers to a new backend, in whichever order its operations come: a GPM sample
-- is freed or used only while it is held, so none is freed twice; and behind every operation the
-- samples that are held are those that are retained for a GPU instance, so none is leaked.
pub operate_all-IsOrderly :
    (fl : Floats) (sc : Scales) (ret : Return) (exports : Text → Bool) (b : Backend)
    (operations : List Operation)
    → new_with_api ret exports ≡ some b
    → IsOrderly (operate_all fl sc operations b).calls
      × ((h : ℕ)
          → held (operate_all fl sc operations b).calls h
            ≡ samples (operate_all fl sc operations b).gpm h)
operate_all-IsOrderly fl sc ret exports b operations started =
    let done = operate_all-IsBalanced fl sc operations b (new-IsBalanced ret exports b started) in
    (done.orderly, λ h. omega (arith, done.account h))
