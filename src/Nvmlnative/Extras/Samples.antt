-- ===== src/Nvmlnative/Extras/Samples.antt =====
-- internal/nvmlnative: the accounts of the GPM samples that the driver handed out.
use nvidia_gpu_exporter.Common.{
  if◌then◌else◌, Bool-cases, keys, ◌==◌, Distinct, ℕ, ◌+◌, ◌-◌, ◌≤◌, ◌≡◌, refl, inl, inr, Bool,
  List, [], ◌∷◌, arith, list_comparable, nat_comparable,
}
use nvidia_gpu_exporter.Nvmlnative.Backend.{
  GpmState, Backend, free_calls, free_gpm_samples, tear_down, mark_lost, extras_failure,
}
use nvidia_gpu_exporter.Nvmlnative.Driver.{
  Return, is_lifecycle_error, Call, init_call, shutdown_call, sample_alloc, sample_free, sample_get,
  metrics_get,
}
use nvidia_gpu_exporter.Text.{Text}

abbrev pub one : ℕ → ℕ → ℕ
one g h = if g == h then 1 else 0

-- How often a sample is held after the calls: allocated and not freed.
abbrev pub held : List Call → ℕ → ℕ
held [] h = 0
held (sample_alloc g ∷ calls) h = held calls h + one g h
held (sample_free g ∷ calls) h = held calls h - one g h
held (init_call ∷ calls) h = held calls h
held (shutdown_call ∷ calls) h = held calls h
held (sample_get g ∷ calls) h = held calls h
held (metrics_get p c ∷ calls) h = held calls h

-- Only a sample that is held is freed or used.
abbrev pub IsAllowed : Call → (ℕ → ℕ) → Type 0
IsAllowed (sample_free g) before = 1 ≤ before g
IsAllowed (sample_get g) before = 1 ≤ before g
IsAllowed (metrics_get p c) before = (1 ≤ before p) × (1 ≤ before c)
IsAllowed init_call before = Unit
IsAllowed shutdown_call before = Unit
IsAllowed (sample_alloc g) before = Unit

abbrev pub IsOrderly : List Call → Type 0
IsOrderly [] = Unit
IsOrderly (c ∷ calls) = IsAllowed c (held calls) × IsOrderly calls

-- How often a sample is retained.
abbrev pub samples : List (Text × GpmState) → ℕ → ℕ
samples [] h = 0
samples (entry ∷ gpm) h = one entry.1.sample h + samples gpm h

-- The samples that are held are those that are retained, each key once, and the extra ones.
pub record Accounted (gpm : List (Text × GpmState)) (calls : List Call) (extra : ℕ → ℕ)
    : Type 0 where
  pub orderly : IsOrderly calls
  pub unique : Distinct (keys gpm)
  pub account : (h : ℕ) → held calls h ≡ samples gpm h + extra h

abbrev pub nothing : ℕ → ℕ
nothing h = 0

-- Between two operations.
abbrev pub IsBalanced : Backend → Type 0
IsBalanced b = Accounted b.gpm b.calls nothing

pub one_self : (g : ℕ) → one g g ≡ 1
one_self g = ground arith

pub free-Accounted :
    {gpm rest : List (Text × GpmState)} {calls : List Call} {extra : ℕ → ℕ} (g : ℕ)
    → Accounted gpm calls extra
    → ((h : ℕ) → samples gpm h ≡ one g h + samples rest h)
    → Distinct (keys rest)
    → Accounted rest (sample_free g ∷ calls) extra
free-Accounted {gpm} {rest} {calls} {extra} g a e d = record {
  orderly = (omega (arith, a.account g, e g, one_self g), a.orderly);
  unique = d;
  account = λ h. omega (arith, a.account h, e h);
}

free_calls-Accounted :
    (gpm : List (Text × GpmState)) (calls : List Call) (extra : ℕ → ℕ)
    → Accounted gpm calls extra
    → Accounted [] (free_calls gpm calls) extra
unfolding free_calls
free_calls-Accounted [] calls extra a = a
free_calls-Accounted (entry ∷ gpm) calls extra a =
    free_calls-Accounted gpm (sample_free entry.1.sample ∷ calls) extra
      (free-Accounted entry.1.sample a (λ h. refl) a.unique.1)

-- A free of the extra sample.
pub free_extra-Accounted :
    {gpm : List (Text × GpmState)} {calls : List Call} (g : ℕ)
    → Accounted gpm calls (one g)
    → Accounted gpm (sample_free g ∷ calls) nothing
free_extra-Accounted g a = record {
  unique = a.unique;
  orderly = (omega (arith, a.account g, one_self g), a.orderly);
  account = λ h. omega (arith, a.account h);
}

pub alloc-Accounted :
    {gpm : List (Text × GpmState)} {calls : List Call} (g : ℕ)
    → Accounted gpm calls nothing
    → Accounted gpm (sample_alloc g ∷ calls) (one g)
alloc-Accounted g a = record {
  unique = a.unique;
  orderly = (tt, a.orderly);
  account = λ h. omega (arith, a.account h);
}

-- A use of the extra sample.
pub get-Accounted :
    {gpm : List (Text × GpmState)} {calls : List Call} (g : ℕ)
    → Accounted gpm calls (one g)
    → Accounted gpm (sample_get g ∷ calls) (one g)
get-Accounted g a = record {
  unique = a.unique;
  orderly = (omega (arith, a.account g, one_self g), a.orderly);
  account = a.account;
}

pub tear_down-Accounted :
    (acquired : Bool) (b : Backend) (extra : ℕ → ℕ)
    → Accounted b.gpm b.calls extra
    → Accounted (tear_down acquired b).gpm (tear_down acquired b).calls extra
unfolding tear_down free_gpm_samples
tear_down-Accounted acquired b extra a =
    let freed = free_calls-Accounted b.gpm b.calls extra a in
    elim (Bool-cases acquired) [
      | inl e ↦
          rw e (record {
            orderly = (tt, freed.orderly);
            unique = freed.unique;
            account = freed.account;
          })
      | inr e ↦ rw e freed
    ]

pub mark_lost-Accounted :
    (acquired : Bool) (b : Backend) (extra : ℕ → ℕ)
    → Accounted b.gpm b.calls extra
    → Accounted (mark_lost acquired b).gpm (mark_lost acquired b).calls extra
unfolding mark_lost
mark_lost-Accounted acquired b extra a = elim (Bool-cases b.initialized) [
  | inl e ↦ rw e (tear_down-Accounted acquired b extra a)
  | inr e ↦ rw e a
]

pub extras_failure-Accounted :
    (acquired : Bool) (ret : Return) (b : Backend) (extra : ℕ → ℕ)
    → Accounted b.gpm b.calls extra
    → Accounted (extras_failure acquired ret b).1.gpm (extras_failure acquired ret b).1.calls extra
unfolding extras_failure
extras_failure-Accounted acquired ret b extra a = elim (Bool-cases (is_lifecycle_error ret)) [
  | inl e ↦ rw e (mark_lost-Accounted acquired b extra a)
  | inr e ↦ rw e a
]
