-- ===== src/Nvmlnative/Extras/Windows.antt =====
-- internal/nvmlnative/mig_nvml.go: which samples the values of a GPU instance are computed from.
use nvidia_gpu_exporter.Collect.Readings.{MigUtilization}
use nvidia_gpu_exporter.Common.{
  ltb, if◌then◌else◌, Bool-cases, Option-cases, lookup, Floats, ◌==◌, list_same_iff, ◌-◌, ◌≤◌, ◌<◌,
  ◌≡◌, refl, sym, ap, ◌∙◌, ◌⊎◌, inl, inr, Bool, true, false, not, ◌||◌, Option, none, some, arith,
  list_comparable, nat_comparable,
}
use nvidia_gpu_exporter.Nvmlnative.Backend.{GpmState, Backend, note}
use nvidia_gpu_exporter.Nvmlnative.Driver.{is_success, sample_alloc, sample_free, sample_get}
use nvidia_gpu_exporter.Nvmlnative.Extras.Metrics.{if_both}
use nvidia_gpu_exporter.Nvmlnative.Extras.Sampling.{is_stale, retained-none, retained-some}
use nvidia_gpu_exporter.Nvmlnative.Mig.{GpmAnswers, Scales, MigGroup}
use nvidia_gpu_exporter.Nvmlnative.Mig.Gpm.{
  gpm_min_window, gpm_max_window, delete, Utilized, refused, gpm_metrics, retained, seed, rotate,
  take_sample, serve, gpm_utilization,
}
use nvidia_gpu_exporter.Text.{Text, codes, join}

-- The backend once the fresh sample was taken.
abbrev pub sampled : GpmAnswers → Backend → Backend
sampled a b = note (sample_get a.alloc.1) (note (sample_alloc a.alloc.1) b)

record Missing (u : Utilized) : Type 0 where
  missing : u.value ≡ none

record From (o : Option MigUtilization) (u : Utilized) : Type 0 where
  only : (v : MigUtilization) → u.value ≡ some v → o ≡ some v

Missing-From : (o : Option MigUtilization) (u : Utilized) → Missing u → From o u
Missing-From o u h = record { only = λ v e. (let no : none ≡ some v = sym h.missing ∙ e in cc) }

stale_tests : (f w : Bool) → not f || w ≡ false → (f ≡ true) × (w ≡ false)
stale_tests f w h = ground arith

module _ (fl : Floats) (sc : Scales) (acquired : Bool) where
  take_sample-Missing :
      (key fingerprint : Text) (a : GpmAnswers) (b : Backend)
      → Missing (take_sample fl sc acquired key fingerprint none a b)
  unfolding take_sample refused seed
  take_sample-Missing key fingerprint a b =
      if_both Missing (not (is_success a.alloc.0)) _ _ (record { missing = refl })
        (if_both Missing (not (is_success a.get)) _ _ (record { missing = refl })
          (record { missing = refl }))

  rotate-From :
      (key : Text) (state : GpmState) (a : GpmAnswers) (b : Backend)
      → From
          (gpm_metrics fl sc acquired state.sample a.alloc.1 a b).value
          (rotate fl sc acquired key state a b)
  unfolding rotate
  rotate-From key state a b =
      let util = gpm_metrics fl sc acquired state.sample a.alloc.1 a b in
      if_both (From util.value) (not util.ok) _ _
        (Missing-From util.value _ (record { missing = refl })) (record { only = λ v e. e })

  take_sample-From :
      (key fingerprint : Text) (state : GpmState) (a : GpmAnswers) (b : Backend)
      → From
          (gpm_metrics fl sc acquired state.sample a.alloc.1 a (sampled a b)).value
          (take_sample fl sc acquired key fingerprint (some state) a b)
  unfolding take_sample refused
  take_sample-From key fingerprint state a b =
      let o = (gpm_metrics fl sc acquired state.sample a.alloc.1 a (sampled a b)).value in
      if_both (From o) (not (is_success a.alloc.0)) _ _
        (Missing-From o _ (record { missing = refl }))
        (if_both (From o) (not (is_success a.get)) _ _
          (Missing-From o _ (record { missing = refl })) (rotate-From key state a (sampled a b)))

  found_none :
      (key : Text) (group : MigGroup) (a : GpmAnswers) (b b' : Backend)
      → retained fl sc acquired key (join (codes ",") group.members) a.now b ≡ (none, b')
      → gpm_utilization fl sc acquired key group a b
        ≡ take_sample fl sc acquired key (join (codes ",") group.members) none a b'
  unfolding gpm_utilization serve
  found_none key group a b b' e = ap (serve fl sc acquired key (join (codes ",") group.members) a) e

  found_some :
      (key : Text) (group : MigGroup) (a : GpmAnswers) (b b' : Backend) (s : GpmState)
      → retained fl sc acquired key (join (codes ",") group.members) a.now b ≡ (some s, b')
      → gpm_utilization fl sc acquired key group a b ≡ (
          if ltb (a.now - s.taken) gpm_min_window
          then record { value = s.last; ok = true; backend = b' }
          else take_sample fl sc acquired key (join (codes ",") group.members) (some s) a b')
  unfolding gpm_utilization serve
  found_some key group a b b' s e =
      ap (serve fl sc acquired key (join (codes ",") group.members) a) e

  -- The sample that the values are computed from, and how.
  abbrev pub IsWindowed : Text → MigGroup → GpmAnswers → Backend → MigUtilization → Type 0
  IsWindowed key group a b v =
      (state : GpmState) × (lookup key b.gpm ≡ some state)
      × (state.fingerprint ≡ join (codes ",") group.members)
      × (a.now - state.taken ≤ gpm_max_window)
      × (((a.now - state.taken < gpm_min_window) × (state.last ≡ some v))
          ⊎ ((gpm_min_window ≤ a.now - state.taken)
              × ((gpm_metrics fl sc acquired state.sample a.alloc.1 a (sampled a b)).value
                  ≡ some v)))

  from_none :
      (key : Text) (group : MigGroup) (a : GpmAnswers) (b b' : Backend) (v : MigUtilization)
      → retained fl sc acquired key (join (codes ",") group.members) a.now b ≡ (none, b')
      → (gpm_utilization fl sc acquired key group a b).value ≡ some v
      → IsWindowed key group a b v
  from_none key group a b b' v e h =
      let nothing_found = take_sample-Missing key (join (codes ",") group.members) a b' in
      let no : none ≡ some v =
        sym nothing_found.missing
        ∙ sym (ap (λ (u : Utilized). u.value) (found_none key group a b b' e))
        ∙ h in
      cc

  -- Where values are served for a GPU instance, a sample was retained under its key, of the same
  -- members and no older than ten minutes. They are those computed last if it is younger than a
  -- second, and else those that the driver computes from it and the fresh sample.
  pub gpm_utilization-IsWindowed :
      (key : Text) (group : MigGroup) (a : GpmAnswers) (b : Backend) (v : MigUtilization)
      → (gpm_utilization fl sc acquired key group a b).value ≡ some v
      → IsWindowed key group a b v
  gpm_utilization-IsWindowed key group a b v h =
      let fingerprint = join (codes ",") group.members in
      elim (Option-cases (lookup key b.gpm)) [
        | inl n ↦
            from_none key group a b b v (retained-none fl sc acquired key fingerprint a.now b n) h
        | inr (s, f) ↦
            let found = retained-some fl sc acquired key fingerprint a.now b s f in
            elim (Bool-cases (is_stale fl sc acquired fingerprint a.now s)) [
              | inl t ↦
                  from_none key group a b
                    (record (note (sample_free s.sample) b) { gpm = delete key b.gpm }) v
                    (found ∙ rw t refl) h
              | inr t ↦
                  let tests =
                    stale_tests (s.fingerprint == fingerprint)
                      (ltb gpm_max_window (a.now - s.taken)) t in
                  let value =
                    sym (
                      ap (λ (u : Utilized). u.value)
                        (found_some key group a b b s (found ∙ rw t refl)))
                    ∙ h in
                  (
                    s,
                    f,
                    (list_same_iff s.fingerprint fingerprint).0 tests.0,
                    ground (arith, tests.1),
                    elim (Bool-cases (ltb (a.now - s.taken) gpm_min_window)) [
                      | inl y ↦ inl (ground (arith, y), rw y at value)
                      | inr y ↦ inr (
                        ground (arith, y),
                        (take_sample-From key fingerprint s a b).only v (rw y at value),
                      )
                    ],
                  )
            ]
      ]
