-- ===== src/Nvmlnative/Extras/Sampling.antt =====
-- internal/nvmlnative/mig_nvml.go: gpmUtilization frees what it no longer retains.
use nvidia_gpu_exporter.Collect.{Time}
use nvidia_gpu_exporter.Common.{
  ltb, if◌then◌else◌, Bool-cases, Option-cases, lookup, insert, insert-Distinct, lookup-none,
  Floats, ◌==◌, ℕ, ◌-◌, ◌≡◌, refl, sym, ◌∙◌, subst, inl, inr, Bool, not, ◌||◌, Option, none, some,
  List, ◌∷◌, arith, list_comparable, nat_comparable,
}
use nvidia_gpu_exporter.Nvmlnative.Backend.{GpmState, Backend, note}
use nvidia_gpu_exporter.Nvmlnative.Driver.{
  is_success, Call, sample_alloc, sample_free, sample_get, metrics_get,
}
use nvidia_gpu_exporter.Nvmlnative.Extras.Metrics.{
  if_both, AccountedBy, refused-Accounted, gpm_metrics-Accounted, gpm_metrics-Kept,
}
use nvidia_gpu_exporter.Nvmlnative.Extras.Retained.{
  samples-delete, delete-Distinct, deleted, samples-insert-none, samples-insert-some,
}
use nvidia_gpu_exporter.Nvmlnative.Extras.Samples.{
  one, Accounted, nothing, IsBalanced, one_self, free-Accounted, free_extra-Accounted,
  alloc-Accounted, get-Accounted,
}
use nvidia_gpu_exporter.Nvmlnative.Mig.{GpmAnswers, Scales, MigGroup}
use nvidia_gpu_exporter.Nvmlnative.Mig.Gpm.{
  gpm_min_window, gpm_max_window, delete, gpm_metrics, retained, seed, rotate, take_sample, serve,
  gpm_utilization,
}
use nvidia_gpu_exporter.Text.{Text, codes, join}

module _ (fl : Floats) (sc : Scales) (acquired : Bool) where
  -- The accounts behind the metrics of a retained and a fresh sample.
  metrics_get-Accounted :
      (key : Text) (state : GpmState) (g : ℕ) (b : Backend)
      → lookup key b.gpm ≡ some state
      → Accounted b.gpm b.calls (one g)
      → Accounted b.gpm (metrics_get state.sample g ∷ b.calls) (one g)
  metrics_get-Accounted key state g b e acc = record {
    orderly = (
      (
        omega (
          arith,
          acc.account state.sample,
          samples-delete key b.gpm state e state.sample,
          one_self state.sample,
        ),
        omega (arith, acc.account g, one_self g),
      ),
      acc.orderly,
    );
    unique = acc.unique;
    account = acc.account;
  }

  rotated-Accounted :
      (key : Text) (state new : GpmState) (gpm : List (Text × GpmState)) (calls : List Call)
      → lookup key gpm ≡ some state
      → Accounted gpm calls (one new.sample)
      → Accounted (insert key new gpm) (sample_free state.sample ∷ calls) nothing
  rotated-Accounted key state new gpm calls e acc = record {
    orderly = (
      omega (
        arith,
        acc.account state.sample,
        samples-delete key gpm state e state.sample,
        one_self state.sample,
      ),
      acc.orderly,
    );
    unique = insert-Distinct key new gpm acc.unique;
    account = λ h. omega (
      arith,
      acc.account h,
      samples-insert-some key gpm state new e h,
      samples-delete key gpm state e h,
    );
  }

  rotate-Accounted :
      (key : Text) (state : GpmState) (a : GpmAnswers) (b : Backend)
      → lookup key b.gpm ≡ some state
      → Accounted b.gpm b.calls (one a.alloc.1)
      → AccountedBy nothing (rotate fl sc acquired key state a b)
  unfolding rotate
  rotate-Accounted key state a b e acc =
      let util = gpm_metrics fl sc acquired state.sample a.alloc.1 a b in
      let asked = metrics_get-Accounted key state a.alloc.1 b e acc in
      let after =
        gpm_metrics-Accounted fl sc acquired state.sample a.alloc.1 a b (one a.alloc.1) asked in
      elim (Bool-cases util.ok) [
        | inl t ↦
            let kept = gpm_metrics-Kept fl sc acquired state.sample a.alloc.1 a b t in
            let new : GpmState = record state {
              sample = a.alloc.1;
              taken = a.now;
              last = util.value;
            } in
            rw t (
              subst
                (λ (after : Backend).
                  Accounted (insert key new after.gpm) (sample_free state.sample ∷ after.calls)
                    nothing)
                (sym kept)
                (rotated-Accounted key state new b.gpm
                  (metrics_get state.sample a.alloc.1 ∷ b.calls) e asked))
        | inr f ↦ rw f (free_extra-Accounted a.alloc.1 after)
      ]

  seed-Accounted :
      (key fingerprint : Text) (a : GpmAnswers) (b : Backend)
      → lookup key b.gpm ≡ none
      → Accounted b.gpm b.calls (one a.alloc.1)
      → AccountedBy nothing (seed fl sc acquired key fingerprint a b)
  unfolding seed
  seed-Accounted key fingerprint a b e acc =
      let state : GpmState = record {
        sample = a.alloc.1;
        taken = a.now;
        fingerprint = fingerprint;
        last = none;
      } in
      record {
        orderly = acc.orderly;
        unique = insert-Distinct key state b.gpm acc.unique;
        account = λ h. omega (arith, acc.account h, samples-insert-none key b.gpm state e h);
      }

  take_sample-Accounted :
      (key fingerprint : Text) (state : Option GpmState) (a : GpmAnswers) (b : Backend)
      → lookup key b.gpm ≡ state
      → IsBalanced b
      → AccountedBy nothing (take_sample fl sc acquired key fingerprint state a b)
  unfolding take_sample
  take_sample-Accounted key fingerprint state a b e acc =
      let allocated = alloc-Accounted a.alloc.1 acc in
      let sampled = get-Accounted a.alloc.1 allocated in
      let after = note (sample_get a.alloc.1) (note (sample_alloc a.alloc.1) b) in
      if_both (AccountedBy nothing) (not (is_success a.alloc.0)) _ _
        (refused-Accounted acquired a.alloc.0 b nothing acc)
        (if_both (AccountedBy nothing) (not (is_success a.get)) _ _
          (refused-Accounted acquired a.get (note (sample_free a.alloc.1) after) nothing
            (free_extra-Accounted a.alloc.1 sampled))
          (elim (Option-cases state) [
            | inl n ↦ rw n (seed-Accounted key fingerprint a after (e ∙ n) sampled)
            | inr (s, f) ↦ rw f (rotate-Accounted key s a after (e ∙ f) sampled)
          ]))

  abbrev pub is_stale : Text → Time → GpmState → Bool
  is_stale fingerprint now s =
      not (s.fingerprint == fingerprint) || ltb gpm_max_window (now - s.taken)

  pub retained-none :
      (key fingerprint : Text) (now : Time) (b : Backend)
      → lookup key b.gpm ≡ none
      → retained fl sc acquired key fingerprint now b ≡ (none, b)
  unfolding retained
  retained-none key fingerprint now b n = rw (n, retained) refl

  pub retained-some :
      (key fingerprint : Text) (now : Time) (b : Backend) (s : GpmState)
      → lookup key b.gpm ≡ some s
      → retained fl sc acquired key fingerprint now b ≡ (
          if is_stale fingerprint now s
          then (none, record (note (sample_free s.sample) b) { gpm = delete key b.gpm })
          else (some s, b))
  unfolding retained
  retained-some key fingerprint now b s f = rw (f, retained) refl

  -- What is found is what the map behind it has.
  abbrev Found : Text → Option GpmState × Backend → Type 0
  Found key found = (lookup key found.1.gpm ≡ found.0) × IsBalanced found.1

  retained-Found :
      (key fingerprint : Text) (now : Time) (b : Backend)
      → IsBalanced b
      → Found key (retained fl sc acquired key fingerprint now b)
  retained-Found key fingerprint now b acc = elim (Option-cases (lookup key b.gpm)) [
    | inl n ↦ subst (Found key) (sym (retained-none key fingerprint now b n)) (n, acc)
    | inr (s, f) ↦ subst (Found key) (sym (retained-some key fingerprint now b s f)) (
        if_both (Found key) (is_stale fingerprint now s) _ _
          (
            lookup-none key (delete key b.gpm) (deleted key b.gpm acc.unique),
            free-Accounted s.sample acc (samples-delete key b.gpm s f)
                (delete-Distinct key b.gpm acc.unique),
          )
          (f, acc))
  ]

  serve-Accounted :
      (key fingerprint : Text) (a : GpmAnswers) (found : Option GpmState × Backend)
      → Found key found
      → AccountedBy nothing (serve fl sc acquired key fingerprint a found)
  unfolding serve
  serve-Accounted key fingerprint a (none, b) h =
      take_sample-Accounted key fingerprint none a b h.0 h.1
  serve-Accounted key fingerprint a (some s, b) h =
      if_both (AccountedBy nothing) (ltb (a.now - s.taken) gpm_min_window) _ _ h.1
        (take_sample-Accounted key fingerprint (some s) a b h.0 h.1)

  pub gpm_utilization-IsBalanced :
      (key : Text) (group : MigGroup) (a : GpmAnswers) (b : Backend)
      → IsBalanced b
      → IsBalanced (gpm_utilization fl sc acquired key group a b).backend
  unfolding gpm_utilization
  gpm_utilization-IsBalanced key group a b acc =
      let fingerprint = join (codes ",") group.members in
      serve-Accounted key fingerprint a (retained fl sc acquired key fingerprint a.now b)
        (retained-Found key fingerprint a.now b acc)
