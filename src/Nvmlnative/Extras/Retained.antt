-- ===== src/Nvmlnative/Extras/Retained.antt =====
-- internal/nvmlnative/mig_nvml.go: the accounts of samples over the map of gpmUtilization.
use nvidia_gpu_exporter.Common.{
  Bool-cases, keys, lookup, insert, ◌==◌, list_same_iff, contains, Distinct, ℕ, ◌+◌, ◌≡◌, refl, sym,
  inl, inr, false, none, some, List, [], ◌∷◌, arith, list_comparable, nat_comparable,
}
use nvidia_gpu_exporter.Nvmlnative.Backend.{GpmState, Backend}
use nvidia_gpu_exporter.Nvmlnative.Driver.{Call, sample_free}
use nvidia_gpu_exporter.Nvmlnative.Extras.{drop_orphans, drop_orphan_gpm_states}
use nvidia_gpu_exporter.Nvmlnative.Extras.Samples.{
  one, samples, Accounted, nothing, IsBalanced, free-Accounted,
}
use nvidia_gpu_exporter.Nvmlnative.Mig.Gpm.{delete}
use nvidia_gpu_exporter.Text.{Text}

pub samples-delete :
    (key : Text) (gpm : List (Text × GpmState)) (s : GpmState)
    → lookup key gpm ≡ some s
    → (h : ℕ) → samples gpm h ≡ one s.sample h + samples (delete key gpm) h
unfolding lookup delete
samples-delete key [] s e h = cc
samples-delete key (entry ∷ gpm) s e h = elim (Bool-cases (entry.0 == key)) [
  | inl f ↦ let same : entry.1 ≡ s = ground (arith, e, f) in rw (f, sym same) refl
  | inr f ↦ let later = samples-delete key gpm s (rw f at e) h in rw f (omega (arith, later))
]

contains-keys-delete :
    (key : Text) (gpm : List (Text × GpmState)) (k : Text)
    → contains (keys gpm) k ≡ false
    → contains (keys (delete key gpm)) k ≡ false
unfolding delete
contains-keys-delete key [] k h = refl
contains-keys-delete key (entry ∷ gpm) k h = ground (arith, h, contains-keys-delete key gpm k)

pub delete-Distinct :
    (key : Text) (gpm : List (Text × GpmState))
    → Distinct (keys gpm)
    → Distinct (keys (delete key gpm))
unfolding delete
delete-Distinct key [] h = tt
delete-Distinct key (entry ∷ gpm) h = elim (Bool-cases (entry.0 == key)) [
  | inl f ↦ rw f h.1
  | inr f ↦ rw f (contains-keys-delete key gpm entry.0 h.0, delete-Distinct key gpm h.1)
]

pub deleted :
    (key : Text) (gpm : List (Text × GpmState))
    → Distinct (keys gpm)
    → contains (keys (delete key gpm)) key ≡ false
unfolding delete
deleted key [] h = refl
deleted key (entry ∷ gpm) h = elim (Bool-cases (entry.0 == key)) [
  | inl f ↦ rw (f, sym ((list_same_iff entry.0 key).0 f)) h.0
  | inr f ↦ rw f (ground (arith, f, deleted key gpm h.1))
]

pub samples-insert-none :
    (key : Text) (gpm : List (Text × GpmState)) (s : GpmState)
    → lookup key gpm ≡ none
    → (h : ℕ) → samples (insert key s gpm) h ≡ one s.sample h + samples gpm h
unfolding lookup insert
samples-insert-none key [] s e h = refl
samples-insert-none key (entry ∷ gpm) s e h = elim (Bool-cases (entry.0 == key)) [
  | inl f ↦ (let no : some entry.1 ≡ none = rw f at e in cc)
  | inr f ↦ let later = samples-insert-none key gpm s (rw f at e) h in rw f (omega (arith, later))
]

pub samples-insert-some :
    (key : Text) (gpm : List (Text × GpmState)) (old s : GpmState)
    → lookup key gpm ≡ some old
    → (h : ℕ) → samples (insert key s gpm) h + one old.sample h ≡ one s.sample h + samples gpm h
unfolding lookup insert
samples-insert-some key [] old s e h = cc
samples-insert-some key (entry ∷ gpm) old s e h = elim (Bool-cases (entry.0 == key)) [
  | inl f ↦ let same : entry.1 ≡ old = ground (arith, e, f) in rw (f, sym same) (omega arith)
  | inr f ↦
      let later = samples-insert-some key gpm old s (rw f at e) h in rw f (omega (arith, later))
]

contains-keys-drop_orphans :
    (seen : List Text) (gpm : List (Text × GpmState)) (calls : List Call) (k : Text)
    → contains (keys gpm) k ≡ false
    → contains (keys (drop_orphans seen gpm calls).0) k ≡ false
unfolding drop_orphans
contains-keys-drop_orphans seen [] calls k h = refl
contains-keys-drop_orphans seen (entry ∷ gpm) calls k h =
    elim (Bool-cases (contains seen entry.0)) [
      | inl e ↦ rw e (ground (arith, h, contains-keys-drop_orphans seen gpm calls k))
      | inr e ↦ rw e (
          contains-keys-drop_orphans seen gpm (sample_free entry.1.sample ∷ calls) k
            (ground (arith, h)))
    ]

-- dropOrphanGPMStates, with a kept entry as an extra sample.
drop_orphans-Accounted :
    (seen : List Text) (gpm : List (Text × GpmState)) (calls : List Call) (extra : ℕ → ℕ)
    → Accounted gpm calls extra
    → Accounted (drop_orphans seen gpm calls).0 (drop_orphans seen gpm calls).1 extra
unfolding drop_orphans
drop_orphans-Accounted seen [] calls extra a = a
drop_orphans-Accounted seen (entry ∷ gpm) calls extra a =
    elim (Bool-cases (contains seen entry.0)) [
      | inl e ↦
          let g = entry.1.sample in
          let apart : Accounted gpm calls (λ h. one g h + extra h) = record {
            orderly = a.orderly;
            unique = a.unique.1;
            account = λ h. omega (arith, a.account h);
          } in
          let rest = drop_orphans-Accounted seen gpm calls (λ h. one g h + extra h) apart in
          rw e (record {
            orderly = rest.orderly;
            unique = (contains-keys-drop_orphans seen gpm calls entry.0 a.unique.0, rest.unique);
            account = λ h. omega (arith, rest.account h);
          })
      | inr e ↦ rw e (
          drop_orphans-Accounted seen gpm (sample_free entry.1.sample ∷ calls) extra
            (free-Accounted entry.1.sample a (λ h. refl) a.unique.1))
    ]

pub drop_orphan_gpm_states-IsBalanced :
    (seen : List Text) (b : Backend) → IsBalanced b → IsBalanced (drop_orphan_gpm_states seen b)
unfolding drop_orphan_gpm_states
drop_orphan_gpm_states-IsBalanced seen b a = drop_orphans-Accounted seen b.gpm b.calls nothing a
