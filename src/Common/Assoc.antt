-- ===== src/Common/Assoc.antt =====
-- Go maps as association lists: the first entry of a key counts, and a write replaces it.

use mathlib.Core.List.{List, [], ◌∷◌, map}
use mathlib.Core.Bool.{false}
use mathlib.Core.Logic.{inl, inr}
use mathlib.Core.Option.{Option, none, some}
use mathlib.Core.Path.{◌≡◌, refl, ◌∙◌}
use native.Mathlib.Omega.{arith}
use nvidia_gpu_exporter.Common.Tests.{if◌then◌else◌, Bool-cases}
use nvidia_gpu_exporter.Common.Equality.{Comparable, ◌==◌, contains, Distinct}

abbrev pub keys {ℓ κ} : {K : Type ℓ} {V : Type κ} → List (K × V) → List K
keys = map (λ e. e.0)

module _ {ℓ κ} {K : Type ℓ} {V : Type κ} ⦃eq : Comparable K⦄ where
  unfoldable pub lookup : K → List (K × V) → Option V
  lookup key [] = none
  lookup key ((key', value) ∷ entries) = if key' == key then some value else lookup key entries

  unfoldable pub insert : K → V → List (K × V) → List (K × V)
  insert key value [] = (key, value) ∷ []
  insert key value ((key', old) ∷ entries) =
      if key' == key then (key, value) ∷ entries else (key', old) ∷ insert key value entries

  -- A read after a write.
  pub lookup-insert :
      (written key : K) (value : V) (entries : List (K × V))
      → lookup key (insert written value entries)
        ≡ (if written == key then some value else lookup key entries)
  unfolding lookup insert
  lookup-insert written key value [] = refl
  lookup-insert written key value ((key', old) ∷ entries) = ground (
    arith,
    lookup-insert written key value entries,
    eq.same_iff written key,
    eq.same_iff key' written,
    eq.same_iff key' key,
  )

  -- A write adds no key but the one that is written.
  contains-keys-insert :
      (key : K) (value : V) (entries : List (K × V)) (k : K)
      → (key == k) ≡ false
      → contains (keys (insert key value entries)) k ≡ contains (keys entries) k
  unfolding insert
  contains-keys-insert key value [] k h = ground (arith, h)
  contains-keys-insert key value ((key', old) ∷ entries) k h =
      ground (arith, h, contains-keys-insert key value entries k h, eq.same_iff key' key)

  pub insert-Distinct :
      (key : K) (value : V) (entries : List (K × V))
      → Distinct (keys entries)
      → Distinct (keys (insert key value entries))
  unfolding insert
  insert-Distinct key value [] h = (refl, tt)
  insert-Distinct key value ((key', old) ∷ entries) h = elim (Bool-cases (key' == key)) [
    | inl e ↦ rw (e, insert) (rw ((eq.same_iff key' key).0 e) at h)
    | inr e ↦
        rw (e, insert)
          (
            contains-keys-insert key value entries key'
                  (ground (arith, e, eq.same_iff key' key, eq.same_iff key key'))
                ∙ h.0,
            insert-Distinct key value entries h.1,
          )
  ]

  pub lookup-none :
      (key : K) (entries : List (K × V))
      → contains (keys entries) key ≡ false
      → lookup key entries ≡ none
  unfolding lookup
  lookup-none key [] h = refl
  lookup-none key (entry ∷ entries) h = ground (arith, h, lookup-none key entries)
