-- ===== src/Common/Fallible.antt =====
-- The result of a call that may return an error or panic.
use mathlib.Core.Option.{Option, none, some}
use mathlib.Core.Path.{◌≡◌, refl, subst}
use mathlib.Core.List.{List}
use mathlib.Core.Logic.{◌↔◌, ◌≢◌}
use Prim.Native.Nat.{ℕ}
use nvidia_gpu_exporter.Common.Lists.{get_elem?}

pub data Outcome {ℓ κ} (E : Type ℓ) (A : Type κ) : Type (ℓ ⊔ κ) where
  ok : A → Outcome E A
  err : E → Outcome E A
  panic : Outcome E A

module _ {ℓ κ μ} {E : Type ℓ} {A : Type κ} {B : Type μ} where
  infixl 5 ◌>>=◌
  abbrev pub ◌>>=◌ : Outcome E A → (A → Outcome E B) → Outcome E B
  ok a >>= f = f a
  err x >>= f = err x
  panic >>= f = panic

  pub bind-eq-ok :
      (call : Outcome E A) (later : A → Outcome E B) {result : B}
      → (call >>= later) ≡ ok result
      → (value : A) × (call ≡ ok value) × (later value ≡ ok result)
  bind-eq-ok panic later h = cc
  bind-eq-ok (err x) later h = cc
  bind-eq-ok (ok value) later h = (value, refl, h)

-- `xs[i]`, which panics out of range.
abbrev pub index {ℓ κ} : {E : Type ℓ} {A : Type κ} → List A → ℕ → Outcome E A
index xs i = elim (get_elem? xs i) [ none ↦ panic | some a ↦ ok a ]

-- A call against a description of its errors: without an error it returns a value with the
-- property, else it returns that error.
pub data Yields {ℓ κ μ} {E : Type ℓ} {A : Type κ} (P : A → Type μ) (m : Outcome E A) (o : Option E)
    : Type (ℓ ⊔ κ ⊔ μ) where
  returns : (a : A) → o ≡ none → m ≡ ok a → P a → Yields P m o
  fails : (e : E) → o ≡ some e → m ≡ err e → Yields P m o

module _ {ℓ κ μ} {E : Type ℓ} {A : Type κ} {P : A → Type μ} {m : Outcome E A} {o : Option E} where
  pub Yields-err_iff : Yields P m o → (e : E) → (m ≡ err e) ↔ (o ≡ some e)
  Yields-err_iff (returns a n h p) e = (λ g. cc, λ g. cc)
  Yields-err_iff (fails x n h) e = (λ g. cc, λ g. cc)

  pub Yields-ne-panic : Yields P m o → m ≢ panic
  Yields-ne-panic (returns a n h p) g = cc
  Yields-ne-panic (fails x n h) g = cc

  pub Yields-ok : Yields P m o → (a : A) → m ≡ ok a → P a
  Yields-ok (returns b n h p) a g = subst P (cc) p
  Yields-ok (fails x n h) a g = cc

  pub Yields-returns : Yields P m o → o ≡ none → (a : A) × (m ≡ ok a) × P a
  Yields-returns (returns a n h p) g = (a, h, p)
  Yields-returns (fails x n h) g = cc
