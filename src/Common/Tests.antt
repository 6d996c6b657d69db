-- ===== src/Common/Tests.antt =====
-- Boolean tests on the native numbers, the conditional, and case lemmas on computed values.
use Prim.Native.Nat.{ℕ, compare, Ordering}
use mathlib.Core.Bool.{Bool, true, false}
use mathlib.Core.Logic.{◌↔◌, ◌⊎◌, inl, inr}
use mathlib.Core.Option.{Option, none, some}
use mathlib.Core.Path.{◌≡◌, refl}
use native.Mathlib.Omega.{arith}

abbrev pub ltb : ℕ → ℕ → Bool
ltb a b = elim (compare a b) [ Ordering.lt ↦ true | _ ↦ false ]

abbrev pub leb : ℕ → ℕ → Bool
leb a b = elim (compare a b) [ Ordering.gt ↦ false | _ ↦ true ]

abbrev pub nat_same : ℕ → ℕ → Bool
nat_same a b = elim (compare a b) [ Ordering.eq ↦ true | _ ↦ false ]

infix 1 if◌then◌else◌
abbrev pub if◌then◌else◌ {ℓ} : {A : Type ℓ} → Bool → A → A → A
if true then x else y = x
if false then x else y = y

pub nat_same_iff : (a b : ℕ) → (nat_same a b ≡ true) ↔ (a ≡ b)
nat_same_iff a b = ground arith

pub Bool-cases : (b : Bool) → (b ≡ true) ⊎ (b ≡ false)
Bool-cases true = inl refl
Bool-cases false = inr refl

pub Option-cases {ℓ} : {A : Type ℓ} (o : Option A) → (o ≡ none) ⊎ ((a : A) × (o ≡ some a))
Option-cases none = inl refl
Option-cases (some a) = inr (a, refl)

pub inl-injective {ℓ κ} :
    {A : Type ℓ} {B : Type κ} {x y : A} → ◌≡◌ {A = A ⊎ B} (inl x) (inl y) → x ≡ y
inl-injective h = cc

pub Sum-cases {ℓ κ} :
    {A : Type ℓ} {B : Type κ} (r : A ⊎ B) → ((a : A) × (r ≡ inl a)) ⊎ ((b : B) × (r ≡ inr b))
Sum-cases (inl a) = inl (a, refl)
Sum-cases (inr b) = inr (b, refl)

pub some-injective {ℓ} : {A : Type ℓ} {x y : A} → some x ≡ some y → x ≡ y
some-injective h = cc

pub inr-injective {ℓ κ} :
    {A : Type ℓ} {B : Type κ} {x y : B} → ◌≡◌ {A = A ⊎ B} (inr x) (inr y) → x ≡ y
inr-injective h = cc
