-- ===== src/Common/Equality.antt =====
-- Go's `comparable` as an interface, and membership of a list by it.
use mathlib.Core.Bool.{Bool, true, false, ◌&&◌, ◌||◌}
use mathlib.Core.List.{List, [], ◌∷◌, ◌++◌}
use mathlib.Core.Logic.{◌↔◌}
use mathlib.Core.Path.{◌≡◌, refl}
use native.Mathlib.Omega.{arith}
use Prim.Native.Nat.{ℕ}
use nvidia_gpu_exporter.Common.Lists.{filter}
use nvidia_gpu_exporter.Common.Tests.{nat_same, nat_same_iff}

pub record Comparable {ℓ} (A : Type ℓ) : Type ℓ where
  pub same : A → A → Bool
  pub same_iff : (a b : A) → (same a b ≡ true) ↔ (a ≡ b)

infix 50 ◌==◌
abbrev pub ◌==◌ {ℓ} : {T : Type ℓ} ⦃c : Comparable T⦄ → T → T → Bool
◌==◌ ⦃c⦄ x y = c.same x y

instance abbrev pub nat_comparable : Comparable ℕ
nat_comparable = record { same = nat_same; same_iff = nat_same_iff }

-- Equality of lists, entry by entry.
module _ {ℓ} {A : Type ℓ} ⦃e : Comparable A⦄ where
  abbrev pub list_same : List A → List A → Bool
  list_same [] [] = true
  list_same [] (y ∷ ys) = false
  list_same (x ∷ xs) [] = false
  list_same (x ∷ xs) (y ∷ ys) = x == y && list_same xs ys

  pub list_same_iff : (xs ys : List A) → (list_same xs ys ≡ true) ↔ (xs ≡ ys)
  list_same_iff [] [] = (λ _. refl, λ _. refl)
  list_same_iff [] (y ∷ ys) = ground arith
  list_same_iff (x ∷ xs) [] = ground arith
  list_same_iff (x ∷ xs) (y ∷ ys) = ground (arith, e.same_iff x y, list_same_iff xs ys)

instance abbrev pub list_comparable {ℓ} : {A : Type ℓ} ⦃e : Comparable A⦄ → Comparable (List A)
list_comparable = record { same = list_same; same_iff = list_same_iff }

module _ {ℓ} {A : Type ℓ} ⦃e : Comparable A⦄ where
  abbrev pub contains : List A → A → Bool
  contains [] a = false
  contains (x ∷ xs) a = x == a || contains xs a

  -- No entry stands twice.
  abbrev pub Distinct : List A → Type 0
  Distinct [] = Unit
  Distinct (x ∷ xs) = (contains xs x ≡ false) × Distinct xs

  pub contains-append :
      (xs ys : List A) (a : A) → contains (xs ++ ys) a ≡ contains xs a || contains ys a
  contains-append [] ys a = refl
  contains-append (x ∷ xs) ys a = ground (arith, contains-append xs ys a)

  -- Filtering adds nothing.
  pub contains-filter :
      (p : A → Bool) (xs : List A) (a : A)
      → contains xs a ≡ false
      → contains (filter p xs) a ≡ false
  contains-filter p [] a h = refl
  contains-filter p (x ∷ xs) a h = ground (arith, contains-filter p xs a)

  pub filter-Distinct : (p : A → Bool) (xs : List A) → Distinct xs → Distinct (filter p xs)
  filter-Distinct p [] h = tt
  filter-Distinct p (x ∷ xs) h =
      ground (arith, contains-filter p xs x h.0, filter-Distinct p xs h.1)

  pub same_refl : (a : A) → (a == a) ≡ true
  same_refl a = (e.same_iff a a).1 refl
