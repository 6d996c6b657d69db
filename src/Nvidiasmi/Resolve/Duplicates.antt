-- ===== src/Nvidiasmi/Resolve/Duplicates.antt =====
-- `removeDuplicates` keeps the first of each.
use nvidia_gpu_exporter.Common.{
  Bool-cases, filter, Comparable, ◌==◌, contains, Distinct, filter-Distinct, same_refl, ◌≡◌, refl,
  sym, ap, ◌∙◌, inl, inr, Bool, true, false, not, ◌&&◌, List, [], ◌∷◌, ◌++◌, append_assoc,
  append-nil, arith, list_comparable, nat_comparable,
}
use nvidia_gpu_exporter.Nvidiasmi.Resolve.{remove_loop, remove_duplicates}
use nvidia_gpu_exporter.Text.{fields}

module _ {ℓ} {A : Type ℓ} where
  filter-filter :
      (p q : A → Bool) (xs : List A) → filter p (filter q xs) ≡ filter (λ x. q x && p x) xs
  filter-filter p q [] = refl
  filter-filter p q (x ∷ xs) = ground (arith, filter-filter p q xs)

  filter-ext : (p q : A → Bool) → ((x : A) → p x ≡ q x) → (xs : List A) → filter p xs ≡ filter q xs
  filter-ext p q h [] = refl
  filter-ext p q h (x ∷ xs) = ground (arith, h x, filter-ext p q h xs)

module _ {ℓ} {A : Type ℓ} ⦃e : Comparable A⦄ where
  -- Each entry at its first place.
  abbrev pub first_seen : List A → List A
  first_seen [] = []
  first_seen (x ∷ xs) = x ∷ filter (λ y. not (x == y)) (first_seen xs)

  abbrev unseen : List A → A → Bool
  unseen val_map y = not (contains val_map y)

  -- Past the first entry: dropped if the map has it, else kept and put in the map.
  first_seen_mapped :
      (val_map : List A) (x : A) (xs : List A)
      → contains val_map x ≡ true
      → filter (unseen val_map) (first_seen (x ∷ xs)) ≡ filter (unseen val_map) (first_seen xs)
  first_seen_mapped val_map x xs h = rw h (
      filter-filter (unseen val_map) (λ y. not (x == y)) (first_seen xs)
      ∙ filter-ext _ _ (λ y. ground (arith, e.same_iff x y)) (first_seen xs))

  first_seen_new :
      (val_map : List A) (x : A) (xs : List A)
      → contains val_map x ≡ false
      → filter (unseen val_map) (first_seen (x ∷ xs))
        ≡ x ∷ filter (unseen (x ∷ val_map)) (first_seen xs)
  first_seen_new val_map x xs h = rw h (
      ap (◌∷◌ x) (
        filter-filter (unseen val_map) (λ y. not (x == y)) (first_seen xs)
        ∙ filter-ext _ _ (λ y. ground arith) (first_seen xs)))

  remove_loop_mapped :
      (val_map uniques : List A) (x : A) (xs : List A)
      → contains val_map x ≡ true
      → remove_loop val_map uniques (x ∷ xs) ≡ remove_loop val_map uniques xs
  unfolding remove_loop
  remove_loop_mapped val_map uniques x xs h = rw (h, remove_loop)

  remove_loop_new :
      (val_map uniques : List A) (x : A) (xs : List A)
      → contains val_map x ≡ false
      → remove_loop val_map uniques (x ∷ xs) ≡ remove_loop (x ∷ val_map) (uniques ++ x ∷ []) xs
  unfolding remove_loop
  remove_loop_new val_map uniques x xs h = rw (h, remove_loop)

  remove_loop_lem :
      (val_map uniques fields : List A)
      → remove_loop val_map uniques fields ≡ uniques ++ filter (unseen val_map) (first_seen fields)
  remove_loop_lem val_map uniques [] = unfold remove_loop in sym (append-nil uniques)
  remove_loop_lem val_map uniques (x ∷ xs) = elim (Bool-cases (contains val_map x)) [
    | inl h ↦
        remove_loop_mapped val_map uniques x xs h
        ∙ (remove_loop_lem val_map uniques xs
            ∙ sym (ap (◌++◌ uniques) (first_seen_mapped val_map x xs h)))
    | inr h ↦
        remove_loop_new val_map uniques x xs h
        ∙ (remove_loop_lem (x ∷ val_map) (uniques ++ x ∷ []) xs
            ∙ (append_assoc uniques (x ∷ []) (filter (unseen (x ∷ val_map)) (first_seen xs))
                ∙ sym (ap (◌++◌ uniques) (first_seen_new val_map x xs h))))
  ]

  filter_all : (xs : List A) → filter (unseen []) xs ≡ xs
  filter_all [] = refl
  filter_all (x ∷ xs) = ap (◌∷◌ x) (filter_all xs)

  -- Removing duplicates keeps each entry at its first place, and drops all later ones.
  pub remove_duplicates_lem : (fields : List A) → remove_duplicates fields ≡ first_seen fields
  unfolding remove_duplicates
  remove_duplicates_lem fields = remove_loop_lem [] [] fields ∙ filter_all (first_seen fields)

  contains-filter_other :
      (x a : A) (xs : List A)
      → contains (filter (λ y. not (x == y)) xs) a ≡ not (x == a) && contains xs a
  contains-filter_other x a [] = ground arith
  contains-filter_other x a (y ∷ ys) =
      ground (arith, contains-filter_other x a ys, e.same_iff x y, e.same_iff y a, e.same_iff x a)

  first_seen-Distinct : (xs : List A) → Distinct (first_seen xs)
  first_seen-Distinct [] = tt
  first_seen-Distinct (x ∷ xs) = (
    contains-filter_other x x (first_seen xs) ∙ rw (same_refl x),
    filter-Distinct (λ y. not (x == y)) (first_seen xs) (first_seen-Distinct xs),
  )

  contains-first_seen : (xs : List A) (a : A) → contains (first_seen xs) a ≡ contains xs a
  contains-first_seen [] a = refl
  contains-first_seen (x ∷ xs) a =
      ground (arith, contains-filter_other x a (first_seen xs), contains-first_seen xs a)

  -- The list without duplicates holds the same entries, each once.
  pub remove_duplicates-Distinct :
      (fields : List A)
      → Distinct (remove_duplicates fields)
        × ((a : A) → contains (remove_duplicates fields) a ≡ contains fields a)
  remove_duplicates-Distinct fields =
      rw (remove_duplicates_lem fields) (first_seen-Distinct fields, contains-first_seen fields)
