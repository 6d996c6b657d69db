-- ===== src/Nvidiasmi/Resolve/Returned.antt =====
-- The names returned: as many as the fields queried, and put in the map under their field.
use nvidia_gpu_exporter.Common.{
  Bool-cases, length, get_elem?, get_elem?-append_length, append_cons, length-append_one, lookup,
  insert, lookup-insert, ◌==◌, contains, Distinct, same_refl, ok, index, ℕ, zero, suc, ◌≡◌, refl,
  ◌∙◌, ◌⊎◌, inl, inr, true, false, some, List, [], ◌∷◌, ◌++◌, arith, list_comparable,
  nat_comparable,
}
use nvidia_gpu_exporter.Nvidiasmi.Csv.{QField, RField}
use nvidia_gpu_exporter.Nvidiasmi.Resolve.{ResolveError, map_returned}

-- The map after the fields and names were put in side by side.
abbrev pub put_all : List QField → List RField → List (QField × RField) → List (QField × RField)
put_all [] rs m = m
put_all (q ∷ qs) [] m = m
put_all (q ∷ qs) (r ∷ rs) m = put_all qs rs (insert q r m)

map_returned_step :
    (rs : List RField) (i : ℕ) (q : QField) (r : RField) (qs : List QField)
    (m : List (QField × RField))
    → index {E = ResolveError} rs i ≡ ok r
    → map_returned rs i (q ∷ qs) m ≡ map_returned rs (suc i) qs (insert q r m)
unfolding map_returned
map_returned_step rs i q r qs m h = rw h

map_returned-put_all :
    (pre : List RField) (qs : List QField) (rs : List RField) (m : List (QField × RField))
    → length rs ≡ length qs
    → map_returned (pre ++ rs) (length pre) qs m ≡ ok (put_all qs rs m)
map_returned-put_all pre [] rs m h = unfold map_returned in refl
map_returned-put_all pre (q ∷ qs) [] m h = absurd (omega arith)
map_returned-put_all pre (q ∷ qs) (r ∷ rs) m h =
    map_returned_step (pre ++ r ∷ rs) (length pre) q r qs m
      (rw (get_elem?-append_length pre r rs, index))
    ∙ rw (append_cons pre r rs, ← length-append_one pre r)
        (map_returned-put_all (pre ++ r ∷ []) qs rs (insert q r m) (omega arith))

pub map_returned_lem :
    (qs : List QField) (rs : List RField)
    → length rs ≡ length qs
    → map_returned rs 0 qs [] ≡ ok (put_all qs rs [])
map_returned_lem qs rs = map_returned-put_all [] qs rs []

put_all_other :
    (k : QField) (qs : List QField) (rs : List RField) (m : List (QField × RField))
    → contains qs k ≡ false
    → lookup k (put_all qs rs m) ≡ lookup k m
put_all_other k [] rs m h = refl
put_all_other k (q ∷ qs) [] m h = refl
put_all_other k (q ∷ qs) (r ∷ rs) m h =
    put_all_other k qs rs (insert q r m) (ground arith) ∙ (lookup-insert q k r m ∙ ground arith)

-- With no field twice, each field is mapped to the name of its column.
pub lookup-put_all :
    (qs : List QField) (rs : List RField) (m : List (QField × RField)) (j : ℕ) (q : QField)
    → Distinct qs
    → length rs ≡ length qs
    → get_elem? qs j ≡ some q
    → lookup q (put_all qs rs m) ≡ get_elem? rs j
lookup-put_all [] rs m j q d h e = cc
lookup-put_all (k ∷ qs) [] m j q d h e = absurd (omega arith)
lookup-put_all (k ∷ qs) (r ∷ rs) m zero q d h e =
    let same : k ≡ q = cc in
    rw (← same)
      (put_all_other k qs rs (insert k r m) d.0 ∙ (lookup-insert k k r m ∙ rw (same_refl k)))
lookup-put_all (k ∷ qs) (r ∷ rs) m (suc j) q d h e =
    lookup-put_all qs rs (insert k r m) j q d.1 (omega arith) e

-- Asked for later, or in the map already.
abbrev pub Member : QField → List QField → List (QField × RField) → Type 0
Member k qs m = (contains qs k ≡ true) ⊎ ((r : RField) × (lookup k m ≡ some r))

later_Member :
    (k q : QField) (qs : List QField) (r : RField) (m : List (QField × RField))
    → (q == k) ≡ false
    → Member k (q ∷ qs) m
    → Member k qs (insert q r m)
later_Member k q qs r m e (inl c) = inl (rw e at c)
later_Member k q qs r m e (inr (r', f)) = inr (r', lookup-insert q k r m ∙ rw e f)

pub step_Member :
    (k q : QField) (qs : List QField) (r : RField) (m : List (QField × RField))
    → Member k (q ∷ qs) m
    → Member k qs (insert q r m)
step_Member k q qs r m c = elim (Bool-cases (q == k)) [
  | inl e ↦ inr (r, lookup-insert q k r m ∙ rw e)
  | inr e ↦ later_Member k q qs r m e c
]

pub end_Member :
    (k : QField) (m : List (QField × RField)) → Member k [] m → (r : RField) × (lookup k m ≡ some r)
end_Member k m (inl c) = cc
end_Member k m (inr f) = f

-- Every field put in is in the map, whatever stood there.
pub put_all-Member :
    (k : QField) (qs : List QField) (rs : List RField) (m : List (QField × RField))
    → length rs ≡ length qs
    → Member k qs m
    → (r : RField) × (lookup k (put_all qs rs m) ≡ some r)
put_all-Member k [] rs m h c = end_Member k m c
put_all-Member k (q ∷ qs) [] m h c = absurd (omega arith)
put_all-Member k (q ∷ qs) (r ∷ rs) m h c =
    put_all-Member k qs rs (insert q r m) (omega arith) (step_Member k q qs r m c)
