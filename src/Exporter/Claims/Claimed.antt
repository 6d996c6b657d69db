-- ===== src/Exporter/Claims/Claimed.antt =====
-- internal/exporter/exporter.go: the claimants of a name are the fields with that name.
use nvidia_gpu_exporter.Common.{
  Bool-cases, length, filter, lookup, insert, lookup-insert, ◌==◌, list_same_iff, contains,
  Distinct, ◌≡◌, refl, sym, ap, ◌∙◌, inl, inr, Bool, false, ◌||◌, List, [], ◌∷◌, ◌++◌, append_assoc,
  append-nil, arith, list_comparable, nat_comparable,
}
use nvidia_gpu_exporter.Exporter.Claims.{
  text_leb, insert_sorted, sort_fields, fields_or_nil, claim_names,
}
use nvidia_gpu_exporter.Nvidiasmi.Csv.{QField}
use nvidia_gpu_exporter.Text.{Text}

pub claim_names_lem :
    (name_of : QField → Text) (q_fields : List QField) (claimants : List (Text × List QField))
    (fq_name : Text)
    → fields_or_nil (lookup fq_name (claim_names name_of q_fields claimants))
      ≡ fields_or_nil (lookup fq_name claimants) ++ filter (λ q. name_of q == fq_name) q_fields
unfolding claim_names
claim_names_lem name_of [] claimants fq_name = sym (append-nil _)
claim_names_lem name_of (q ∷ q_fields) claimants fq_name =
    let own = fields_or_nil (lookup (name_of q) claimants) ++ q ∷ [] in
    let rest = claim_names_lem name_of q_fields (insert (name_of q) own claimants) fq_name in
    let more = filter (λ r. name_of r == fq_name) q_fields in
    elim (Bool-cases (name_of q == fq_name)) [
      | inl e ↦
          rest
          ∙ rw (lookup-insert (name_of q) fq_name own claimants, e)
              (ap (λ n. (fields_or_nil (lookup n claimants) ++ q ∷ []) ++ more)
                  ((list_same_iff (name_of q) fq_name).0 e)
                ∙ append_assoc (fields_or_nil (lookup fq_name claimants)) (q ∷ []) more)
      | inr e ↦ rest ∙ rw (lookup-insert (name_of q) fq_name own claimants, e) refl
    ]

contains-insert_sorted :
    (q : QField) (qs : List QField) (a : QField)
    → contains (insert_sorted q qs) a ≡ q == a || contains qs a
unfolding insert_sorted
contains-insert_sorted q [] a = refl
contains-insert_sorted q (r ∷ qs) a = ground (arith, contains-insert_sorted q qs a)

pub contains-sort_fields :
    (qs : List QField) (a : QField) → contains (sort_fields qs) a ≡ contains qs a
unfolding sort_fields
contains-sort_fields [] a = refl
contains-sort_fields (q ∷ qs) a =
    contains-insert_sorted q (sort_fields qs) a ∙ ap (λ b. q == a || b) (contains-sort_fields qs a)

insert_sorted-Distinct :
    (q : QField) (qs : List QField)
    → contains qs q ≡ false
    → Distinct qs
    → Distinct (insert_sorted q qs)
unfolding insert_sorted
insert_sorted-Distinct q [] n h = (refl, tt)
insert_sorted-Distinct q (r ∷ qs) n h = elim (Bool-cases (text_leb q r)) [
  | inl e ↦ rw e (n, h)
  | inr e ↦
      let behind = contains-insert_sorted q qs r in
      rw e (
        ground (arith, behind, list_same_iff q r, list_same_iff r q, h.0),
        insert_sorted-Distinct q qs (ground arith) h.1,
      )
]

pub sort_fields-Distinct : (qs : List QField) → Distinct qs → Distinct (sort_fields qs)
unfolding sort_fields
sort_fields-Distinct [] h = tt
sort_fields-Distinct (q ∷ qs) h =
    insert_sorted-Distinct q (sort_fields qs) (contains-sort_fields qs q ∙ h.0)
      (sort_fields-Distinct qs h.1)

-- Sorting keeps the number of the fields with a property.
length-insert_sorted :
    (p : QField → Bool) (q : QField) (qs : List QField)
    → length (filter p (insert_sorted q qs)) ≡ length (filter p (q ∷ qs))
unfolding insert_sorted
length-insert_sorted p q [] = refl
length-insert_sorted p q (r ∷ qs) = ground (arith, length-insert_sorted p q qs)

pub length-sort_fields :
    (p : QField → Bool) (qs : List QField)
    → length (filter p (sort_fields qs)) ≡ length (filter p qs)
unfolding sort_fields
length-sort_fields p [] = refl
length-sort_fields p (q ∷ qs) =
    length-insert_sorted p q (sort_fields qs) ∙ ground (arith, length-sort_fields p qs)
