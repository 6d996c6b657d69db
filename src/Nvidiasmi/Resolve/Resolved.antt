-- ===== src/Nvidiasmi/Resolve/Resolved.antt =====
-- What is promised of resolved fields, and that the built-in list keeps it.
use nvidia_gpu_exporter.Common.{
  Bool-cases, lookup, insert, ◌==◌, list_same_iff, contains, Distinct, contains-filter, same_refl,
  ◌≡◌, refl, sym, ◌∙◌, subst, inl, inr, Bool, true, ◌&&◌, some, List, [], ◌∷◌, map, arith,
  list_comparable, nat_comparable,
}
use nvidia_gpu_exporter.Nvidiasmi.Csv.{QField, RField}
use nvidia_gpu_exporter.Nvidiasmi.Exclude.{parse_field_exclude_patterns, filter_excluded_q_fields}
use nvidia_gpu_exporter.Nvidiasmi.Exclude.Filtering.{
  is_kept, filter_excluded_q_fields_lem, contains-filter_excluded_q_fields,
  filter_excluded_q_fields-Distinct,
}
use nvidia_gpu_exporter.Nvidiasmi.Fields.{info_fields, required_q_fields}
use nvidia_gpu_exporter.Nvidiasmi.Fields.Builtin.{fallback_q_field_to_r_field_map}
use nvidia_gpu_exporter.Nvidiasmi.Resolve.{
  ResolvedFields, subset_r_field_map, builtin_resolved_fields,
}
use nvidia_gpu_exporter.Nvidiasmi.Resolve.Returned.{Member, step_Member, end_Member}
use nvidia_gpu_exporter.Text.{Text}

-- The fields are each queried once, the identity fields are among them, and each has a name.
pub record IsResolved (r : ResolvedFields) : Type 0 where
  pub distinct : Distinct r.query
  pub identified : (q : QField) → contains required_q_fields q ≡ true → contains r.query q ≡ true
  pub named :
      (q : QField) → contains r.query q ≡ true → (f : RField) × (lookup q r.returned ≡ some f)
  pub info : r.info ≡ info_fields

-- Go ranges over the built-in map in some order: each key once.
pub record IsKeyOrder (key_order : List QField) : Type 0 where
  pub distinct : Distinct key_order
  pub complete :
      (q : QField)
      → contains key_order q
        ≡ contains (map (λ (e : QField × RField). e.0) fallback_q_field_to_r_field_map) q

lookup_of_key :
    (m : List (QField × RField)) (q : QField)
    → contains (map (λ (e : QField × RField). e.0) m) q ≡ true
    → (f : RField) × (lookup q m ≡ some f)
unfolding lookup
lookup_of_key [] q h = cc
lookup_of_key ((k, f) ∷ m) q h = elim (Bool-cases (k == q)) [
  | inl e ↦ (f, rw e)
  | inr e ↦ let (f', g) = lookup_of_key m q (rw e at h) in (f', rw e g)
]

-- Each of the identity fields, checked one by one.
all_of : (QField → Bool) → List QField → Bool
all_of p [] = true
all_of p (q ∷ qs) = p q && all_of p qs

all_of_sound :
    (p : QField → Bool) (qs : List QField) (q : QField)
    → all_of p qs ≡ true
    → contains qs q ≡ true
    → p q ≡ true
unfolding all_of
all_of_sound p [] q h c = cc
all_of_sound p (k ∷ qs) q h c = elim (Bool-cases (k == q)) [
  | inl e ↦ subst (λ x. p x ≡ true) ((list_same_iff k q).0 e) (ground arith)
  | inr e ↦ all_of_sound p qs q (ground arith) (rw e at c)
]

-- The identity fields are in the built-in list.
required_in_builtin :
    (q : QField)
    → contains required_q_fields q ≡ true
    → contains (map (λ (e : QField × RField). e.0) fallback_q_field_to_r_field_map) q ≡ true
required_in_builtin q =
    all_of_sound
      (λ k. contains (map (λ (e : QField × RField). e.0) fallback_q_field_to_r_field_map) k)
      required_q_fields q (unfold all_of info_fields fallback_q_field_to_r_field_map in refl)

subset_step :
    (full : List (QField × RField)) (q : QField) (f : RField) (keys : List QField)
    (m : List (QField × RField))
    → lookup q full ≡ some f
    → subset_r_field_map full (q ∷ keys) m ≡ subset_r_field_map full keys (insert q f m)
unfolding subset_r_field_map
subset_step full q f keys m e = rw (e, subset_r_field_map)

subset_r_field_map-Member :
    (full : List (QField × RField)) (keys : List QField) (m : List (QField × RField)) (k : QField)
    → ((q : QField) → contains keys q ≡ true → (f : RField) × (lookup q full ≡ some f))
    → Member k keys m
    → (f : RField) × (lookup k (subset_r_field_map full keys m) ≡ some f)
subset_r_field_map-Member full [] m k h c = unfold subset_r_field_map in end_Member k m c
subset_r_field_map-Member full (q ∷ keys) m k h c =
    let (f, e) = h q (rw (same_refl q)) in
    rw (subset_step full q f keys m e) (
      subset_r_field_map-Member full keys (insert q f m) k (λ x hx. h x (ground arith))
        (step_Member k q keys f m c))

pub filter_excluded_q_fields-sub :
    (required qs : List QField) (exclude_raw : Text) (q : QField)
    → contains (filter_excluded_q_fields required qs exclude_raw) q ≡ true
    → contains qs q ≡ true
filter_excluded_q_fields-sub required qs exclude_raw q h = elim (Bool-cases (contains qs q)) [
  | inl e ↦ e
  | inr e ↦
      let kept = is_kept required (parse_field_exclude_patterns exclude_raw) in
      let gone = contains-filter kept qs q e in
      let here = rw (filter_excluded_q_fields_lem required qs exclude_raw) at h in cc
]

-- The built-in fallback, whatever the order of its keys and the exclusions.
pub builtin_resolved_fields-IsResolved :
    (key_order : List QField) (exclude_raw : Text)
    → IsKeyOrder key_order
    → IsResolved (builtin_resolved_fields key_order exclude_raw)
unfolding builtin_resolved_fields
builtin_resolved_fields-IsResolved key_order exclude_raw order = record {
  distinct =
      filter_excluded_q_fields-Distinct required_q_fields key_order exclude_raw order.distinct;
  identified = λ q h.
      contains-filter_excluded_q_fields required_q_fields key_order exclude_raw q h
      ∙ (order.complete q ∙ required_in_builtin q h);
  named = λ q h.
      subset_r_field_map-Member fallback_q_field_to_r_field_map
        (filter_excluded_q_fields required_q_fields key_order exclude_raw) [] q
        (λ k hk. lookup_of_key fallback_q_field_to_r_field_map k (
          sym (order.complete k)
          ∙ filter_excluded_q_fields-sub required_q_fields key_order exclude_raw k hk))
        (inl h);
  info = refl;
}
