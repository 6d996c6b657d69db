-- ===== src/Exporter/Claims/Metrics.antt =====
-- internal/exporter/exporter.go: the fields that get a metric, and that no two share a name.

use nvidia_gpu_exporter.Common.{
  ltb, leb, if◌then◌else◌, Bool-cases, length, filter, lookup, insert, lookup-insert, Float64, ◌==◌,
  list_same, list_same_iff, contains, ℕ, ◌≤◌, ◌≡◌, refl, sym, ap, ◌∙◌, subst, ◌≢◌, inl, inr, Bool,
  true, false, not, ◌&&◌, ◌||◌, none, some, List, [], ◌∷◌, arith, list_comparable, nat_comparable,
}
use nvidia_gpu_exporter.Exporter.Claims.{
  MetricInfo, sort_fields, map_keys, text_or_nil, derived, claim_names, is_skipped, metric_info,
  build_infos, build_q_field_to_metric_info_map,
}
use nvidia_gpu_exporter.Exporter.Claims.Claimed.{
  claim_names_lem, contains-sort_fields, length-sort_fields,
}
use nvidia_gpu_exporter.Exporter.Names.{Host}
use nvidia_gpu_exporter.Nvidiasmi.Csv.{QField, RField}
use nvidia_gpu_exporter.Text.{Text}

build_infos_cons :
    (named : QField → Text × Float64) (m : List (QField × RField)) (reserved : List Text)
    (claimants : List (Text × List QField)) (r : QField) (qs : List QField)
    (result : List (QField × MetricInfo))
    → build_infos named m reserved claimants (r ∷ qs) result
      ≡ build_infos named m reserved claimants qs (
          if is_skipped reserved claimants (named r).0
          then result
          else insert r (metric_info (named r) (text_or_nil (lookup r m))) result)
unfolding build_infos
build_infos_cons named m reserved claimants r qs result = refl

list_same_refl : (q : QField) → list_same q q ≡ true
list_same_refl q = (list_same_iff q q).1 refl

lookup-build_infos :
    (named : QField → Text × Float64) (m : List (QField × RField)) (reserved : List Text)
    (claimants : List (Text × List QField)) (qs : List QField) (result : List (QField × MetricInfo))
    (q : QField)
    → lookup q (build_infos named m reserved claimants qs result) ≡ (
        if contains qs q && not (is_skipped reserved claimants (named q).0)
        then some (metric_info (named q) (text_or_nil (lookup q m)))
        else lookup q result)
lookup-build_infos named m reserved claimants [] result q = unfold build_infos in refl
lookup-build_infos named m reserved claimants (r ∷ qs) result q =
    let info = metric_info (named r) (text_or_nil (lookup r m)) in
    ap (lookup q) (build_infos_cons named m reserved claimants r qs result)
    ∙ elim (Bool-cases (r == q)) [
      | inl e ↦
          let same : r ≡ q = (list_same_iff r q).0 e in
          elim (Bool-cases (is_skipped reserved claimants (named q).0)) [
            | inl t ↦
                rw (same, t, list_same_refl q)
                  (lookup-build_infos named m reserved claimants qs result q ∙ rw t (ground arith))
            | inr t ↦
                rw (same, t, list_same_refl q)
                  (lookup-build_infos named m reserved claimants qs
                      (insert q (metric_info (named q) (text_or_nil (lookup q m))) result) q
                    ∙ rw
                        (
                          t,
                          lookup-insert q q (metric_info (named q) (text_or_nil (lookup q m)))
                              result,
                          list_same_refl q,
                        )
                        (ground arith))
          ]
      | inr e ↦ elim (Bool-cases (is_skipped reserved claimants (named r).0)) [
        | inl t ↦ rw (e, t) (lookup-build_infos named m reserved claimants qs result q)
        | inr t ↦
            rw (e, t)
              (lookup-build_infos named m reserved claimants qs (insert r info result) q
                ∙ rw (lookup-insert r q info result, e) refl)
      ]
    ]

-- The fields of the map that derive the name.
abbrev pub claimants_of : Host → Text → List (QField × RField) → Text → List QField
claimants_of host prefix m fq_name =
    filter (λ r. (derived host prefix m r).0 == fq_name) (map_keys m)

-- A field of the map whose name is not empty, is not reserved and is claimed by no other field.
abbrev pub is_published : Host → Text → List (QField × RField) → List Text → QField → Bool
is_published host prefix m reserved q =
    let fq_name = (derived host prefix m q).0 in
    contains (map_keys m) q
    && not (fq_name == [])
    && not (contains reserved fq_name)
    && leb (length (claimants_of host prefix m fq_name)) 1

guards : (a b c : Bool) (n : ℕ) → a && not (b || c || ltb 1 n) ≡ a && not b && not c && leb n 1
guards a b c n = ground arith

not_skipped :
    (host : Host) (prefix : Text) (m : List (QField × RField)) (reserved : List Text) (q : QField)
    → contains (sort_fields (map_keys m)) q
        && not (
            is_skipped reserved
              (claim_names (λ q. (derived host prefix m q).0) (sort_fields (map_keys m)) [])
              (derived host prefix m q).0)
      ≡ is_published host prefix m reserved q
unfolding is_skipped lookup
not_skipped host prefix m reserved q =
    let keys = map_keys m in
    let name_of = λ (r : QField). (derived host prefix m r).0 in
    let fq_name = name_of q in
    let claims = claim_names_lem name_of (sort_fields keys) [] fq_name in
    let number = length-sort_fields (λ r. name_of r == fq_name) keys in
    rw (contains-sort_fields keys q, claims, number)
      (guards (contains keys q) (fq_name == []) (contains reserved fq_name)
        (length (claimants_of host prefix m fq_name)))

-- A field gets a metric just when it is published, under the name and with the multiplier that its
-- returned name derives.
pub lookup-build_q_field_to_metric_info_map :
    (host : Host) (prefix : Text) (m : List (QField × RField)) (reserved : List Text) (q : QField)
    → lookup q (build_q_field_to_metric_info_map host prefix m reserved) ≡ (
        if is_published host prefix m reserved q
        then some (metric_info (derived host prefix m q) (text_or_nil (lookup q m)))
        else none)
unfolding build_q_field_to_metric_info_map
lookup-build_q_field_to_metric_info_map host prefix m reserved q =
    let keys = sort_fields (map_keys m) in
    let claimants = claim_names (λ r. (derived host prefix m r).0) keys [] in
    lookup-build_infos (derived host prefix m) m reserved claimants keys [] q
    ∙ rw (not_skipped host prefix m reserved q) (unfold lookup in refl)

some_if_published :
    {A : Type 0} (b : Bool) (a c : A) → (if b then some a else none) ≡ some c → (b ≡ true) × (a ≡ c)
some_if_published true a c h = (refl, cc)
some_if_published false a c h = cc

one_entry :
    (p : QField → Bool) (xs : List QField) (a : QField)
    → contains xs a ≡ true
    → p a ≡ true
    → 1 ≤ length (filter p xs)
one_entry p [] a h g = cc
one_entry p (x ∷ xs) a h g = elim (Bool-cases (x == a)) [
  | inl e ↦ rw ((list_same_iff x a).0 e, g) (omega arith)
  | inr e ↦ elim (Bool-cases (p x)) [
    | inl f ↦ rw f (omega arith)
    | inr f ↦ rw f (one_entry p xs a (ground arith) g)
  ]
]

two_entries :
    (p : QField → Bool) (x : QField) (xs : List QField) (a b : QField)
    → x ≡ a
    → contains xs b ≡ true
    → p a ≡ true
    → p b ≡ true
    → 2 ≤ length (filter p (x ∷ xs))
two_entries p x xs a b e hb pa pb = rw (e, pa) (omega (arith, one_entry p xs b hb pb))

fewer_entries :
    (p : QField → Bool) (x : QField) (xs : List QField)
    → length (filter p xs) ≤ length (filter p (x ∷ xs))
fewer_entries p x xs = ground arith

in_tail :
    (x a : QField) (xs : List QField)
    → (x == a) ≡ false
    → contains (x ∷ xs) a ≡ true
    → contains xs a ≡ true
in_tail x a xs e h = ground arith

-- Two entries with a property that at most one entry has.
entries-eq :
    (p : QField → Bool) (xs : List QField) (a b : QField)
    → length (filter p xs) ≤ 1
    → contains xs a ≡ true
    → contains xs b ≡ true
    → p a ≡ true
    → p b ≡ true
    → a ≡ b
entries-eq p [] a b h ha hb pa pb = cc
entries-eq p (x ∷ xs) a b h ha hb pa pb = elim (Bool-cases (x == a)) [
  | inl e ↦
      let first : x ≡ a = (list_same_iff x a).0 e in
      elim (Bool-cases (x == b)) [
        | inl f ↦ sym first ∙ (list_same_iff x b).0 f
        | inr f ↦
            absurd (omega (arith, h, two_entries p x xs a b first (in_tail x b xs f hb) pa pb))
      ]
  | inr e ↦ elim (Bool-cases (x == b)) [
    | inl f ↦ absurd (
        omega
          (arith, h, two_entries p x xs b a ((list_same_iff x b).0 f) (in_tail x a xs e ha) pb pa))
    | inr f ↦
        entries-eq p xs a b (omega (arith, h, fewer_entries p x xs)) (in_tail x a xs e ha)
          (in_tail x b xs f hb) pa pb
  ]
]

four_tests :
    (a b c d : Bool)
    → a && not b && not c && d ≡ true
    → (a ≡ true) × (b ≡ false) × (c ≡ false) × (d ≡ true)
four_tests a b c d h = ground arith

-- What a field's metric tells of the field.
record Holds (host : Host) (prefix : Text) (m : List (QField × RField)) (reserved : List Text)
    (q : QField) (fq_name : Text) : Type 0 where
  name : (derived host prefix m q).0 ≡ fq_name
  key : contains (map_keys m) q ≡ true
  named : fq_name ≢ []
  free : contains reserved fq_name ≡ false
  single : length (claimants_of host prefix m fq_name) ≤ 1

published-Holds :
    (host : Host) (prefix : Text) (m : List (QField × RField)) (reserved : List Text) (q : QField)
    (i : MetricInfo)
    → lookup q (build_q_field_to_metric_info_map host prefix m reserved) ≡ some i
    → Holds host prefix m reserved q i.desc.fq_name
published-Holds host prefix m reserved q i h =
    let published =
      some_if_published (is_published host prefix m reserved q)
        (metric_info (derived host prefix m q) (text_or_nil (lookup q m))) i
        (sym (lookup-build_q_field_to_metric_info_map host prefix m reserved q) ∙ h) in
    let name : (derived host prefix m q).0 ≡ i.desc.fq_name =
      ap (λ (x : MetricInfo). x.desc.fq_name) published.1 in
    let fq_name = (derived host prefix m q).0 in
    let facts =
      four_tests (contains (map_keys m) q) (fq_name == []) (contains reserved fq_name)
        (leb (length (claimants_of host prefix m fq_name)) 1) published.0 in
    let own : Holds host prefix m reserved q fq_name = record {
      name = refl;
      key = facts.0;
      named = λ e. (let empty = (list_same_iff fq_name []).1 e in cc (facts.1));
      free = facts.2;
      single = ground (arith, facts.3);
    } in
    subst (Holds host prefix m reserved q) name own

-- No two fields have metrics of one name, no metric has an empty name, and none has a reserved one.
pub build_q_field_to_metric_info_map_unique :
    (host : Host) (prefix : Text) (m : List (QField × RField)) (reserved : List Text) (q r : QField)
    (i j : MetricInfo)
    → lookup q (build_q_field_to_metric_info_map host prefix m reserved) ≡ some i
    → lookup r (build_q_field_to_metric_info_map host prefix m reserved) ≡ some j
    → (i.desc.fq_name ≢ [])
      × (contains reserved i.desc.fq_name ≡ false)
      × (i.desc.fq_name ≡ j.desc.fq_name → q ≡ r)
build_q_field_to_metric_info_map_unique host prefix m reserved q r i j hi hj =
    let hq = published-Holds host prefix m reserved q i hi in
    let hr = published-Holds host prefix m reserved r j hj in
    let claims = λ (k : QField). (derived host prefix m k).0 == i.desc.fq_name in
    (
      hq.named,
      hq.free,
      λ e.
          entries-eq claims (map_keys m) q r hq.single hq.key hr.key
            ((list_same_iff (derived host prefix m q).0 i.desc.fq_name).1 hq.name)
            ((list_same_iff (derived host prefix m r).0 i.desc.fq_name).1 (hr.name ∙ sym e)),
    )
