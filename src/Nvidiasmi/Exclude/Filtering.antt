-- ===== src/Nvidiasmi/Exclude/Filtering.antt =====
-- What exclusion keeps.
use nvidia_gpu_exporter.Common.{
  filter, list_same_iff, contains, Distinct, filter-Distinct, ◌≡◌, refl, ap, Bool, true, not, ◌||◌,
  List, [], ◌∷◌, arith, list_comparable, nat_comparable,
}
use nvidia_gpu_exporter.Nvidiasmi.Csv.{QField}
use nvidia_gpu_exporter.Nvidiasmi.Exclude.{
  Pattern, parse_field_exclude_patterns, matches_any_pattern, filter_q_fields, filter_by_patterns,
  filter_excluded_q_fields,
}
use nvidia_gpu_exporter.Text.{Text}

-- A field stays if no pattern matches it, or if it is required.
abbrev pub is_kept : List QField → List Pattern → QField → Bool
is_kept required patterns q = not (matches_any_pattern q patterns) || contains required q

filter_q_fields-filter :
    (required : List QField) (patterns : List Pattern) (qs : List QField)
    → (filter_q_fields required patterns qs).0 ≡ filter (is_kept required patterns) qs
unfolding filter_q_fields
filter_q_fields-filter required patterns [] = refl
filter_q_fields-filter required patterns (q ∷ qs) =
    ground (arith, filter_q_fields-filter required patterns qs)

contains-filter_required :
    (required : List QField) (patterns : List Pattern) (qs : List QField) (q : QField)
    → contains required q ≡ true
    → contains (filter (is_kept required patterns) qs) q ≡ contains qs q
contains-filter_required required patterns [] q h = refl
contains-filter_required required patterns (k ∷ qs) q h =
    ground (arith, contains-filter_required required patterns qs q h, list_same_iff k q)

filter-no_patterns : (required qs : List QField) → qs ≡ filter (is_kept required []) qs
unfolding matches_any_pattern
filter-no_patterns required [] = refl
filter-no_patterns required (q ∷ qs) = ap (◌∷◌ q) (filter-no_patterns required qs)

filter_by_patterns_lem :
    (required qs : List QField) (patterns : List Pattern)
    → filter_by_patterns required qs patterns ≡ filter (is_kept required patterns) qs
unfolding filter_by_patterns
filter_by_patterns_lem required qs [] = filter-no_patterns required qs
filter_by_patterns_lem required qs (p ∷ ps) = filter_q_fields-filter required (p ∷ ps) qs

-- Exclusion keeps what was asked for, in the order in which it was asked for, less the fields
-- that a pattern matches and that are not required.
pub filter_excluded_q_fields_lem :
    (required qs : List QField) (exclude_raw : Text)
    → filter_excluded_q_fields required qs exclude_raw
      ≡ filter (is_kept required (parse_field_exclude_patterns exclude_raw)) qs
unfolding filter_excluded_q_fields
filter_excluded_q_fields_lem required qs exclude_raw = filter_by_patterns_lem required qs _

-- A required field that was asked for is asked for after every exclusion.
pub contains-filter_excluded_q_fields :
    (required qs : List QField) (exclude_raw : Text) (q : QField)
    → contains required q ≡ true
    → contains (filter_excluded_q_fields required qs exclude_raw) q ≡ contains qs q
contains-filter_excluded_q_fields required qs exclude_raw q h =
    rw (filter_excluded_q_fields_lem required qs exclude_raw)
      (contains-filter_required required (parse_field_exclude_patterns exclude_raw) qs q h)

-- Exclusion puts no field in twice.
pub filter_excluded_q_fields-Distinct :
    (required qs : List QField) (exclude_raw : Text)
    → Distinct qs
    → Distinct (filter_excluded_q_fields required qs exclude_raw)
filter_excluded_q_fields-Distinct required qs exclude_raw h =
    rw (filter_excluded_q_fields_lem required qs exclude_raw)
      (filter-Distinct (is_kept required (parse_field_exclude_patterns exclude_raw)) qs h)
