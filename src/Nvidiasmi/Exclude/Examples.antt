-- ===== src/Nvidiasmi/Exclude/Examples.antt =====
-- The theorems of exclusion at concrete names.
use nvidia_gpu_exporter.Common.{
  filter, contains, ◌≡◌, refl, ◌↔◌, true, false, [], ◌∷◌, list_comparable, nat_comparable,
}
use nvidia_gpu_exporter.Nvidiasmi.Exclude.{
  quote_meta, replace_stars, expr_of, compile_rest, compile, pattern_of,
  parse_field_exclude_patterns, match_string, matches_any_pattern, filter_excluded_q_fields,
}
use nvidia_gpu_exporter.Nvidiasmi.Exclude.Filtering.{
  is_kept, filter_excluded_q_fields_lem, contains-filter_excluded_q_fields,
}
use nvidia_gpu_exporter.Nvidiasmi.Exclude.Matching.{
  SomeGlob, matches_any_pattern-parse_field_exclude_patterns,
}
use nvidia_gpu_exporter.Text.{codes, split}

matches_any_pattern-parse_field_exclude_patterns_example :
    (matches_any_pattern (codes "fan.speed") (parse_field_exclude_patterns (codes " fan.*,,x"))
      ≡ true)
    ↔ SomeGlob (split b',' (codes " fan.*,,x")) (codes "fan.speed")
matches_any_pattern-parse_field_exclude_patterns_example =
    matches_any_pattern-parse_field_exclude_patterns (codes " fan.*,,x") (codes "fan.speed")

match-fan : match_string (pattern_of (codes "fan.*")) (codes "fan.speed") ≡ true
unfolding match_string pattern_of compile compile_rest expr_of quote_meta replace_stars
match-fan = refl

-- A point stands for itself.
match_literal_test : match_string (pattern_of (codes "fan.speed")) (codes "fan_speed") ≡ false
unfolding match_string pattern_of compile compile_rest expr_of quote_meta replace_stars
match_literal_test = refl

filter_excluded_q_fields_lem_example :
    filter_excluded_q_fields (codes "uuid" ∷ []) (codes "uuid" ∷ codes "fan.speed" ∷ []) (codes "*")
    ≡ filter
        (is_kept (codes "uuid" ∷ []) (parse_field_exclude_patterns (codes "*")))
        (codes "uuid" ∷ codes "fan.speed" ∷ [])
filter_excluded_q_fields_lem_example =
    filter_excluded_q_fields_lem (codes "uuid" ∷ []) (codes "uuid" ∷ codes "fan.speed" ∷ [])
      (codes "*")

contains-filter_excluded_q_fields_example :
    contains
      (filter_excluded_q_fields
        (codes "uuid" ∷ [])
        (codes "uuid" ∷ codes "fan.speed" ∷ [])
        (codes "*"))
      (codes "uuid")
    ≡ contains (codes "uuid" ∷ codes "fan.speed" ∷ []) (codes "uuid")
contains-filter_excluded_q_fields_example =
    contains-filter_excluded_q_fields (codes "uuid" ∷ []) (codes "uuid" ∷ codes "fan.speed" ∷ [])
      (codes "*") (codes "uuid") refl
