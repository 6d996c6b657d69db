-- ===== src/Nvidiasmi/Transform/Finite.antt =====
-- internal/nvidiasmi/transform.go: no reading is infinite or no number.
use nvidia_gpu_exporter.Common.{
  ltb, Bool-cases, Option-cases, inl-injective, length, All, lookup, Float64, Floats, ◌==◌,
  contains, ℕ, ◌^◌, ◌<◌, ◌≡◌, refl, sym, subst, ◌⊎◌, inl, inr, Bool, true, false, ◌||◌, some, List,
  [], ◌∷◌, arith, list_comparable, nat_comparable,
}
use nvidia_gpu_exporter.Nvidiasmi.Csv.{QField}
use nvidia_gpu_exporter.Nvidiasmi.Transform.{
  TransformError, enum_field_absent_tokens, field_value_mappers, enum_value_mapper, remove_pair,
  hex_value, parse_hex, hex_to_decimal, find_numbers, scale_number, single_number,
  parse_sanitized_value, named_values, transform_raw_value, transform_field_value,
}
use nvidia_gpu_exporter.Text.{Text, codes, to_lower, trim_space, has_prefix}

abbrev pub IsFinite : Floats → Float64 → Type 0
IsFinite fl x = (fl.is_inf x ≡ false) × (fl.is_nan x ≡ false)

-- Go's conversion of a uint64 to a float64 is finite.
abbrev pub HasFiniteUints : Floats → Type 0
HasFiniteUints fl = (n : ℕ) → n < 2 ^ 64 → IsFinite fl (fl.of_uint n)

abbrev FiniteIfRead : Floats → Float64 ⊎ TransformError → Type 0
FiniteIfRead fl (inl x) = IsFinite fl x
FiniteIfRead fl (inr e) = Unit

or_false : (a b : Bool) → a || b ≡ false → (a ≡ false) × (b ≡ false)
or_false false false h = (refl, refl)
or_false false true h = cc
or_false true b h = cc

scale_number-IsFinite :
    (fl : Floats) (sanitized num : Text) (multiplier : Float64)
    → FiniteIfRead fl (scale_number fl sanitized num multiplier)
unfolding scale_number
scale_number-IsFinite fl sanitized num multiplier = elim (Option-cases (fl.parse_float num)) [
  | inl e ↦ rw (e, scale_number, FiniteIfRead) tt
  | inr (x, e) ↦
      let scaled = fl.mul x multiplier in
      elim (Bool-cases (fl.is_inf scaled || fl.is_nan scaled)) [
        | inl g ↦ rw (e, g, scale_number, FiniteIfRead) tt
        | inr g ↦
            rw (e, g, scale_number, FiniteIfRead) (or_false (fl.is_inf scaled) (fl.is_nan scaled) g)
      ]
]

single_number-IsFinite :
    (fl : Floats) (sanitized : Text) (multiplier : Float64) (nums : List Text)
    → FiniteIfRead fl (single_number fl sanitized multiplier nums)
single_number-IsFinite fl sanitized multiplier [] = tt
single_number-IsFinite fl sanitized multiplier (num ∷ []) =
    scale_number-IsFinite fl sanitized num multiplier
single_number-IsFinite fl sanitized multiplier (_ ∷ _ ∷ _) = tt

parse_hex_lt : (s : Text) (n : ℕ) → parse_hex s ≡ some n → n < 2 ^ 64
unfolding parse_hex
parse_hex_lt [] n h = cc
parse_hex_lt (c ∷ s) n h = elim (Option-cases (hex_value 0 (c ∷ s))) [
  | inl e ↦ let bad = rw (e, parse_hex) at h in cc
  | inr (m, e) ↦ elim (Bool-cases (ltb m (2 ^ 64))) [
    | inl g ↦ let same = rw (e, g, parse_hex) at h in ground arith
    | inr g ↦ let bad = rw (e, g, parse_hex) at h in cc
  ]
]

hex_to_decimal-IsFinite :
    (fl : Floats) (s : Text) (x : Float64)
    → HasFiniteUints fl
    → hex_to_decimal fl s ≡ some x
    → IsFinite fl x
unfolding hex_to_decimal
hex_to_decimal-IsFinite fl s x finite h =
    let digits = remove_pair b'0' b'X' (remove_pair b'0' b'x' s) in
    elim (Option-cases (parse_hex digits)) [
      | inl e ↦ let bad = rw (e, hex_to_decimal) at h in cc
      | inr (n, e) ↦
          let same : fl.of_uint n ≡ x = (let found = rw (e, hex_to_decimal) at h in cc) in
          rw (sym same) (finite n (parse_hex_lt digits n e))
    ]

abbrev IsSmall : List (Text × ℕ) → Type 0
IsSmall table = All (λ (e : Text × ℕ). e.1 < 2 ^ 64) table

lookup-All :
    {V : Type 0} (P : V → Type 0) (key : Text) (table : List (Text × V)) (v : V)
    → All (λ (e : Text × V). P e.1) table
    → lookup key table ≡ some v
    → P v
unfolding lookup
lookup-All P key [] v small h = cc
lookup-All P key ((k, m) ∷ table) v small h = elim (Bool-cases (k == key)) [
  | inl e ↦ let same : m ≡ v = (let hit = rw (e, lookup) at h in cc) in subst P same small.0
  | inr e ↦ lookup-All P key table v small.1 (rw (e, lookup) at h)
]

lookup-IsFinite :
    (fl : Floats) (key : Text) (table : List (Text × ℕ)) (n : ℕ)
    → HasFiniteUints fl
    → IsSmall table
    → lookup key table ≡ some n
    → IsFinite fl (fl.of_uint n)
lookup-IsFinite fl key table n finite small h =
    finite n (lookup-All (λ m. m < 2 ^ 64) key table n small h)

enum_value_mapper-IsFinite :
    (fl : Floats) (q_field : QField) (table : List (Text × ℕ)) (raw : Text)
    → HasFiniteUints fl
    → IsSmall table
    → FiniteIfRead fl (enum_value_mapper fl q_field table raw)
unfolding enum_value_mapper
enum_value_mapper-IsFinite fl q_field table raw finite small =
    let key = to_lower (trim_space raw) in
    elim (Bool-cases (contains enum_field_absent_tokens key)) [
      | inl a ↦ rw (a, enum_value_mapper, FiniteIfRead) tt
      | inr a ↦ elim (Option-cases (lookup key table)) [
        | inl e ↦ rw (a, e, enum_value_mapper, FiniteIfRead) tt
        | inr (n, e) ↦
            rw (a, e, enum_value_mapper, FiniteIfRead)
              (lookup-IsFinite fl key table n finite small e)
      ]
    ]

parse_sanitized_value-IsFinite :
    (fl : Floats) (sanitized : Text) (multiplier : Float64)
    → FiniteIfRead fl (parse_sanitized_value fl sanitized multiplier)
unfolding parse_sanitized_value
parse_sanitized_value-IsFinite fl sanitized multiplier =
    single_number-IsFinite fl sanitized multiplier (find_numbers (length sanitized) 2 sanitized)

transform_raw_value-IsFinite :
    (fl : Floats) (raw : Text) (multiplier : Float64)
    → HasFiniteUints fl
    → FiniteIfRead fl (transform_raw_value fl raw multiplier)
unfolding transform_raw_value
transform_raw_value-IsFinite fl raw multiplier finite =
    let trimmed = trim_space raw in
    elim (Bool-cases (has_prefix trimmed (codes "0x"))) [
      | inl p ↦ elim (Option-cases (hex_to_decimal fl trimmed)) [
        | inl e ↦ rw (p, e, transform_raw_value, FiniteIfRead) tt
        | inr (x, e) ↦
            rw (p, e, transform_raw_value, FiniteIfRead)
              (hex_to_decimal-IsFinite fl trimmed x finite e)
      ]
      | inr p ↦ elim (Option-cases (lookup (to_lower trimmed) named_values)) [
        | inl e ↦
            rw (p, e, transform_raw_value)
              (parse_sanitized_value-IsFinite fl (to_lower trimmed) multiplier)
        | inr (n, e) ↦
            rw (p, e, transform_raw_value, FiniteIfRead)
              (lookup-IsFinite fl (to_lower trimmed) named_values n finite (ground arith) e)
      ]
    ]

read-IsFinite :
    (fl : Floats) (r : Float64 ⊎ TransformError) (x : Float64)
    → FiniteIfRead fl r
    → r ≡ inl x
    → IsFinite fl x
read-IsFinite fl (inl y) x h e = rw (sym (inl-injective e)) h
read-IsFinite fl (inr y) x h e = cc

mappers-IsSmall : All (λ (e : QField × List (Text × ℕ)). IsSmall e.1) field_value_mappers
mappers-IsSmall = ground arith

-- A field mapped by a table, and any other.
transform_field_value_finite :
    (fl : Floats) (q_field : QField) (raw : Text) (multiplier : Float64)
    → HasFiniteUints fl
    → FiniteIfRead fl (transform_field_value fl q_field raw multiplier)
unfolding transform_field_value
transform_field_value_finite fl q_field raw multiplier finite =
    elim (Option-cases (lookup q_field field_value_mappers)) [
      | inl e ↦
          rw (e, transform_field_value) (transform_raw_value-IsFinite fl raw multiplier finite)
      | inr (table, e) ↦
          rw (e, transform_field_value)
            (enum_value_mapper-IsFinite fl q_field table raw finite
              (lookup-All IsSmall q_field field_value_mappers table mappers-IsSmall e))
    ]

-- With uint64s that convert to finite numbers, no cell of any field is read to an infinite number
-- or to no number, whatever its multiplier is and whatever numbers its text holds.
pub transform_field_value-IsFinite :
    (fl : Floats) (q_field : QField) (raw : Text) (multiplier x : Float64)
    → HasFiniteUints fl
    → transform_field_value fl q_field raw multiplier ≡ inl x
    → IsFinite fl x
transform_field_value-IsFinite fl q_field raw multiplier x finite h =
    read-IsFinite fl (transform_field_value fl q_field raw multiplier) x
      (transform_field_value_finite fl q_field raw multiplier finite) h
