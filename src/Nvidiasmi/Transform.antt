-- ===== src/Nvidiasmi/Transform.antt =====
-- internal/nvidiasmi/transform.go, and HexToDecimal of internal/util/util.go: the number that a
-- cell stands for. Where Go returns a number with an error the number is left out: no caller reads
-- it.
pub mod Named
pub mod Enums
pub mod Finite
pub mod Numbers
mod Examples
use nvidia_gpu_exporter.Common.{
  ltb, leb, if◌then◌else◌, length, lookup, Float64, Floats, ◌==◌, contains, ℕ, zero, suc, ◌+◌, ◌-◌,
  ◌*◌, ◌^◌, ◌⊎◌, inl, inr, Bool, true, false, ◌&&◌, ◌||◌, Option, none, some, List, [], ◌∷◌, ◌++◌,
  list_comparable, nat_comparable,
}
use nvidia_gpu_exporter.Nvidiasmi.Csv.{QField}
use nvidia_gpu_exporter.Text.{Text, codes, to_lower, trim_space, has_prefix}

pub data TransformError : Type 0 where
  absent_value : TransformError
  unrecognized_value : QField → Text → TransformError
  bad_hex : Text → TransformError
  no_single_number : Text → TransformError
  bad_float : Text → TransformError
  not_finite : Text → TransformError

abbrev pub enum_field_absent_tokens : List Text
enum_field_absent_tokens =
    []
    ∷ codes "n/a"
    ∷ codes "[n/a]"
    ∷ codes "[not supported]"
    ∷ codes "[insufficient permissions]"
    ∷ []

abbrev pub gpu_recovery_actions : List (Text × ℕ)
gpu_recovery_actions =
    (codes "none", 0)
    ∷ (codes "gpu reset", 1)
    ∷ (codes "reset", 1)
    ∷ (codes "node reboot", 2)
    ∷ (codes "reboot", 2)
    ∷ (codes "drain p2p", 3)
    ∷ (codes "drain and reset", 4)
    ∷ []

abbrev pub fabric_states : List (Text × ℕ)
fabric_states =
    (codes "not supported", 0)
    ∷ (codes "not started", 1)
    ∷ (codes "in progress", 2)
    ∷ (codes "completed", 3)
    ∷ []

-- fieldValueMappers, with the table of each mapper.
abbrev pub field_value_mappers : List (QField × List (Text × ℕ))
field_value_mappers =
    (codes "gpu_recovery_action", gpu_recovery_actions) ∷ (codes "fabric.state", fabric_states) ∷ []

-- IsEnumMappedField
unfoldable pub is_enum_mapped_field : QField → Bool
is_enum_mapped_field q_field = elim (lookup q_field field_value_mappers) [
  | none ↦ false
  | some _ ↦ true
]

-- enumValueMapper
unfoldable pub enum_value_mapper :
    Floats → QField → List (Text × ℕ) → Text → Float64 ⊎ TransformError
enum_value_mapper fl field table raw =
    let key = to_lower (trim_space raw) in
    if contains enum_field_absent_tokens key then inr absent_value else elim (lookup key table) [
      | some v ↦ inl (fl.of_uint v)
      | none ↦ inr (unrecognized_value field raw)
    ]

-- strings.ReplaceAll(s, old, "") for a text of two characters.
unfoldable pub remove_pair : ℕ → ℕ → Text → Text
remove_pair a b [] = []
remove_pair a b (c ∷ []) = c ∷ []
remove_pair a b (c ∷ d ∷ s) =
    let behind = remove_pair a b s in
    let next = remove_pair a b (d ∷ s) in if c == a && d == b then behind else c ∷ next

abbrev pub hex_digit : ℕ → Option ℕ
hex_digit c =
    if leb b'0' c && leb c b'9'
    then some (c - b'0')
    else if leb b'a' c && leb c b'f'
    then some (c - b'a' + 10)
    else if leb b'A' c && leb c b'F'
    then some (c - b'A' + 10)
    else none

-- The number that hexadecimal digits spell behind `n`, or none if a character is no digit.
unfoldable pub hex_value : ℕ → Text → Option ℕ
hex_value n [] = some n
hex_value n (c ∷ s) = elim (hex_digit c) [ none ↦ none | some d ↦ hex_value (n * 16 + d) s ]

-- strconv.ParseUint(s, 16, 64)
unfoldable pub parse_hex : Text → Option ℕ
unfolding hex_value
parse_hex [] = none
parse_hex (c ∷ s) = elim (hex_value 0 (c ∷ s)) [
  | none ↦ none
  | some n ↦ if ltb n (2 ^ 64) then some n else none
]

-- HexToDecimal
unfoldable pub hex_to_decimal : Floats → Text → Option Float64
unfolding parse_hex
hex_to_decimal fl hex = elim (parse_hex (remove_pair b'0' b'X' (remove_pair b'0' b'x' hex))) [
  | none ↦ none
  | some n ↦ some (fl.of_uint n)
]

abbrev pub is_digit : ℕ → Bool
is_digit c = leb b'0' c && leb c b'9'

-- The digits that a text begins with, and the rest.
unfoldable pub span_digits : Text → Text × Text
span_digits [] = ([], [])
span_digits (c ∷ s) =
    let later = span_digits s in if is_digit c then (c ∷ later.0, later.1) else ([], c ∷ s)

-- `\d+` behind what was matched, none where there is no digit.
unfoldable pub match_digits : Text → Text × Text → Option (Text × Text)
match_digits matched ([], rest) = none
match_digits matched (d ∷ ds, rest) = some (matched ++ d ∷ ds, rest)

-- `(\d*[.])?\d+` behind the leading digits: with the point where digits follow it, else the
-- leading digits alone.
unfoldable pub after_digits : Text × Text → Option (Text × Text)
unfolding match_digits span_digits
after_digits (ds, []) = match_digits [] (ds, [])
after_digits (ds, c ∷ s) =
    let whole = match_digits [] (ds, c ∷ s) in
    if c == b'.'
    then elim (match_digits (ds ++ c ∷ []) (span_digits s)) [ none ↦ whole | some m ↦ some m ]
    else whole

-- `[+-]?(\d*[.])?\d+` at the start of a text.
unfoldable pub match_number : Text → Option (Text × Text)
unfolding after_digits
match_number [] = none
match_number (c ∷ s) =
    let unsigned = after_digits (span_digits (c ∷ s)) in
    let signed : Option (Text × Text) = elim (after_digits (span_digits s)) [
      | none ↦ none
      | some (num, rest) ↦ some (c ∷ num, rest)
    ] in
    if c == b'+' || c == b'-' then signed else unsigned

-- FindAllString with a limit. A match takes at least one character, so the length of the text is
-- fuel enough.
unfoldable pub find_numbers : ℕ → ℕ → Text → List Text
unfolding match_number
find_numbers zero limit s = []
find_numbers (suc fuel) zero s = []
find_numbers (suc fuel) (suc limit) [] = []
find_numbers (suc fuel) (suc limit) (c ∷ s) = elim (match_number (c ∷ s)) [
  | none ↦ find_numbers fuel (suc limit) s
  | some (num, rest) ↦ num ∷ find_numbers fuel limit rest
]

-- What `parseSanitizedValueWithBestEffort` does with the number found.
unfoldable pub scale_number : Floats → Text → Text → Float64 → Float64 ⊎ TransformError
scale_number fl sanitized num multiplier = elim (fl.parse_float num) [
  | none ↦ inr (bad_float num)
  | some parsed ↦
      let scaled = fl.mul parsed multiplier in
      if fl.is_inf scaled || fl.is_nan scaled then inr (not_finite sanitized) else inl scaled
]

abbrev pub single_number : Floats → Text → Float64 → List Text → Float64 ⊎ TransformError
single_number fl sanitized multiplier (num ∷ []) = scale_number fl sanitized num multiplier
single_number fl sanitized multiplier [] = inr (no_single_number sanitized)
single_number fl sanitized multiplier (_ ∷ _ ∷ _) = inr (no_single_number sanitized)

-- parseSanitizedValueWithBestEffort
unfoldable pub parse_sanitized_value : Floats → Text → Float64 → Float64 ⊎ TransformError
unfolding find_numbers
parse_sanitized_value fl sanitized multiplier =
    single_number fl sanitized multiplier (find_numbers (length sanitized) 2 sanitized)

-- The cases of the `switch` of TransformRawValue.
abbrev pub named_values : List (Text × ℕ)
named_values =
    (codes "enabled", 1)
    ∷ (codes "yes", 1)
    ∷ (codes "active", 1)
    ∷ (codes "disabled", 0)
    ∷ (codes "no", 0)
    ∷ (codes "not active", 0)
    ∷ (codes "default", 0)
    ∷ (codes "exclusive_thread", 1)
    ∷ (codes "prohibited", 2)
    ∷ (codes "exclusive_process", 3)
    ∷ []

-- TransformRawValue
unfoldable pub transform_raw_value : Floats → Text → Float64 → Float64 ⊎ TransformError
transform_raw_value fl raw multiplier =
    let trimmed = trim_space raw in
    let val = to_lower trimmed in
    if has_prefix trimmed (codes "0x")
    then elim (hex_to_decimal fl trimmed) [ none ↦ inr (bad_hex trimmed) | some v ↦ inl v ]
    else elim (lookup val named_values) [
      | some n ↦ inl (fl.of_uint n)
      | none ↦ parse_sanitized_value fl val multiplier
    ]

-- TransformFieldValue
unfoldable pub transform_field_value : Floats → QField → Text → Float64 → Float64 ⊎ TransformError
unfolding enum_value_mapper transform_raw_value
transform_field_value fl q_field raw multiplier = elim (lookup q_field field_value_mappers) [
  | some table ↦ enum_value_mapper fl q_field table raw
  | none ↦ transform_raw_value fl raw multiplier
]
