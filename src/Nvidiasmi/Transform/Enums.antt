-- ===== src/Nvidiasmi/Transform/Enums.antt =====
-- internal/nvidiasmi/transform.go: the fields whose values are names of an NVML enum.
use nvidia_gpu_exporter.Common.{
  Bool-cases, Option-cases, lookup, Float64, Floats, list_same_iff, contains, ℕ, ◌≡◌, refl, sym,
  ◌∙◌, ◌≢◌, ◌↔◌, ◌⊎◌, inl, inr, true, some, List, list_comparable, nat_comparable,
}
use nvidia_gpu_exporter.Nvidiasmi.Csv.{QField}
use nvidia_gpu_exporter.Nvidiasmi.Transform.{
  TransformError, absent_value, unrecognized_value, enum_field_absent_tokens, gpu_recovery_actions,
  fabric_states, field_value_mappers, is_enum_mapped_field, enum_value_mapper,
  transform_field_value,
}
use nvidia_gpu_exporter.Nvidiasmi.Transform.Named.{
  AbsentToken, EnumName, lookup-All, enum_field_absent_tokens-AbsentToken,
  AbsentToken-enum_field_absent_tokens, gpu_recovery_actions-RecoveryAction,
  fabric_states-FabricState, IsFound, RecoveryAction-IsFound, FabricState-IsFound,
}
use nvidia_gpu_exporter.Text.{Text, codes, to_lower, trim_space}

abbrev pub key_of : Text → Text
key_of raw = to_lower (trim_space raw)

-- The fields that have names.
abbrev pub IsEnumField : QField → Type 0
IsEnumField q_field = (q_field ≡ codes "gpu_recovery_action") ⊎ (q_field ≡ codes "fabric.state")

-- What the value of such a field may be read to: the number of its name, or that it is absent, or
-- that it is neither.
abbrev pub EnumReading : Floats → QField → Text → Float64 ⊎ TransformError → Type 0
EnumReading fl q_field raw (inl value) =
    (n : ℕ) × EnumName q_field (key_of raw) n × (value ≡ fl.of_uint n)
EnumReading fl q_field raw (inr e) =
    (AbsentToken (key_of raw) × (e ≡ absent_value))
    ⊎ ((¬ AbsentToken (key_of raw))
        × ((n : ℕ) → ¬ EnumName q_field (key_of raw) n)
        × (e ≡ unrecognized_value q_field raw))

-- A table that has the names of its field, and no others.
abbrev Names : QField → List (Text × ℕ) → Type 0
Names q_field table =
    IsEnumField q_field
    × ((key : Text) (n : ℕ) → lookup key table ≡ some n → EnumName q_field key n)
    × ((key : Text) (n : ℕ) → EnumName q_field key n → IsFound table key n)

recovery-ne-fabric : codes "gpu_recovery_action" ≢ codes "fabric.state"
recovery-ne-fabric e =
    let same = (list_same_iff (codes "gpu_recovery_action") (codes "fabric.state")).1 e in cc

gpu_recovery_actions-Names : Names (codes "gpu_recovery_action") gpu_recovery_actions
gpu_recovery_actions-Names = (
  inl refl,
  λ key n e. inl (refl, gpu_recovery_actions-RecoveryAction key n e),
  λ key n e. elim e [
    | inl h ↦ RecoveryAction-IsFound h.1
    | inr h ↦ absurd (recovery-ne-fabric h.0)
  ],
)

fabric_states-Names : Names (codes "fabric.state") fabric_states
fabric_states-Names = (
  inr refl,
  λ key n e. inr (refl, fabric_states-FabricState key n e),
  λ key n e. elim e [
    | inl h ↦ absurd (recovery-ne-fabric (sym h.0))
    | inr h ↦ FabricState-IsFound h.1
  ],
)

field_value_mappers-Names :
    (q_field : QField) (table : List (Text × ℕ))
    → lookup q_field field_value_mappers ≡ some table
    → Names q_field table
field_value_mappers-Names q_field table =
    lookup-All Names field_value_mappers q_field table
      (gpu_recovery_actions-Names, (fabric_states-Names, tt))

transform_field_value-mapper :
    (fl : Floats) (q_field : QField) (raw : Text) (multiplier : Float64) (table : List (Text × ℕ))
    → lookup q_field field_value_mappers ≡ some table
    → transform_field_value fl q_field raw multiplier ≡ enum_value_mapper fl q_field table raw
unfolding transform_field_value lookup to_lower
transform_field_value-mapper fl q_field raw multiplier table e = rw e refl

enum_value_mapper-EnumReading :
    (fl : Floats) (q_field : QField) (raw : Text) (table : List (Text × ℕ))
    → Names q_field table
    → EnumReading fl q_field raw (enum_value_mapper fl q_field table raw)
unfolding enum_value_mapper
enum_value_mapper-EnumReading fl q_field raw table (field, sound, complete) =
    let key = key_of raw in
    elim (Bool-cases (contains enum_field_absent_tokens key)) [
      | inl e ↦ rw e (inl (enum_field_absent_tokens-AbsentToken key e, refl))
      | inr e ↦ elim (Option-cases (lookup key table)) [
        | inr (n, f) ↦ rw (e, f) (n, sound key n f, refl)
        | inl f ↦
            rw (e, f)
              (inr (
                λ h. (let hit = AbsentToken-enum_field_absent_tokens h in cc),
                λ n h. (let found = (complete key n h).1 in cc),
                refl,
              ))
      ]
    ]

enum_value_mapper-EnumName :
    (fl : Floats) (q_field : QField) (raw : Text) (table : List (Text × ℕ)) (n : ℕ)
    → IsFound table (key_of raw) n
    → enum_value_mapper fl q_field table raw ≡ inl (fl.of_uint n)
unfolding enum_value_mapper
enum_value_mapper-EnumName fl q_field raw table n (e, f) = rw (e, f) refl

mapped_table :
    (q_field : QField)
    → IsEnumField q_field
    → (table : List (Text × ℕ)) × (lookup q_field field_value_mappers ≡ some table)
unfolding lookup
mapped_table q_field (inl e) = (gpu_recovery_actions, rw e refl)
mapped_table q_field (inr e) = (fabric_states, rw e refl)

named_field : (q_field : QField) (key : Text) (n : ℕ) → EnumName q_field key n → IsEnumField q_field
named_field q_field key n (inl h) = inl h.0
named_field q_field key n (inr h) = inr h.0

-- Two fields are mapped and no others: the recovery action and the fabric state. The value of a
-- mapped field, its case and the space around it aside, is read to the number that NVML gives to
-- its name, whatever the multiplier; where it is one of the tokens for an absent value, that is
-- said, and any other value is unrecognized.
pub transform_field_value-EnumReading :
    (fl : Floats) (q_field : QField) (raw : Text) (multiplier : Float64)
    → ((is_enum_mapped_field q_field ≡ true) ↔ IsEnumField q_field)
      × (IsEnumField q_field
          → EnumReading fl q_field raw (transform_field_value fl q_field raw multiplier))
      × ((n : ℕ)
          → EnumName q_field (key_of raw) n
          → transform_field_value fl q_field raw multiplier ≡ inl (fl.of_uint n))
unfolding is_enum_mapped_field lookup
transform_field_value-EnumReading fl q_field raw multiplier = (
  (
    λ mapped. elim (Option-cases (lookup q_field field_value_mappers)) [
      | inl e ↦ let bad = rw (e, is_enum_mapped_field) at mapped in cc
      | inr (table, e) ↦ (field_value_mappers-Names q_field table e).0
    ],
    λ field. rw (mapped_table q_field field).1 refl,
  ),
  λ field.
      let (table, e) = mapped_table q_field field in
      rw (transform_field_value-mapper fl q_field raw multiplier table e) (
        enum_value_mapper-EnumReading fl q_field raw table
          (field_value_mappers-Names q_field table e)),
  λ n name.
      let (table, e) = mapped_table q_field (named_field q_field (key_of raw) n name) in
      transform_field_value-mapper fl q_field raw multiplier table e
      ∙ enum_value_mapper-EnumName fl q_field raw table n
          ((field_value_mappers-Names q_field table e).2 (key_of raw) n name),
)
