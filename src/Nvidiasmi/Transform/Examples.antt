-- ===== src/Nvidiasmi/Transform/Examples.antt =====
-- Cells as nvidia-smi prints them, with numbers that stand for themselves.
use nvidia_gpu_exporter.Common.{
  length, lookup, Floats, ℕ, ◌*◌, ◌≡◌, refl, ◌↔◌, inl, true, false, some, ◌∷◌, ◌++◌,
  list_comparable, nat_comparable,
}
use nvidia_gpu_exporter.Nvidiasmi.Transform.{
  is_enum_mapped_field, scale_number, parse_sanitized_value, transform_field_value,
}
use nvidia_gpu_exporter.Nvidiasmi.Transform.Enums.{
  key_of, IsEnumField, EnumReading, transform_field_value-EnumReading,
}
use nvidia_gpu_exporter.Nvidiasmi.Transform.Finite.{IsFinite, transform_field_value-IsFinite}
use nvidia_gpu_exporter.Nvidiasmi.Transform.Named.{EnumName}
use nvidia_gpu_exporter.Nvidiasmi.Transform.Numbers.{Digits, parse_sanitized_value-append}
use nvidia_gpu_exporter.Text.{Text, codes, to_lower, trim_space, has_prefix}

-- Floats that are the number of characters read, and never infinite.
abbrev floats : Floats
floats = record {
  parse_float = λ s. some (length s);
  of_uint = λ n. n;
  mul = λ a b. a * b;
  is_inf = λ a. false;
  is_nan = λ a. false;
}

transform_field_value-IsFinite_example : IsFinite floats 10
unfolding nvidia_gpu_exporter.Common.lookup transform_field_value
    nvidia_gpu_exporter.Text.trim_space nvidia_gpu_exporter.Text.to_lower
    nvidia_gpu_exporter.Nvidiasmi.Transform.parse_sanitized_value
    nvidia_gpu_exporter.Nvidiasmi.Transform.scale_number nvidia_gpu_exporter.Text.has_prefix
transform_field_value-IsFinite_example =
    transform_field_value-IsFinite floats (codes "power.draw") (codes " 25.31 W") 2 10
      (λ n h. (refl, refl)) refl

transform_field_value-EnumReading_example :
    ((is_enum_mapped_field (codes "fabric.state") ≡ true) ↔ IsEnumField (codes "fabric.state"))
    × (IsEnumField (codes "fabric.state")
        → EnumReading floats
            (codes "fabric.state")
            (codes "Completed")
            (transform_field_value floats (codes "fabric.state") (codes "Completed") 2))
    × ((n : ℕ)
        → EnumName (codes "fabric.state") (key_of (codes "Completed")) n
        → transform_field_value floats (codes "fabric.state") (codes "Completed") 2
          ≡ inl (floats.of_uint n))
transform_field_value-EnumReading_example =
    transform_field_value-EnumReading floats (codes "fabric.state") (codes "Completed") 2

parse_sanitized_value-append_example :
    (parse_sanitized_value floats (codes "25" ++ codes " w") 2
      ≡ scale_number floats (codes "25" ++ codes " w") (codes "25") 2)
    × ((e : ℕ) (es : Text)
        → Digits (e ∷ es)
        → parse_sanitized_value floats (codes "25" ++ (b'.' ∷ ((e ∷ es) ++ codes " w"))) 2
          ≡ scale_number floats
              (codes "25" ++ (b'.' ∷ ((e ∷ es) ++ codes " w")))
              (codes "25" ++ b'.' ∷ e ∷ es)
              2)
parse_sanitized_value-append_example =
    parse_sanitized_value-append floats b'2' (codes "5") (codes " w") 2 (refl, (refl, tt))
      (refl, (refl, tt))
