-- ===== src/Common/Float.antt =====
-- Go's float64, carried as its 64 bits, and the operations on it that the program calls: those of
-- the language and of package strconv and package math.
use Prim.Native.Nat.{ℕ}
use mathlib.Core.Bool.{Bool}
use mathlib.Core.List.{List}
use mathlib.Core.Option.{Option}

abbrev pub Float64 : Type 0
Float64 = ℕ

-- `parse_float` is strconv.ParseFloat(s, 64), none on an error; `of_uint` is the conversion of a
-- uint64.
pub record Floats : Type 0 where
  pub parse_float : List ℕ → Option Float64
  pub of_uint : ℕ → Float64
  pub mul : Float64 → Float64 → Float64
  pub is_inf : Float64 → Bool
  pub is_nan : Float64 → Bool
