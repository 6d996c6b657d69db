-- ===== src/Exporter/Names.antt =====
-- internal/exporter/exporter.go: the metric name and the multiplier of a returned field, with
-- ToSnakeCase of internal/util/util.go. Log lines are left out.
pub mod Legal
pub mod Valid
mod Examples
use Prim.Native.String.{String}
use nvidia_gpu_exporter.Common.{
  leb, if◌then◌else◌, any, Float64, ◌==◌, ℕ, Bool, true, false, not, ◌&&◌, ◌||◌, Option, none, some,
  List, [], ◌∷◌, ◌++◌, list_comparable, nat_comparable,
}
use nvidia_gpu_exporter.Nvidiasmi.Csv.{RField}
use nvidia_gpu_exporter.Text.{Text, codes, to_lower, split}

-- prometheus.NewDesc: the name, the help text and the variable labels.
pub record Desc : Type 0 where
  pub fq_name : Text
  pub help : Text
  pub labels : List Text

-- What package prometheus does for the exporter: BuildFQName with no subsystem, and whether
-- NewConstMetric accepts label values for a description.
pub record Host : Type 0 where
  pub build_fq_name : Text → Text → Text
  pub accepts : Desc → List Text → Bool

abbrev pub is_upper : ℕ → Bool
is_upper c = leb b'A' c && leb c b'Z'

abbrev pub is_lower : ℕ → Bool
is_lower c = leb b'a' c && leb c b'z'

abbrev pub is_digit : ℕ → Bool
is_digit c = leb b'0' c && leb c b'9'

abbrev pub starts_lower : Text → Bool
starts_lower [] = false
starts_lower (c ∷ s) = is_lower c

-- Replacing the matches of `(.)([A-Z][a-z]+)` by `${1}_${2}`. The flag says that the text before
-- is a match whose `[a-z]+` goes on.
unfoldable pub split_first_cap : Bool → Text → Text
split_first_cap run [] = []
split_first_cap run (c ∷ []) = c ∷ []
split_first_cap run (c ∷ u ∷ s) =
    let goes_on = c ∷ split_first_cap true (u ∷ s) in
    let matched = c ∷ b'_' ∷ u ∷ split_first_cap true s in
    let plain = c ∷ split_first_cap false (u ∷ s) in
    if run && is_lower c
    then goes_on
    else if not (c == b'\n') && is_upper u && starts_lower s
    then matched
    else plain

-- Replacing the matches of `([a-z0-9])([A-Z])` by `${1}_${2}`.
unfoldable pub split_all_cap : Text → Text
split_all_cap [] = []
split_all_cap (c ∷ []) = c ∷ []
split_all_cap (c ∷ u ∷ s) =
    let matched = c ∷ b'_' ∷ u ∷ split_all_cap s in
    let plain = c ∷ split_all_cap (u ∷ s) in
    if (is_lower c || is_digit c) && is_upper u then matched else plain

-- ToSnakeCase
unfoldable pub to_snake_case : Text → Text
unfolding split_first_cap split_all_cap
to_snake_case str = to_lower (split_all_cap (split_first_cap false str))

pub record UnitSuffix : Type 0 where
  pub suffix : Text
  pub name_suffix : Text
  pub multiplier : Float64

-- The float64s 1, 1000000, 1048576, 0.01, 0.000001 and 0.001 by their bits.
abbrev pub one : Float64
one = 0x3ff0000000000000

abbrev pub million : Float64
million = 0x412e848000000000

abbrev pub mebi : Float64
mebi = 0x4130000000000000

abbrev pub hundredth : Float64
hundredth = 0x3f847ae147ae147b

abbrev pub millionth : Float64
millionth = 0x3eb0c6f7a0b5ed8d

abbrev pub thousandth : Float64
thousandth = 0x3f50624dd2f1a9fc

abbrev unit_suffix : String → String → Float64 → UnitSuffix
unit_suffix s n m = record { suffix = codes s; name_suffix = codes n; multiplier = m }

-- knownUnitSuffixes
unfoldable pub known_unit_suffixes : List UnitSuffix
known_unit_suffixes =
    unit_suffix " [W]" "_watts" one
    ∷ unit_suffix " [MHz]" "_clock_hz" million
    ∷ unit_suffix " [MiB]" "_bytes" mebi
    ∷ unit_suffix " [%]" "_ratio" hundredth
    ∷ unit_suffix " [us]" "_seconds" millionth
    ∷ unit_suffix " [ms]" "_seconds" thousandth
    ∷ unit_suffix " [seconds]" "_seconds" one
    ∷ unit_suffix " [W/s]" "_watts_per_second" one
    ∷ []

-- strings.HasSuffix
unfoldable pub has_suffix : Text → Text → Bool
has_suffix [] suffix = suffix == []
has_suffix (c ∷ s) suffix = let later = has_suffix s suffix in (c ∷ s) == suffix || later

-- The loop over the units: the first whose suffix the field has.
unfoldable pub find_unit : Text → List UnitSuffix → Option UnitSuffix
unfolding has_suffix
find_unit r_field [] = none
find_unit r_field (unit ∷ units) =
    let later = find_unit r_field units in
    if has_suffix r_field unit.suffix then some unit else later

-- strings.ReplaceAll for one character, by a text.
unfoldable pub replace_char : ℕ → Text → Text → Text
replace_char old new [] = []
replace_char old new (c ∷ s) =
    let rest = replace_char old new s in if c == old then new ++ rest else c ∷ rest

-- strings.ReplaceAll(s, " [", "_")
unfoldable pub replace_bracket : Text → Text
replace_bracket [] = []
replace_bracket (c ∷ []) = c ∷ []
replace_bracket (c ∷ d ∷ s) =
    let matched = b'_' ∷ replace_bracket s in
    let plain = c ∷ replace_bracket (d ∷ s) in if c == 32 && d == b'[' then matched else plain

-- `[a-zA-Z0-9_:]`
abbrev pub is_name_char : ℕ → Bool
is_name_char c = is_lower c || is_upper c || is_digit c || c == b'_' || c == b':'

-- invalidNameCharRuns.MatchString
abbrev pub has_invalid : Text → Bool
has_invalid s = any (λ c. not (is_name_char c)) s

-- invalidNameCharRuns.ReplaceAllString(s, "_"). The flag says that the text before is a match that
-- goes on.
unfoldable pub replace_invalid : Bool → Text → Text
replace_invalid run [] = []
replace_invalid run (c ∷ s) =
    let kept = c ∷ replace_invalid false s in
    let rest = replace_invalid true s in
    if is_name_char c then kept else if run then rest else b'_' ∷ rest

abbrev pub head_or_nil : List Text → Text
head_or_nil [] = []
head_or_nil (w ∷ ws) = w

-- The name behind the unit, up to the call of BuildFQName.
unfoldable pub sanitize_name : Text → Text
unfolding to_snake_case replace_char replace_bracket replace_invalid
sanitize_name suffixed =
    let snake = to_snake_case (replace_char b'.' (codes "_") suffixed) in
    let bare = replace_char b']' [] (replace_bracket snake) in
    if has_invalid bare then replace_invalid false bare else bare

-- The name with the suffix of its unit, and the multiplier.
unfoldable pub suffix_and_multiplier : Text → Text × Float64
unfolding find_unit known_unit_suffixes
suffix_and_multiplier r_field = elim (find_unit r_field known_unit_suffixes) [
  | none ↦ (r_field, one)
  | some unit ↦ (head_or_nil (split 32 r_field) ++ unit.name_suffix, unit.multiplier)
]

-- BuildFQNameAndMultiplier
unfoldable pub build_fq_name_and_multiplier : Host → Text → RField → Text × Float64
unfolding sanitize_name suffix_and_multiplier
build_fq_name_and_multiplier host prefix r_field =
    let named = suffix_and_multiplier r_field in
    (host.build_fq_name prefix (sanitize_name named.0), named.1)
