-- ===== src/Nvidiasmi/Fields.antt =====
-- internal/nvidiasmi/fields.go and the identity fields of resolve.go. `ExtractQFields` uses one
-- regular expression, `(?m)\n\s*\n^"([^"]+)"`; its matching is written out.
pub mod Builtin
mod Examples
use Prim.Native.Char.{code}
use Prim.Native.String.{String}
use nvidia_gpu_exporter.Common.{
  if◌then◌else◌, length, filter, ◌==◌, ℕ, zero, suc, ◌⊎◌, inl, inr, Bool, false, not, ◌&&◌, ◌||◌,
  Option, none, some, List, [], ◌∷◌, ◌++◌, map, list_comparable, nat_comparable,
}
use nvidia_gpu_exporter.Nvidiasmi.Command.{
  split_command, ExecError, bad_command, command_failed, Machine,
}
use nvidia_gpu_exporter.Nvidiasmi.Csv.{QField}
use nvidia_gpu_exporter.Text.{Text, codes, contains_any, fields}

abbrev pub uuid_q_field : QField
uuid_q_field = codes "uuid"

abbrev pub q_fields_auto : Text
q_fields_auto = codes "AUTO"

pub record InfoField : Type 0 where
  pub q_field : QField
  pub label : Text

abbrev info_field : String → String → InfoField
info_field q l = record { q_field = codes q; label = codes l }

-- infoFields
unfoldable pub info_fields : List InfoField
info_fields =
    info_field "uuid" "uuid"
    ∷ info_field "name" "name"
    ∷ info_field "driver_model.current" "driver_model_current"
    ∷ info_field "driver_model.pending" "driver_model_pending"
    ∷ info_field "vbios_version" "vbios_version"
    ∷ info_field "driver_version" "driver_version"
    ∷ info_field "pci.bus_id" "pci_bus_id"
    ∷ info_field "serial" "serial"
    ∷ info_field "compute_cap" "compute_cap"
    ∷ info_field "pci.sub_device_id" "pci_sub_device_id"
    ∷ info_field "index" "index"
    ∷ []

abbrev pub required_q_fields : List QField
required_q_fields = map InfoField.q_field info_fields

-- `\s` of package regexp
unfoldable pub is_regexp_space : ℕ → Bool
is_regexp_space c = c == 9 || c == 10 || c == 12 || c == 13 || c == 32

-- `\s*\n"` behind the first line break: white space whose last character is a line break, and a
-- quote. The flag says that the last character read is a line break.
unfoldable pub skip_to_quote : Bool → Text → Option Text
unfolding is_regexp_space
skip_to_quote after_break [] = none
skip_to_quote after_break (c ∷ s) =
    let later = skip_to_quote (c == b'\n') s in
    if is_regexp_space c then later else if after_break && c == 34 then some s else none

-- The characters up to the next quote, and what stands behind it.
unfoldable pub take_to_quote : Text → Option (Text × Text)
take_to_quote [] = none
take_to_quote (c ∷ s) =
    let later : Option (Text × Text) = elim (take_to_quote s) [
      | none ↦ none
      | some (name, rest) ↦ some (c ∷ name, rest)
    ] in
    if c == 34 then some ([], s) else later

-- `[^"]+"`: at least one character in front of the quote.
unfoldable pub quoted_name : Text → Option (Text × Text)
unfolding take_to_quote
quoted_name s = elim (take_to_quote s) [
  | none ↦ none
  | some ([], rest) ↦ none
  | some (c ∷ name, rest) ↦ some (c ∷ name, rest)
]

-- One match of the expression, where the text begins with the line break that starts it.
unfoldable pub match_field : Text → Option (Text × Text)
unfolding skip_to_quote quoted_name
match_field [] = none
match_field (c ∷ s) =
    if c == b'\n'
    then elim (skip_to_quote false s) [ none ↦ none | some rest ↦ quoted_name rest ]
    else none

-- FindAllStringSubmatch: leftmost matches that do not overlap. A match takes at least one
-- character, so the length of the text is fuel enough.
unfoldable pub find_fields : ℕ → Text → List Text
unfolding match_field
find_fields zero s = []
find_fields (suc fuel) [] = []
find_fields (suc fuel) (c ∷ s) = elim (match_field (c ∷ s)) [
  | none ↦ find_fields fuel s
  | some (name, rest) ↦ name ∷ find_fields fuel rest
]

-- `strings.ContainsAny(ss[1], ",\r\n")`
abbrev pub is_unusable : Text → Bool
is_unusable name = contains_any name (b',' ∷ 13 ∷ 10 ∷ [])

-- The fields, or nil if there is none.
abbrev pub nil_if_empty : List QField → Option (List QField)
nil_if_empty [] = none
nil_if_empty (q ∷ qs) = some (q ∷ qs)

-- ExtractQFields
unfoldable pub extract_q_fields : Text → Option (List QField)
unfolding find_fields
extract_q_fields text =
    nil_if_empty (filter (λ name. not (is_unusable name)) (find_fields (length text) text))

pub data AutoError : Type 0 where
  auto_command : ExecError → AutoError
  no_fields : AutoError

-- ParseAutoQFields
unfoldable pub parse_auto_q_fields : Machine → Text → List QField ⊎ AutoError
parse_auto_q_fields m command = elim (split_command m.shell_split command) [
  | inr e ↦ inr (auto_command (bad_command e))
  | inl parts ↦
      let ran = m.run (parts ++ codes "--help-query-gpu" ∷ []) in
      elim ran.failure [
        | some code ↦ inr (auto_command (command_failed code))
        | none ↦ elim (extract_q_fields ran.stdout) [
          | none ↦ inr no_fields
          | some fields ↦ inl fields
        ]
      ]
]
