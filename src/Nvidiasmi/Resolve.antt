-- ===== src/Nvidiasmi/Resolve.antt =====
-- internal/nvidiasmi/resolve.go: which fields are queried, and how their returned names map back.
-- The order in which Go ranges over the built-in map is a parameter, `key_order`. Query fields are
-- texts on both sides of `toQFieldSlice`, which is left out with the log lines.
pub mod Duplicates
pub mod Returned
pub mod Resolved
pub mod Outcomes
pub mod Promise
pub mod Names
pub mod Catalog
mod Examples
use nvidia_gpu_exporter.Common.{
  if◌then◌else◌, ℤ, lookup, insert, Comparable, ◌==◌, contains, Outcome, ok, err, panic, ◌>>=◌,
  index, ℕ, suc, ◌⊎◌, inl, inr, Bool, true, false, none, some, List, [], ◌∷◌, ◌++◌, list_comparable,
  nat_comparable,
}
use nvidia_gpu_exporter.Nvidiasmi.Command.{Machine, QueryError, query}
use nvidia_gpu_exporter.Nvidiasmi.Csv.{QField, RField, Table}
use nvidia_gpu_exporter.Nvidiasmi.Exclude.{filter_excluded_q_fields}
use nvidia_gpu_exporter.Nvidiasmi.Fields.{
  q_fields_auto, InfoField, info_fields, required_q_fields, AutoError, parse_auto_q_fields,
}
use nvidia_gpu_exporter.Nvidiasmi.Fields.Builtin.{fallback_q_field_to_r_field_map}
use nvidia_gpu_exporter.Text.{Text, split, fields}

pub record ResolvedFields : Type 0 where
  pub query : List QField
  pub returned : List (QField × RField)
  pub info : List InfoField

pub data ResolveError : Type 0 where
  unexpected_query_field : QField → ResolveError
  unsupported_query_field : QField → ResolveError

-- The loop of `removeDuplicates`, over any comparable type.
module _ {ℓ} {A : Type ℓ} ⦃e : Comparable A⦄ where
  unfoldable pub remove_loop : List A → List A → List A → List A
  remove_loop val_map uniques [] = uniques
  remove_loop val_map uniques (field ∷ fields) = elim (contains val_map field) [
    | true ↦ remove_loop val_map uniques fields
    | false ↦ remove_loop (field ∷ val_map) (uniques ++ field ∷ []) fields
  ]

  unfoldable pub remove_duplicates : List A → List A
  unfolding remove_loop
  remove_duplicates fields = remove_loop [] [] fields

-- withRequiredFields
unfoldable pub with_required_fields : List QField → List QField
with_required_fields q_fields = remove_duplicates (q_fields ++ required_q_fields)

-- fallbackRFields: the first field that the built-in list does not know is an error.
unfoldable pub fallback_r_fields : List QField → Outcome ResolveError (List RField)
fallback_r_fields [] = ok []
fallback_r_fields (q ∷ q_fields) = elim (lookup q fallback_q_field_to_r_field_map) [
  | none ↦ err (unexpected_query_field q)
  | some r_field ↦ fallback_r_fields q_fields >>= λ r_fields. ok (r_field ∷ r_fields)
]

-- The names of the answer, or the built-in ones where the query failed.
unfoldable pub names_of :
    Outcome (ℤ × QueryError) Table → List QField → Outcome ResolveError (List RField)
names_of (ok table) q_fields = ok table.r_fields
names_of (err e) q_fields = fallback_r_fields q_fields
names_of panic q_fields = panic

-- queryRFields
unfoldable pub query_r_fields : Machine → Text → List QField → Outcome ResolveError (List RField)
unfolding names_of
query_r_fields m command q_fields = names_of (query m command q_fields) q_fields

-- subsetRFieldMap
unfoldable pub subset_r_field_map :
    List (QField × RField) → List QField → List (QField × RField) → List (QField × RField)
subset_r_field_map full [] subset = subset
subset_r_field_map full (key ∷ keys) subset =
    subset_r_field_map full keys
      (elim (lookup key full) [ none ↦ subset | some r_field ↦ insert key r_field subset ])

-- fallbackQFieldToRFieldMapExcluding
abbrev pub fallback_excluding : List QField → Text → List QField × List (QField × RField)
fallback_excluding key_order exclude_raw =
    let keys = filter_excluded_q_fields required_q_fields key_order exclude_raw in
    (keys, subset_r_field_map fallback_q_field_to_r_field_map keys [])

-- builtinResolvedFields
unfoldable pub builtin_resolved_fields : List QField → Text → ResolvedFields
unfolding subset_r_field_map
builtin_resolved_fields key_order exclude_raw =
    let built_in = fallback_excluding key_order exclude_raw in
    record { query = built_in.0; returned = built_in.1; info = info_fields }

-- `for i, q := range qFields { returned[q] = rFields[i] }`
unfoldable pub map_returned :
    List RField
    → ℕ
    → List QField
    → List (QField × RField)
    → Outcome ResolveError (List (QField × RField))
map_returned r_fields i [] returned = ok returned
map_returned r_fields i (q ∷ q_fields) returned = do
  r ← index r_fields i
  map_returned r_fields (suc i) q_fields (insert q r returned)

-- The end of `ResolveFields`, with what `queryRFields` returned.
unfoldable pub finish_list :
    List QField
    → Text
    → Bool
    → List QField
    → Outcome ResolveError (List RField)
    → Outcome ResolveError ResolvedFields
unfolding map_returned
finish_list key_order exclude_raw auto kept (ok r_fields) =
    map_returned r_fields 0 kept [] >>= λ returned.
    ok (record { query = kept; returned = returned; info = info_fields })
finish_list key_order exclude_raw auto kept (err e) =
    if auto then ok (builtin_resolved_fields key_order exclude_raw) else err e
finish_list key_order exclude_raw auto kept panic = panic

-- The part of `ResolveFields` behind the choice of the list.
unfoldable pub resolve_list :
    Machine → List QField → Text → Text → Bool → List QField → Outcome ResolveError ResolvedFields
unfolding query_r_fields finish_list
resolve_list m key_order command exclude_raw auto q_fields =
    let kept = filter_excluded_q_fields required_q_fields q_fields exclude_raw in
    finish_list key_order exclude_raw auto kept (query_r_fields m command kept)

-- `len(qFieldsSeparated) == 1 && qFieldsSeparated[0] == qFieldsAuto`
unfoldable pub is_auto : List Text → Bool
is_auto [] = false
is_auto (field ∷ []) = field == q_fields_auto
is_auto (field ∷ _ ∷ _) = false

-- `ResolveFields` in auto mode, with what `autoQFields` returned.
unfoldable pub resolve_discovered :
    Machine
    → List QField
    → Text
    → Text
    → List QField ⊎ AutoError
    → Outcome ResolveError ResolvedFields
unfolding resolve_list
resolve_discovered m key_order command exclude_raw (inr e) =
    ok (builtin_resolved_fields key_order exclude_raw)
resolve_discovered m key_order command exclude_raw (inl parsed) =
    resolve_list m key_order command exclude_raw true (with_required_fields parsed)

-- ResolveFields
unfoldable pub resolve_fields :
    Machine → List QField → Text → Text → Text → Outcome ResolveError ResolvedFields
unfolding resolve_list resolve_discovered is_auto
resolve_fields m key_order command q_fields_raw exclude_raw =
    let separated = split b',' q_fields_raw in
    let q_fields = with_required_fields separated in
    if is_auto separated
    then resolve_discovered m key_order command exclude_raw (parse_auto_q_fields m command)
    else resolve_list m key_order command exclude_raw false q_fields

-- The loop of `ResolveFromCatalog` over the fields kept.
unfoldable pub map_catalog :
    List (QField × RField)
    → List QField
    → List (QField × RField)
    → Outcome ResolveError (List (QField × RField))
map_catalog catalog [] returned = ok returned
map_catalog catalog (q ∷ q_fields) returned = elim (lookup q catalog) [
  | none ↦ err (unsupported_query_field q)
  | some r_field ↦ map_catalog catalog q_fields (insert q r_field returned)
]

-- ResolveFromCatalog
unfoldable pub resolve_from_catalog :
    List QField → List (QField × RField) → Text → Text → Outcome ResolveError ResolvedFields
unfolding map_catalog is_auto
resolve_from_catalog order catalog q_fields_raw exclude_raw =
    let separated = split b',' q_fields_raw in
    let q_fields = if is_auto separated then order else with_required_fields separated in
    let kept = filter_excluded_q_fields required_q_fields q_fields exclude_raw in
    map_catalog catalog kept [] >>= λ returned.
    ok (record { query = kept; returned = returned; info = info_fields })
