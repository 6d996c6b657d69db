-- ===== src/Nvidiasmi/Resolve/Examples.antt =====
-- The theorems of resolution at concrete machines.
use nvidia_gpu_exporter.Common.{
  pos, get_elem?, lookup, insert, contains, Distinct, ok, err, panic, ◌≡◌, refl, ◌≢◌, ◌↔◌, Bool,
  true, not, ◌&&◌, none, some, List, [], ◌∷◌, map, arith, list_comparable, nat_comparable,
}
use nvidia_gpu_exporter.Nvidiasmi.Command.{split_command, Machine, exec_query, query}
use nvidia_gpu_exporter.Nvidiasmi.Csv.{QField, RField, Table, parse_csv_line, parse_csv_into_table}
use nvidia_gpu_exporter.Nvidiasmi.Exclude.{filter_excluded_q_fields}
use nvidia_gpu_exporter.Nvidiasmi.Fields.{info_fields, required_q_fields}
use nvidia_gpu_exporter.Nvidiasmi.Fields.Builtin.{fallback_q_field_to_r_field_map}
use nvidia_gpu_exporter.Nvidiasmi.Resolve.{
  ResolvedFields, unexpected_query_field, unsupported_query_field, remove_duplicates,
  with_required_fields, is_auto, resolve_fields, resolve_from_catalog,
}
use nvidia_gpu_exporter.Nvidiasmi.Resolve.Catalog.{
  first_unsupported, catalog_fields, ResolvedBy, resolve_from_catalog-ResolvedBy,
  resolve_from_catalog-eq-err,
}
use nvidia_gpu_exporter.Nvidiasmi.Resolve.Duplicates.{remove_duplicates-Distinct}
use nvidia_gpu_exporter.Nvidiasmi.Resolve.Names.{resolve_fields_names}
use nvidia_gpu_exporter.Nvidiasmi.Resolve.Outcomes.{ResolvesTo}
use nvidia_gpu_exporter.Nvidiasmi.Resolve.Promise.{
  explicit_fields, resolve_error, resolve_fields-ResolvesTo, resolve_fields-eq-err,
  resolve_fields_auto, resolve_fields-ne-panic,
}
use nvidia_gpu_exporter.Nvidiasmi.Resolve.Resolved.{IsResolved, IsKeyOrder}
use nvidia_gpu_exporter.Text.{Text, codes, trim_space, contains_any, split, fields}

-- A machine whose nvidia-smi always fails.
abbrev dead : Machine
dead = record {
  shell_split = λ s. none;
  run = λ args. record { stdout = []; failure = some (pos 9) };
}

-- A machine that answers the query for the identity fields and one more, with its help text empty.
abbrev alive : Machine
alive = record {
  shell_split = λ s. none;
  run = λ args. record {
    stdout =
        codes
          "fan.speed [%], uuid, name, driver_model.current, driver_model.pending, vbios_version, driver_version, pci.bus_id, serial, compute_cap, pci.sub_device_id, index\n";
    failure = none;
  };
}

abbrev builtin_keys : List QField
builtin_keys = map (λ (e : QField × RField). e.0) fallback_q_field_to_r_field_map

distinct_test : List QField → Bool
distinct_test [] = true
distinct_test (q ∷ qs) = not (contains qs q) && distinct_test qs

distinct_test-Distinct : (qs : List QField) → distinct_test qs ≡ true → Distinct qs
unfolding distinct_test
distinct_test-Distinct [] h = tt
distinct_test-Distinct (q ∷ qs) h = (ground arith, distinct_test-Distinct qs (ground arith))

builtin_order : IsKeyOrder builtin_keys
builtin_order = record {
  distinct =
      distinct_test-Distinct builtin_keys
        (unfold distinct_test fallback_q_field_to_r_field_map in refl);
  complete = λ q. refl;
}

abbrev command : Text
command = codes "nvidia-smi"

resolve_fields_auto_example :
    (r : ResolvedFields) × (resolve_fields dead builtin_keys command
        (codes "AUTO")
        (codes "name, fan.*")
      ≡ ok r)
    × IsResolved r
unfolding is_auto split
resolve_fields_auto_example =
    resolve_fields_auto dead builtin_keys builtin_order command (codes "AUTO") (codes "name, fan.*")
      refl

-- Out of the box on a dead machine an unknown field is an error.
resolve_fields-eq-err_example :
    (resolve_fields dead builtin_keys command (codes "fan.speed,new.field") []
      ≡ err (unexpected_query_field (codes "new.field")))
    ↔ (resolve_error dead command (codes "fan.speed,new.field") []
        ≡ some (unexpected_query_field (codes "new.field")))
resolve_fields-eq-err_example =
    resolve_fields-eq-err dead builtin_keys builtin_order command (codes "fan.speed,new.field") []
      (unexpected_query_field (codes "new.field"))

resolve_fields-ne-panic_example :
    resolve_fields alive builtin_keys command (codes "fan.speed") [] ≢ panic
resolve_fields-ne-panic_example =
    resolve_fields-ne-panic alive builtin_keys builtin_order command (codes "fan.speed") []

-- What the machine answers to the query for the fan speed.
alive-query : (t : Table) × (query alive command (explicit_fields (codes "fan.speed") []) ≡ ok t)
unfolding query exec_query split_command fields contains_any parse_csv_into_table split trim_space
    info_fields parse_csv_line with_required_fields filter_excluded_q_fields remove_duplicates
alive-query = (_, refl)

resolve_fields_names_example :
    (r : ResolvedFields) × (resolve_fields alive builtin_keys command (codes "fan.speed") [] ≡ ok r)
    × (r.query ≡ explicit_fields (codes "fan.speed") [])
    × (lookup (codes "fan.speed") r.returned ≡ get_elem? alive-query.0.r_fields 0)
unfolding split filter_excluded_q_fields with_required_fields remove_duplicates trim_space
    info_fields is_auto
resolve_fields_names_example =
    resolve_fields_names alive builtin_keys command (codes "fan.speed") [] alive-query.0 0
      (codes "fan.speed") refl alive-query.1 refl

fan_resolution :
    (r : ResolvedFields) × (resolve_fields alive builtin_keys command (codes "fan.speed") [] ≡ ok r)
    × (r.query ≡ explicit_fields (codes "fan.speed") [])
    × (lookup (codes "fan.speed") r.returned ≡ get_elem? alive-query.0.r_fields 0)
unfolding split filter_excluded_q_fields with_required_fields remove_duplicates trim_space
    info_fields is_auto
fan_resolution =
    resolve_fields_names alive builtin_keys command (codes "fan.speed") [] alive-query.0 0
      (codes "fan.speed") refl alive-query.1 refl

resolved :
    (r : ResolvedFields) × (resolve_fields alive builtin_keys command (codes "fan.speed") [] ≡ ok r)
resolved = (fan_resolution.0, fan_resolution.1)

resolve_fields-ResolvesTo_example :
    ResolvesTo
      (is_auto (split b',' (codes "fan.speed")))
      (explicit_fields (codes "fan.speed") [])
      resolved.0
resolve_fields-ResolvesTo_example =
    resolve_fields-ResolvesTo alive builtin_keys builtin_order command (codes "fan.speed") []
      resolved.0 resolved.1

abbrev small_catalog : List (QField × RField)
small_catalog = map (λ (q : QField). (q, codes "r")) required_q_fields

catalog-resolved :
    (r : ResolvedFields) × (resolve_from_catalog required_q_fields small_catalog (codes "AUTO") []
      ≡ ok r)
unfolding resolve_from_catalog split lookup insert filter_excluded_q_fields trim_space info_fields
catalog-resolved = (_, refl)

resolve_from_catalog-ResolvedBy_example :
    ResolvedBy small_catalog (catalog_fields required_q_fields (codes "AUTO") []) catalog-resolved.0
resolve_from_catalog-ResolvedBy_example =
    resolve_from_catalog-ResolvedBy required_q_fields small_catalog (codes "AUTO") []
      catalog-resolved.0 catalog-resolved.1

resolve_from_catalog-eq-err_example :
    (resolve_from_catalog required_q_fields small_catalog (codes "fan.speed") []
      ≡ err (unsupported_query_field (codes "fan.speed")))
    ↔ (first_unsupported small_catalog (catalog_fields required_q_fields (codes "fan.speed") [])
        ≡ some (unsupported_query_field (codes "fan.speed")))
resolve_from_catalog-eq-err_example =
    resolve_from_catalog-eq-err required_q_fields small_catalog (codes "fan.speed") []
      (unsupported_query_field (codes "fan.speed"))

remove_duplicates-Distinct_example :
    Distinct (remove_duplicates (codes "a" ∷ codes "b" ∷ codes "a" ∷ []))
    × ((a : Text)
        → contains (remove_duplicates (codes "a" ∷ codes "b" ∷ codes "a" ∷ [])) a
          ≡ contains (codes "a" ∷ codes "b" ∷ codes "a" ∷ []) a)
remove_duplicates-Distinct_example =
    remove_duplicates-Distinct (codes "a" ∷ codes "b" ∷ codes "a" ∷ [])
