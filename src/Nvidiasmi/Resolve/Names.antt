-- ===== src/Nvidiasmi/Resolve/Names.antt =====
-- The returned names belong to the columns of the answer.
use nvidia_gpu_exporter.Common.{
  length, get_elem?, lookup, ok, ℕ, ◌≡◌, refl, Bool, false, some, List, [], list_comparable,
  nat_comparable,
}
use nvidia_gpu_exporter.Nvidiasmi.Command.{Machine, query}
use nvidia_gpu_exporter.Nvidiasmi.Csv.{QField, Table}
use nvidia_gpu_exporter.Nvidiasmi.Exclude.Filtering.{filter_excluded_q_fields-Distinct}
use nvidia_gpu_exporter.Nvidiasmi.Fields.{info_fields, required_q_fields}
use nvidia_gpu_exporter.Nvidiasmi.Resolve.{ResolvedFields, resolve_list, is_auto, resolve_fields}
use nvidia_gpu_exporter.Nvidiasmi.Resolve.Outcomes.{query-aligned, kept_fields}
use nvidia_gpu_exporter.Nvidiasmi.Resolve.Promise.{with_required-Distinct, explicit_fields}
use nvidia_gpu_exporter.Nvidiasmi.Resolve.Returned.{put_all, map_returned_lem, lookup-put_all}
use nvidia_gpu_exporter.Text.{Text, split}

resolve_list_names :
    (m : Machine) (key_order : List QField) (command exclude_raw : Text) (auto : Bool)
    (qs : List QField) (t : Table)
    → query m command (kept_fields qs exclude_raw) ≡ ok t
    → length t.r_fields ≡ length (kept_fields qs exclude_raw)
    → resolve_list m key_order command exclude_raw auto qs
      ≡ ok (record {
        query = kept_fields qs exclude_raw;
        returned = put_all (kept_fields qs exclude_raw) t.r_fields [];
        info = info_fields;
      })
unfolding resolve_list
resolve_list_names m key_order command exclude_raw auto qs t h aligned =
    rw h (rw (map_returned_lem (kept_fields qs exclude_raw) t.r_fields aligned))

-- Where an explicit list is asked for and nvidia-smi answers with a table, resolution succeeds,
-- and the field queried at place `j` is mapped to the name that stands at place `j` of the header.
pub resolve_fields_names :
    (m : Machine) (key_order : List QField) (command q_fields_raw exclude_raw : Text) (t : Table)
    (j : ℕ) (q : QField)
    → is_auto (split b',' q_fields_raw) ≡ false
    → query m command (explicit_fields q_fields_raw exclude_raw) ≡ ok t
    → get_elem? (explicit_fields q_fields_raw exclude_raw) j ≡ some q
    → (r : ResolvedFields) × (resolve_fields m key_order command q_fields_raw exclude_raw ≡ ok r)
      × (r.query ≡ explicit_fields q_fields_raw exclude_raw)
      × (lookup q r.returned ≡ get_elem? t.r_fields j)
unfolding resolve_fields
resolve_fields_names m key_order command q_fields_raw exclude_raw t j q explicit h at_j =
    let kept = explicit_fields q_fields_raw exclude_raw in
    let aligned = query-aligned m command kept t h in
    (
      record { query = kept; returned = put_all kept t.r_fields []; info = info_fields },
      rw explicit (resolve_list_names m key_order command exclude_raw false _ t h aligned),
      refl,
      lookup-put_all kept t.r_fields [] j q
          (filter_excluded_q_fields-Distinct required_q_fields _ exclude_raw
            (with_required-Distinct _))
          aligned at_j,
    )
