-- ===== src/Nvidiasmi/Resolve/Promise.antt =====
-- What `ResolveFields` promises: auto mode always comes up, an explicit list is never replaced.
use nvidia_gpu_exporter.Common.{
  if◌then◌else◌, Bool-cases, contains, Distinct, contains-append, ok, err, panic, Yields, returns,
  fails, Yields-err_iff, Yields-ne-panic, Yields-ok, Yields-returns, ◌≡◌, refl, ◌∙◌, ◌≢◌, ◌↔◌, ◌⊎◌,
  inl, inr, true, false, Option, none, some, List, ◌++◌, arith, list_comparable, nat_comparable,
}
use nvidia_gpu_exporter.Nvidiasmi.Command.{Machine}
use nvidia_gpu_exporter.Nvidiasmi.Csv.{QField}
use nvidia_gpu_exporter.Nvidiasmi.Fields.{required_q_fields, AutoError, parse_auto_q_fields}
use nvidia_gpu_exporter.Nvidiasmi.Resolve.{
  ResolvedFields, ResolveError, with_required_fields, builtin_resolved_fields, is_auto,
  resolve_discovered, resolve_fields,
}
use nvidia_gpu_exporter.Nvidiasmi.Resolve.Duplicates.{remove_duplicates-Distinct}
use nvidia_gpu_exporter.Nvidiasmi.Resolve.Outcomes.{
  name_error, kept_fields, ResolvesTo, resolve_list-Yields,
}
use nvidia_gpu_exporter.Nvidiasmi.Resolve.Resolved.{
  IsResolved, IsKeyOrder, builtin_resolved_fields-IsResolved,
}
use nvidia_gpu_exporter.Text.{Text, split}

with_required-identified :
    (qs : List QField) (q : QField)
    → contains required_q_fields q ≡ true
    → contains (with_required_fields qs) q ≡ true
unfolding with_required_fields
with_required-identified qs q h =
    (remove_duplicates-Distinct (qs ++ required_q_fields)).1 q
    ∙ (contains-append qs required_q_fields q ∙ ground arith)

pub with_required-Distinct : (qs : List QField) → Distinct (with_required_fields qs)
unfolding with_required_fields
with_required-Distinct qs = (remove_duplicates-Distinct (qs ++ required_q_fields)).0

-- The fields of an explicit list, less the exclusions.
abbrev pub explicit_fields : Text → Text → List QField
explicit_fields q_fields_raw exclude_raw =
    kept_fields (with_required_fields (split b',' q_fields_raw)) exclude_raw

-- The one error that resolution ends in.
abbrev pub resolve_error : Machine → Text → Text → Text → Option ResolveError
resolve_error m command q_fields_raw exclude_raw =
    if is_auto (split b',' q_fields_raw)
    then none
    else name_error m command (explicit_fields q_fields_raw exclude_raw)

module _ (m : Machine) (key_order : List QField) (order : IsKeyOrder key_order)
    (command q_fields_raw exclude_raw : Text) where
  resolve_discovered-Yields :
      (found : List QField ⊎ AutoError)
      → Yields
          (ResolvesTo true (explicit_fields q_fields_raw exclude_raw))
          (resolve_discovered m key_order command exclude_raw found)
          none
  unfolding resolve_discovered
  resolve_discovered-Yields (inr e) =
      returns (builtin_resolved_fields key_order exclude_raw) refl refl
        (builtin_resolved_fields-IsResolved key_order exclude_raw order, λ f. cc)
  resolve_discovered-Yields (inl parsed) =
      elim (resolve_list-Yields key_order order exclude_raw (with_required_fields parsed)
        (with_required-Distinct parsed) (with_required-identified parsed) m command true) [
          | returns r n h p ↦ returns r refl h (p.0, λ f. cc)
          | fails e n h ↦ cc
        ]

  resolve_fields-Yields :
      Yields
        (ResolvesTo (is_auto (split b',' q_fields_raw)) (explicit_fields q_fields_raw exclude_raw))
        (resolve_fields m key_order command q_fields_raw exclude_raw)
        (resolve_error m command q_fields_raw exclude_raw)
  unfolding resolve_fields
  resolve_fields-Yields = elim (Bool-cases (is_auto (split b',' q_fields_raw))) [
    | inl e ↦ rw e (resolve_discovered-Yields (parse_auto_q_fields m command))
    | inr e ↦ rw e (
        resolve_list-Yields key_order order exclude_raw
          (with_required_fields (split b',' q_fields_raw)) (with_required-Distinct _)
          (with_required-identified _) m command false)
  ]

  -- Whatever nvidia-smi answers: in the fields resolved, none is queried twice, all the identity
  -- fields are queried, each field queried has a returned name, and the info fields are the
  -- fixed ones; and unless the list was AUTO, the fields queried are those of the list with the
  -- identity fields behind it, each once, less the exclusions. Go may range over the built-in map
  -- in any order of its keys.
  pub resolve_fields-ResolvesTo :
      (r : ResolvedFields)
      → resolve_fields m key_order command q_fields_raw exclude_raw ≡ ok r
      → ResolvesTo (is_auto (split b',' q_fields_raw)) (explicit_fields q_fields_raw exclude_raw) r
  resolve_fields-ResolvesTo r = Yields-ok resolve_fields-Yields r

  -- Resolution fails exactly where the list is not AUTO, the query for the names failed, and some
  -- field kept is not in the built-in mapping; the error names the first such field.
  pub resolve_fields-eq-err :
      (e : ResolveError)
      → (resolve_fields m key_order command q_fields_raw exclude_raw ≡ err e)
        ↔ (resolve_error m command q_fields_raw exclude_raw ≡ some e)
  resolve_fields-eq-err e = Yields-err_iff resolve_fields-Yields e

  -- In auto mode resolution always succeeds, with fields that are queried once each, hold the
  -- identity fields and have returned names.
  pub resolve_fields_auto :
      is_auto (split b',' q_fields_raw) ≡ true
      → (r : ResolvedFields) × (resolve_fields m key_order command q_fields_raw exclude_raw ≡ ok r)
        × IsResolved r
  resolve_fields_auto h = let (r, e, p) = Yields-returns resolve_fields-Yields (rw h) in (r, e, p.0)

  -- Resolution never reads a returned name out of range.
  pub resolve_fields-ne-panic : resolve_fields m key_order command q_fields_raw exclude_raw ≢ panic
  resolve_fields-ne-panic = Yields-ne-panic resolve_fields-Yields
