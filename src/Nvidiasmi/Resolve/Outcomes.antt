-- ===== src/Nvidiasmi/Resolve/Outcomes.antt =====
-- What `ResolveFields` returns, on every path.
use nvidia_gpu_exporter.Common.{
  if◌then◌else◌, Option-cases, ℤ, length, lookup, contains, Distinct, Outcome, ok, err, panic,
  Yields, returns, fails, suc, ◌≡◌, refl, ap, ◌∙◌, ◌≢◌, ◌⊎◌, inl, inr, Bool, true, false, Option,
  none, some, List, [], ◌∷◌, arith, list_comparable, nat_comparable,
}
use nvidia_gpu_exporter.Nvidiasmi.Command.{
  ExecError, Machine, QueryError, wrap_csv, query_of, query,
}
use nvidia_gpu_exporter.Nvidiasmi.Csv.{QField, RField, Table, CsvError}
use nvidia_gpu_exporter.Nvidiasmi.Csv.Answers.{
  parse_csv_into_table-ne-panic, parse_csv_into_table-IsTableOf,
}
use nvidia_gpu_exporter.Nvidiasmi.Exclude.{filter_excluded_q_fields}
use nvidia_gpu_exporter.Nvidiasmi.Exclude.Filtering.{
  contains-filter_excluded_q_fields, filter_excluded_q_fields-Distinct,
}
use nvidia_gpu_exporter.Nvidiasmi.Fields.{info_fields, required_q_fields}
use nvidia_gpu_exporter.Nvidiasmi.Fields.Builtin.{fallback_q_field_to_r_field_map}
use nvidia_gpu_exporter.Nvidiasmi.Resolve.{
  ResolvedFields, ResolveError, unexpected_query_field, fallback_r_fields, names_of, query_r_fields,
  builtin_resolved_fields, finish_list, resolve_list,
}
use nvidia_gpu_exporter.Nvidiasmi.Resolve.Resolved.{
  IsResolved, IsKeyOrder, builtin_resolved_fields-IsResolved,
}
use nvidia_gpu_exporter.Nvidiasmi.Resolve.Returned.{put_all, map_returned_lem, put_all-Member}
use nvidia_gpu_exporter.Text.{Text, trim_space}

-- The first field that the built-in list does not know.
abbrev pub first_unknown : List QField → Option ResolveError
first_unknown [] = none
first_unknown (q ∷ qs) = elim (lookup q fallback_q_field_to_r_field_map) [
  | none ↦ some (unexpected_query_field q)
  | some f ↦ first_unknown qs
]

fallback_r_fields-Yields :
    (qs : List QField)
    → Yields (λ rs. length rs ≡ length qs) (fallback_r_fields qs) (first_unknown qs)
unfolding fallback_r_fields
fallback_r_fields-Yields [] = returns [] refl refl refl
fallback_r_fields-Yields (q ∷ qs) = elim (Option-cases (lookup q fallback_q_field_to_r_field_map)) [
  | inl e ↦ fails (unexpected_query_field q) (rw (e, first_unknown)) (rw (e, fallback_r_fields))
  | inr (f, e) ↦ elim (fallback_r_fields-Yields qs) [
    | returns rs n h p ↦
        returns (f ∷ rs) (rw (e, first_unknown) n) (rw (e, fallback_r_fields) (rw h)) (ap suc p)
    | fails x n h ↦ fails x (rw (e, first_unknown) n) (rw (e, fallback_r_fields) (rw h))
  ]
]

wrap_csv-eq-ok : (o : Outcome CsvError Table) (t : Table) → wrap_csv o ≡ ok t → o ≡ ok t
wrap_csv-eq-ok (ok t') t h = cc
wrap_csv-eq-ok (err e) t h = cc
wrap_csv-eq-ok panic t h = cc

wrap_csv-ne-panic : (o : Outcome CsvError Table) → o ≢ panic → wrap_csv o ≢ panic
wrap_csv-ne-panic (ok t) h g = cc
wrap_csv-ne-panic (err e) h g = cc
wrap_csv-ne-panic panic h g = h refl

query_of-aligned :
    (qs : List QField) (r : Text ⊎ (ℤ × ExecError)) (t : Table)
    → query_of qs r ≡ ok t
    → length t.r_fields ≡ length qs
query_of-aligned qs (inl stdout) t h =
    let (titles, lines, e, w) =
      parse_csv_into_table-IsTableOf (trim_space stdout) qs t (wrap_csv-eq-ok _ t h) in
    w.aligned
query_of-aligned qs (inr (status, e)) t h = cc

query_of-ne-panic : (qs : List QField) (r : Text ⊎ (ℤ × ExecError)) → query_of qs r ≢ panic
query_of-ne-panic qs (inl stdout) h =
    wrap_csv-ne-panic _ (parse_csv_into_table-ne-panic (trim_space stdout) qs) h
query_of-ne-panic qs (inr (status, e)) h = cc

-- The error of the name mapping: only where the query failed, and only of an unknown field.
abbrev pub name_error_of : Outcome (ℤ × QueryError) Table → List QField → Option ResolveError
name_error_of (err e) qs = first_unknown qs
name_error_of _ qs = none

abbrev pub name_error : Machine → Text → List QField → Option ResolveError
name_error m command qs = name_error_of (query m command qs) qs

names_of-Yields :
    (o : Outcome (ℤ × QueryError) Table) (qs : List QField)
    → o ≢ panic
    → ((t : Table) → o ≡ ok t → length t.r_fields ≡ length qs)
    → Yields (λ rs. length rs ≡ length qs) (names_of o qs) (name_error_of o qs)
unfolding names_of
names_of-Yields (ok t) qs p h = returns t.r_fields refl refl (h t refl)
names_of-Yields (err e) qs p h = fallback_r_fields-Yields qs
names_of-Yields panic qs p h = absurd (p refl)

query_r_fields-Yields :
    (m : Machine) (command : Text) (qs : List QField)
    → Yields (λ rs. length rs ≡ length qs) (query_r_fields m command qs) (name_error m command qs)
unfolding query_r_fields query
query_r_fields-Yields m command qs =
    names_of-Yields (query m command qs) qs (query_of-ne-panic qs _) (query_of-aligned qs _)

pub query-aligned :
    (m : Machine) (command : Text) (qs : List QField) (t : Table)
    → query m command qs ≡ ok t
    → length t.r_fields ≡ length qs
unfolding query
query-aligned m command qs t = query_of-aligned qs _ t

-- The fields that a list leads to, with the identity fields in it, less the exclusions.
abbrev pub kept_fields : List QField → Text → List QField
kept_fields qs exclude_raw = filter_excluded_q_fields required_q_fields qs exclude_raw

-- What the end of `ResolveFields` returns, with the fields asked for and the error it may end in.
abbrev pub ResolvesTo : Bool → List QField → ResolvedFields → Type 0
ResolvesTo auto kept r = IsResolved r × (auto ≡ false → r.query ≡ kept)

module _ (key_order : List QField) (order : IsKeyOrder key_order) (exclude_raw : Text)
    (qs : List QField) (distinct : Distinct qs)
    (identified : (q : QField) → contains required_q_fields q ≡ true → contains qs q ≡ true) where
  named-IsResolved :
      (rs : List RField)
      → length rs ≡ length (kept_fields qs exclude_raw)
      → IsResolved (record {
        query = kept_fields qs exclude_raw;
        returned = put_all (kept_fields qs exclude_raw) rs [];
        info = info_fields;
      })
  named-IsResolved rs h = record {
    distinct = filter_excluded_q_fields-Distinct required_q_fields qs exclude_raw distinct;
    identified = λ q hq.
        contains-filter_excluded_q_fields required_q_fields qs exclude_raw q hq ∙ identified q hq;
    named = λ q hq. put_all-Member q (kept_fields qs exclude_raw) rs [] h (inl hq);
    info = refl;
  }

  finish_list-Yields :
      (auto : Bool) (names : Outcome ResolveError (List RField)) (o : Option ResolveError)
      → Yields (λ rs. length rs ≡ length (kept_fields qs exclude_raw)) names o
      → Yields
          (ResolvesTo auto (kept_fields qs exclude_raw))
          (finish_list key_order exclude_raw auto (kept_fields qs exclude_raw) names)
          (if auto then none else o)
  unfolding finish_list
  finish_list-Yields auto names o (returns rs n h p) =
      returns _ (ground arith) (rw h (rw (map_returned_lem _ rs p)))
        (named-IsResolved rs p, λ _. refl)
  finish_list-Yields true names o (fails e n h) =
      returns (builtin_resolved_fields key_order exclude_raw) refl (rw h)
        (builtin_resolved_fields-IsResolved key_order exclude_raw order, λ f. cc)
  finish_list-Yields false names o (fails e n h) = fails e n (rw h)

  pub resolve_list-Yields :
      (m : Machine) (command : Text) (auto : Bool)
      → Yields
          (ResolvesTo auto (kept_fields qs exclude_raw))
          (resolve_list m key_order command exclude_raw auto qs)
          (if auto then none else name_error m command (kept_fields qs exclude_raw))
  unfolding resolve_list
  resolve_list-Yields m command auto =
      finish_list-Yields auto _ _ (query_r_fields-Yields m command (kept_fields qs exclude_raw))
