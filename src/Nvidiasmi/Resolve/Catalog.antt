-- ===== src/Nvidiasmi/Resolve/Catalog.antt =====
-- Resolution against a catalog that a backend provides.
use nvidia_gpu_exporter.Common.{
  if◌then◌else◌, Bool-cases, Option-cases, lookup, insert, lookup-insert, ◌==◌, list_same_iff,
  contains, ok, err, Yields, returns, fails, Yields-err_iff, Yields-ok, ◌≡◌, refl, ◌∙◌, subst, ◌↔◌,
  inl, inr, true, Option, none, some, List, [], ◌∷◌, arith, list_comparable, nat_comparable,
}
use nvidia_gpu_exporter.Nvidiasmi.Csv.{QField, RField}
use nvidia_gpu_exporter.Nvidiasmi.Fields.{info_fields}
use nvidia_gpu_exporter.Nvidiasmi.Resolve.{
  ResolvedFields, ResolveError, unsupported_query_field, with_required_fields, is_auto, map_catalog,
  resolve_from_catalog,
}
use nvidia_gpu_exporter.Nvidiasmi.Resolve.Outcomes.{kept_fields}
use nvidia_gpu_exporter.Text.{Text, split}

-- The first field that the catalog does not know.
abbrev pub first_unsupported : List (QField × RField) → List QField → Option ResolveError
first_unsupported catalog [] = none
first_unsupported catalog (q ∷ qs) = elim (lookup q catalog) [
  | none ↦ some (unsupported_query_field q)
  | some f ↦ first_unsupported catalog qs
]

abbrev MapsAs :
    List (QField × RField) → List QField → List (QField × RField) → List (QField × RField) → Type 0
MapsAs catalog qs m m' =
    (k : QField) → lookup k m' ≡ (if contains qs k then lookup k catalog else lookup k m)

insert-MapsAs :
    (catalog : List (QField × RField)) (q : QField) (f : RField) (qs : List QField)
    (m m' : List (QField × RField))
    → lookup q catalog ≡ some f
    → MapsAs catalog qs (insert q f m) m'
    → MapsAs catalog (q ∷ qs) m m'
insert-MapsAs catalog q f qs m m' e h k = elim (Bool-cases (q == k)) [
  | inl same ↦
      let found : lookup k catalog ≡ some f =
        subst (λ x. lookup x catalog ≡ some f) ((list_same_iff q k).0 same) e in
      h k ∙ rw (lookup-insert q k f m) (rw same (rw found (ground arith)))
  | inr other ↦ h k ∙ rw (lookup-insert q k f m) (rw other)
]

map_catalog-Yields :
    (catalog : List (QField × RField)) (qs : List QField) (m : List (QField × RField))
    → Yields (MapsAs catalog qs m) (map_catalog catalog qs m) (first_unsupported catalog qs)
unfolding map_catalog
map_catalog-Yields catalog [] m = returns m refl refl (λ k. refl)
map_catalog-Yields catalog (q ∷ qs) m = elim (Option-cases (lookup q catalog)) [
  | inl e ↦ fails (unsupported_query_field q) (rw (e, first_unsupported)) (rw (e, map_catalog))
  | inr (f, e) ↦ elim (map_catalog-Yields catalog qs (insert q f m)) [
    | returns m' n h p ↦
        returns m' (rw (e, first_unsupported) n) (rw (e, map_catalog) h)
          (insert-MapsAs catalog q f qs m m' e p)
    | fails x n h ↦ fails x (rw (e, first_unsupported) n) (rw (e, map_catalog) h)
  ]
]

-- The fields that the list selects: the whole catalog in its order, or the list with the identity
-- fields behind it; less the exclusions.
abbrev pub catalog_fields : List QField → Text → Text → List QField
catalog_fields order q_fields_raw exclude_raw =
    kept_fields
      (if is_auto (split b',' q_fields_raw)
        then order
        else with_required_fields (split b',' q_fields_raw))
      exclude_raw

abbrev pub ResolvedBy : List (QField × RField) → List QField → ResolvedFields → Type 0
ResolvedBy catalog kept r =
    (r.query ≡ kept)
    × ((q : QField) → contains r.query q ≡ true → lookup q r.returned ≡ lookup q catalog)
    × (r.info ≡ info_fields)

module _ (order : List QField) (catalog : List (QField × RField))
    (q_fields_raw exclude_raw : Text) where
  resolve_from_catalog-Yields :
      Yields
        (ResolvedBy catalog (catalog_fields order q_fields_raw exclude_raw))
        (resolve_from_catalog order catalog q_fields_raw exclude_raw)
        (first_unsupported catalog (catalog_fields order q_fields_raw exclude_raw))
  unfolding resolve_from_catalog
  resolve_from_catalog-Yields =
      elim (map_catalog-Yields catalog (catalog_fields order q_fields_raw exclude_raw) []) [
        | returns m' n h p ↦ returns _ n (rw h) (refl, λ q c. p q ∙ rw c, refl)
        | fails x n h ↦ fails x n (rw h)
      ]

  -- Against a catalog, the fields queried are the whole catalog's (AUTO) or those of the list with
  -- the identity fields behind it, less the exclusions, and each has the catalog's name.
  pub resolve_from_catalog-ResolvedBy :
      (r : ResolvedFields)
      → resolve_from_catalog order catalog q_fields_raw exclude_raw ≡ ok r
      → ResolvedBy catalog (catalog_fields order q_fields_raw exclude_raw) r
  resolve_from_catalog-ResolvedBy r = Yields-ok resolve_from_catalog-Yields r

  -- It fails exactly where some field kept is not in the catalog, and names the first such field.
  pub resolve_from_catalog-eq-err :
      (e : ResolveError)
      → (resolve_from_catalog order catalog q_fields_raw exclude_raw ≡ err e)
        ↔ (first_unsupported catalog (catalog_fields order q_fields_raw exclude_raw) ≡ some e)
  resolve_from_catalog-eq-err e = Yields-err_iff resolve_from_catalog-Yields e
