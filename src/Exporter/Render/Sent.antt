-- ===== src/Exporter/Render/Sent.antt =====
-- internal/exporter/exporter.go: the descriptions of what is sent for health, XIDs and rows.
use nvidia_gpu_exporter.Collect.{Snapshot}
use nvidia_gpu_exporter.Common.{
  Bool-cases, Option-cases, Sum-cases, All, All-map, All-append, lookup, Float64, Floats, ◌==◌, ◌≡◌,
  refl, subst, ◌⊎◌, inl, inr, Bool, true, false, not, Option, none, some, List, [], ◌∷◌, ◌++◌, map,
  arith, list_comparable, nat_comparable,
}
use nvidia_gpu_exporter.Exporter.Claims.{ValueType, MetricInfo}
use nvidia_gpu_exporter.Exporter.Descs.{
  XidDescs, GpuExporter, described_fields, described_health, described_xids,
}
use nvidia_gpu_exporter.Exporter.Names.{Desc, Host}
use nvidia_gpu_exporter.Exporter.Render.{
  Metric, Conversions, XidCounter, row_uuid, send, send_if, render_health, render_xid_counters,
  render_xids, render_cell, render_cells, info_value, render_row, render_rows,
}
use nvidia_gpu_exporter.Nvidiasmi.Csv.{QField, Cell, Row}
use nvidia_gpu_exporter.Nvidiasmi.Transform.{transform_field_value}
use nvidia_gpu_exporter.Text.{Text}

-- The description is one of the list.
abbrev pub Among : List Desc → Desc → Type 0
Among [] d = ⊥
Among (c ∷ descs) d = (c ≡ d) ⊎ Among descs d

pub All-Among : (descs : List Desc) → All (Among descs) descs
All-Among [] = tt
All-Among (d ∷ descs) =
    (inl refl, All-map (Among descs) (Among (d ∷ descs)) (λ c h. inr h) descs (All-Among descs))

-- Every metric's description has the property.
pub data Sends (P : Desc → Type 0) (metrics : List Metric) : Type 0 where
  all_sent : All (λ (m : Metric). P m.desc) metrics → Sends P metrics

pub of_Sends :
    (P : Desc → Type 0) (metrics : List Metric)
    → Sends P metrics
    → All (λ (m : Metric). P m.desc) metrics
of_Sends P metrics (all_sent h) = h

module _ {P : Desc → Type 0} where
  pub Sends-none : Sends P []
  Sends-none = all_sent tt

  -- What a family sends, nothing where it is off.
  pub Sends-option :
      {A : Type 0} (o : Option A) (described : Option A → List Desc) (render : A → List Metric)
      → All P (described o)
      → ((a : A) → All P (described (some a)) → Sends P (render a))
      → Sends P (elim o [ none ↦ [] | some a ↦ render a ])
  Sends-option none described render h f = Sends-none
  Sends-option (some a) described render h f = f a h

  Sends-cons : {m : Metric} {ms : List Metric} → P m.desc → Sends P ms → Sends P (m ∷ ms)
  Sends-cons h (all_sent g) = all_sent (h, g)

  pub Sends-append : {xs ys : List Metric} → Sends P xs → Sends P ys → Sends P (xs ++ ys)
  Sends-append {xs} {ys} (all_sent h) (all_sent g) =
      all_sent (All-append (λ (m : Metric). P m.desc) xs ys h g)

  pub Sends-send_if :
      {metrics : List Metric} (host : Host) (test : Bool)
      → Sends P metrics
      → Sends P (send_if host test metrics)
  unfolding send_if
  Sends-send_if host true h = h
  Sends-send_if host false h = Sends-none

  pub Sends-send :
      (host : Host) (desc : Desc) (t : ValueType) (value : Float64) (values : List Text)
      → P desc
      → Sends P (send host desc t value values)
  unfolding send
  Sends-send host desc t value values h = elim (Bool-cases (host.accepts desc values)) [
    | inl e ↦ rw e (all_sent (h, tt))
    | inr e ↦ rw e Sends-none
  ]

lookup-described_fields :
    (P : Desc → Type 0) (infos : List (QField × MetricInfo)) (q : QField) (info : MetricInfo)
    → All P (described_fields infos)
    → lookup q infos ≡ some info
    → P info.desc
unfolding lookup
lookup-described_fields P [] q info h g = cc
lookup-described_fields P ((r, own) ∷ infos) q info h g = elim (Bool-cases (r == q)) [
  | inl e ↦
      let same : own ≡ info = ground (arith, g) in subst (λ (i : MetricInfo). P i.desc) same h.0
  | inr e ↦ lookup-described_fields P infos q info h.1 (rw e at g)
]

module _ {P : Desc → Type 0} (host : Host) (fl : Floats) (cv : Conversions) where
  pub Sends-render_health :
      (e : GpuExporter) (s : Snapshot)
      → All P (described_health e)
      → Sends P (render_health host fl cv e s)
  unfolding render_health
  Sends-render_health e s h = Sends-append (Sends-send _ _ _ _ _ h.0) (
      Sends-append (Sends-send _ _ _ _ _ h.1.1.0) (
        Sends-append
          (Sends-send_if host s.attempted
            (Sends-append (Sends-send _ _ _ _ _ h.1.0) (Sends-send _ _ _ _ _ h.1.1.1.1.0)))
          (Sends-send_if host (not (s.last_success == 0)) (Sends-send _ _ _ _ _ h.1.1.1.0))))

  Sends-render_xid_counters :
      (d : XidDescs) (counters : List XidCounter)
      → P d.xid_count
      → P d.xid_timestamp
      → Sends P (render_xid_counters host fl cv d counters)
  unfolding render_xid_counters
  Sends-render_xid_counters d [] h g = Sends-none
  Sends-render_xid_counters d (c ∷ counters) h g =
      Sends-append (Sends-send _ _ _ _ _ h)
        (Sends-append (Sends-send _ _ _ _ _ g) (Sends-render_xid_counters d counters h g))

  pub Sends-render_xids :
      (e : GpuExporter) (xids : Option (List XidCounter))
      → All P (described_xids e.xid_descs)
      → Sends P (render_xids host fl cv e xids)
  unfolding render_xids
  Sends-render_xids e xids h = elim (Option-cases e.xid_descs) [
    | inl n ↦ rw n Sends-none
    | inr (d, f) ↦ elim (Option-cases xids) [
      | inl n ↦ rw (f, n) Sends-none
      | inr (counters, g) ↦
          let both : All P (described_xids (some d)) = rw f at h in
          rw (f, g) (Sends-render_xid_counters d counters both.0 both.1.0)
    ]
  ]

  Sends-render_cell :
      (infos : List (QField × MetricInfo)) (uuid : Text) (cell : Cell)
      → All P (described_fields infos)
      → Sends P (render_cell host fl cv infos uuid cell)
  unfolding render_cell
  Sends-render_cell infos uuid cell h = elim (Option-cases (lookup cell.q_field infos)) [
    | inl n ↦ rw (n, render_cell) Sends-none
    | inr (info, f) ↦
        elim (Sum-cases
          (transform_field_value fl cell.q_field cell.raw_value info.value_multiplier)) [
            | inl (num, g) ↦
                rw (f, g, render_cell)
                  (Sends-send _ _ _ _ _ (lookup-described_fields P infos cell.q_field info h f))
            | inr (error, g) ↦ rw (f, g, render_cell) Sends-none
          ]
  ]

  Sends-render_cells :
      (infos : List (QField × MetricInfo)) (uuid : Text) (cells : List Cell)
      → All P (described_fields infos)
      → Sends P (render_cells host fl cv infos uuid cells)
  unfolding render_cells
  Sends-render_cells infos uuid [] h = Sends-none
  Sends-render_cells infos uuid (cell ∷ cells) h =
      Sends-append (Sends-render_cell infos uuid cell h) (Sends-render_cells infos uuid cells h)

  Sends-render_row :
      (e : GpuExporter) (cuda_version : Text) (row : Row)
      → All P (described_fields e.infos)
      → P e.gpu_info_desc
      → Sends P (render_row host fl cv e cuda_version row)
  unfolding render_row
  Sends-render_row e cuda_version row h g =
      elim (Bool-cases (
        host.accepts e.gpu_info_desc
          (map (info_value host fl cv row) e.info ++ cuda_version ∷ []))) [
            | inl t ↦
                rw (t, render_row)
                  (Sends-cons g (Sends-render_cells e.infos (row_uuid row) row.cells h))
            | inr t ↦ rw (t, render_row) Sends-none
          ]

  pub Sends-render_rows :
      (e : GpuExporter) (cuda_version : Text) (rows : List Row)
      → All P (described_fields e.infos)
      → P e.gpu_info_desc
      → Sends P (render_rows host fl cv e cuda_version rows)
  unfolding render_rows
  Sends-render_rows e cuda_version [] h g = Sends-none
  Sends-render_rows e cuda_version (row ∷ rows) h g =
      Sends-append (Sends-render_row e cuda_version row h g)
        (Sends-render_rows e cuda_version rows h g)
