-- ===== src/Exporter/Render/Apps.antt =====
-- internal/exporter/exporter.go: how many processes each GPU is said to have.
use nvidia_gpu_exporter.Collect.{Snapshot}
use nvidia_gpu_exporter.Common.{
  ltb, if◌then◌else◌, Bool-cases, length, filter, keys, lookup, insert, lookup-insert,
  insert-Distinct, Floats, ◌==◌, list_same_iff, contains, Distinct, ℕ, zero, suc, ◌+◌, ◌≡◌, refl,
  ap, ◌∙◌, inl, inr, Bool, true, false, ◌||◌, Option, none, some, List, [], ◌∷◌, ◌++◌, map, arith,
  list_comparable, nat_comparable,
}
use nvidia_gpu_exporter.Exporter.Claims.{gauge_value}
use nvidia_gpu_exporter.Exporter.Descs.{AppDescs, GpuExporter}
use nvidia_gpu_exporter.Exporter.Names.{Desc, Host}
use nvidia_gpu_exporter.Exporter.Render.{
  Metric, Conversions, row_uuid, float_of_bool, send, send_if, render_app, zero_counts,
  count_or_zero, render_app_loop, render_counts, render_apps,
}
use nvidia_gpu_exporter.Nvidiasmi.ComputeApps.{ComputeApp}
use nvidia_gpu_exporter.Nvidiasmi.Csv.{Row}
use nvidia_gpu_exporter.Text.{Text}

abbrev of_uuid : Text → ComputeApp → Bool
of_uuid uuid app = app.gpu_uuid == uuid

-- The number of the processes on the GPU.
abbrev pub number_on : Text → List ComputeApp → ℕ
number_on uuid apps = length (filter (of_uuid uuid) apps)

-- A count that n more processes were added to.
abbrev added : ℕ → Option ℕ → Option ℕ
added zero o = o
added (suc n) none = some (suc n)
added (suc n) (some m) = some (m + suc n)

lookup-zero_counts :
    (host : Host) (fl : Floats) (cv : Conversions) (rows : List Row) (counts : List (Text × ℕ))
    (u : Text)
    → lookup u (zero_counts host fl cv rows counts)
      ≡ (if contains (map row_uuid rows) u then some 0 else lookup u counts)
unfolding zero_counts
lookup-zero_counts host fl cv [] counts u = refl
lookup-zero_counts host fl cv (row ∷ rows) counts u = ground (
  arith,
  lookup-zero_counts host fl cv rows (insert (row_uuid row) 0 counts) u,
  lookup-insert (row_uuid row) u 0 counts,
)

zero_counts-Distinct :
    (host : Host) (fl : Floats) (cv : Conversions) (rows : List Row) (counts : List (Text × ℕ))
    → Distinct (keys counts)
    → Distinct (keys (zero_counts host fl cv rows counts))
unfolding zero_counts
zero_counts-Distinct host fl cv [] counts h = h
zero_counts-Distinct host fl cv (row ∷ rows) counts h =
    zero_counts-Distinct host fl cv rows (insert (row_uuid row) 0 counts)
      (insert-Distinct (row_uuid row) 0 counts h)

added_one :
    (host : Host) (fl : Floats) (cv : Conversions) (n : ℕ) (o : Option ℕ)
    → added n (some (count_or_zero host fl cv o + 1)) ≡ added (suc n) o
added_one host fl cv zero none = refl
added_one host fl cv zero (some m) = refl
added_one host fl cv (suc n) none = ap some (omega arith)
added_one host fl cv (suc n) (some m) = ap some (omega arith)

lookup-render_app_loop :
    (host : Host) (fl : Floats) (cv : Conversions) (d : AppDescs) (mig_labels : Bool)
    (apps : List ComputeApp) (counts : List (Text × ℕ)) (u : Text)
    → lookup u (render_app_loop host fl cv d mig_labels apps counts).0
      ≡ added (number_on u apps) (lookup u counts)
unfolding render_app_loop
lookup-render_app_loop host fl cv d mig_labels [] counts u = refl
lookup-render_app_loop host fl cv d mig_labels (app ∷ apps) counts u =
    let count = count_or_zero host fl cv (lookup app.gpu_uuid counts) + 1 in
    lookup-render_app_loop host fl cv d mig_labels apps (insert app.gpu_uuid count counts) u
    ∙ elim (Bool-cases (app.gpu_uuid == u)) [
      | inl e ↦
          let same : app.gpu_uuid ≡ u = (list_same_iff app.gpu_uuid u).0 e in
          rw (lookup-insert app.gpu_uuid u count counts, e)
            (rw same (added_one host fl cv (number_on u apps) (lookup u counts)))
      | inr e ↦ rw (lookup-insert app.gpu_uuid u count counts, e) refl
    ]

render_app_loop-Distinct :
    (host : Host) (fl : Floats) (cv : Conversions) (d : AppDescs) (mig_labels : Bool)
    (apps : List ComputeApp) (counts : List (Text × ℕ))
    → Distinct (keys counts)
    → Distinct (keys (render_app_loop host fl cv d mig_labels apps counts).0)
unfolding render_app_loop
render_app_loop-Distinct host fl cv d mig_labels [] counts h = h
render_app_loop-Distinct host fl cv d mig_labels (app ∷ apps) counts h =
    let count = count_or_zero host fl cv (lookup app.gpu_uuid counts) + 1 in
    render_app_loop-Distinct host fl cv d mig_labels apps (insert app.gpu_uuid count counts)
      (insert-Distinct app.gpu_uuid count counts h)

added_to_zero :
    (n : ℕ) (b : Bool)
    → added n (if b then some 0 else none) ≡ (if b || ltb 0 n then some n else none)
added_to_zero zero b = ground arith
added_to_zero (suc n) true = ground arith
added_to_zero (suc n) false = ground arith

-- What is sent for each of the processes, in their order.
abbrev pub sent_by {ℓ} : {A : Type ℓ} → (A → List Metric) → List A → List Metric
sent_by f [] = []
sent_by f (x ∷ xs) = f x ++ sent_by f xs

render_app_loop-sent_by :
    (host : Host) (fl : Floats) (cv : Conversions) (d : AppDescs) (mig_labels : Bool)
    (apps : List ComputeApp) (counts : List (Text × ℕ))
    → (render_app_loop host fl cv d mig_labels apps counts).1
      ≡ sent_by (render_app host fl cv d mig_labels) apps
unfolding render_app_loop
render_app_loop-sent_by host fl cv d mig_labels [] counts = refl
render_app_loop-sent_by host fl cv d mig_labels (app ∷ apps) counts =
    ap (◌++◌ (render_app host fl cv d mig_labels app)) (
      render_app_loop-sent_by host fl cv d mig_labels apps
        (insert app.gpu_uuid (count_or_zero host fl cv (lookup app.gpu_uuid counts) + 1) counts))

render_counts-sent_by :
    (host : Host) (fl : Floats) (cv : Conversions) (desc : Desc) (counts : List (Text × ℕ))
    → render_counts host fl cv desc counts
      ≡ sent_by (λ c. send host desc gauge_value (fl.of_uint c.1) (c.0 ∷ [])) counts
unfolding render_counts
render_counts-sent_by host fl cv desc [] = refl
render_counts-sent_by host fl cv desc ((uuid, count) ∷ counts) =
    ap (◌++◌ (send host desc gauge_value (fl.of_uint count) (uuid ∷ [])))
      (render_counts-sent_by host fl cv desc counts)

-- With the per-process metrics on, a scrape of rows says whether the processes could be listed,
-- nothing else of them unless they could, and then each process and the counts: one for each uuid
-- of a row or of a process and for no other, no uuid twice, the number of the processes that have it,
-- so 0 for an idle GPU.
pub render_apps-counts :
    (host : Host) (fl : Floats) (cv : Conversions) (e : GpuExporter) (s : Snapshot)
    (rows : List Row) (d : AppDescs)
    → e.app_descs ≡ some d
    → (counts : List (Text × ℕ)) × (render_apps host fl cv e s rows ≡ (
        if s.apps_attempted
        then send host d.apps_success gauge_value (float_of_bool s.apps_success) []
          ++ (if s.apps_success
              then sent_by (render_app host fl cv d e.app_mig_labels) s.apps
                ++ sent_by
                    (λ c. send host d.app_count gauge_value (fl.of_uint c.1) (c.0 ∷ []))
                    counts
              else [])
        else []))
      × Distinct (keys counts)
      × ((uuid : Text)
          → lookup uuid counts ≡ (
              if contains (map row_uuid rows) uuid || ltb 0 (number_on uuid s.apps)
              then some (number_on uuid s.apps)
              else none))
unfolding render_apps send_if lookup
render_apps-counts host fl cv e s rows d h =
    let start = zero_counts host fl cv rows [] in
    let loop = render_app_loop host fl cv d e.app_mig_labels s.apps start in
    (
      loop.0,
      rw (h, render_apps)
          (rw
            (
              render_app_loop-sent_by host fl cv d e.app_mig_labels s.apps start,
              render_counts-sent_by host fl cv d.app_count loop.0,
            )
            refl),
      render_app_loop-Distinct host fl cv d e.app_mig_labels s.apps start
          (zero_counts-Distinct host fl cv rows [] tt),
      λ uuid.
          lookup-render_app_loop host fl cv d e.app_mig_labels s.apps start uuid
          ∙ rw (lookup-zero_counts host fl cv rows [] uuid)
              (added_to_zero (number_on uuid s.apps) (contains (map row_uuid rows) uuid)),
    )
