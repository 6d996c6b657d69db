-- ===== src/Exporter/Render/Mig.antt =====
-- internal/exporter/exporter.go: what belongs to a GPU instance is sent once.
use nvidia_gpu_exporter.Collect.Readings.{MigInstance}
use nvidia_gpu_exporter.Common.{
  if◌then◌else◌, Bool-cases, any, All, Floats, ◌==◌, list_same_iff, contains, contains-append, ◌≡◌,
  refl, sym, ap, ◌∙◌, ◌↔◌, inl, inr, Bool, true, false, ◌&&◌, List, [], ◌∷◌, ◌++◌, arith,
  list_comparable, nat_comparable,
}
use nvidia_gpu_exporter.Exporter.Descs.{MigDescs}
use nvidia_gpu_exporter.Exporter.Names.{Host}
use nvidia_gpu_exporter.Exporter.Render.{
  Metric, Conversions, gi_key, render_gpu_instance, render_mig_info, render_mig_instances,
}
use nvidia_gpu_exporter.Text.{Text}

-- The two devices are on the same GPU instance of the same GPU.
abbrev pub is_same_instance : MigInstance → MigInstance → Bool
is_same_instance i j = i.parent_uuid == j.parent_uuid && i.gpu_instance_id == j.gpu_instance_id

abbrev pub HasPlainId : MigInstance → Type 0
HasPlainId i = contains i.gpu_instance_id b'/' ≡ false

-- Each device's info, and behind that of the first device of a GPU instance what belongs to the
-- GPU instance.
abbrev pub sent_once :
    (MigInstance → List Metric)
    → (MigInstance → List Metric)
    → List MigInstance
    → List MigInstance
    → List Metric
sent_once info shared earlier [] = []
sent_once info shared earlier (i ∷ instances) =
    info i
    ++ ((if any (is_same_instance i) earlier then [] else shared i)
        ++ sent_once info shared (i ∷ earlier) instances)

slash-append : (p g : Text) → contains (p ++ b'/' ∷ g) b'/' ≡ true
slash-append p g = contains-append p (b'/' ∷ g) b'/' ∙ ground arith

joined-injective :
    (p q g h : Text)
    → contains g b'/' ≡ false
    → contains h b'/' ≡ false
    → p ++ b'/' ∷ g ≡ q ++ b'/' ∷ h
    → (p ≡ q) × (g ≡ h)
joined-injective [] [] g h hg hh e = (refl, cc)
joined-injective [] (c ∷ q) g h hg hh e =
    let tail : g ≡ q ++ b'/' ∷ h = cc in let full = slash-append q h in cc
joined-injective (c ∷ p) [] g h hg hh e =
    let tail : p ++ b'/' ∷ g ≡ h = cc in let full = slash-append p g in cc
joined-injective (c ∷ p) (d ∷ q) g h hg hh e =
    let rest = joined-injective p q g h hg hh cc in let same = rest.0 in (cc, rest.1)

same_of_iff : (a b : Bool) → (a ≡ true → b ≡ true) → (b ≡ true → a ≡ true) → a ≡ b
same_of_iff true b f g = sym (f refl)
same_of_iff false true f g = g refl
same_of_iff false false f g = refl

is_same_instance_iff :
    (i j : MigInstance)
    → (is_same_instance i j ≡ true)
      ↔ ((j.parent_uuid ≡ i.parent_uuid) × (j.gpu_instance_id ≡ i.gpu_instance_id))
is_same_instance_iff i j = ground (
  arith,
  list_same_iff i.parent_uuid j.parent_uuid,
  list_same_iff i.gpu_instance_id j.gpu_instance_id,
)

-- A member of the list decides `any` for whoever is on the same instance.
any-is_same_instance :
    (i j : MigInstance) (earlier : List MigInstance)
    → is_same_instance i j ≡ true
    → any (is_same_instance i) earlier ≡ any (is_same_instance j) earlier
any-is_same_instance i j earlier h =
    let both = (is_same_instance_iff i j).0 h in rw (both.0, both.1) refl

module _ (host : Host) (fl : Floats) (cv : Conversions) where
  gi_key_iff :
      (i j : MigInstance)
      → HasPlainId i
      → HasPlainId j
      → (gi_key host fl cv j == gi_key host fl cv i) ≡ is_same_instance i j
  gi_key_iff i j hi hj =
      let keys_iff = list_same_iff (gi_key host fl cv j) (gi_key host fl cv i) in
      same_of_iff (gi_key host fl cv j == gi_key host fl cv i) (is_same_instance i j)
        (λ e. (is_same_instance_iff i j).1 (
          joined-injective j.parent_uuid i.parent_uuid j.gpu_instance_id i.gpu_instance_id hj hi
            (keys_iff.0 e)))
        (λ e. (let both = (is_same_instance_iff i j).0 e in keys_iff.1 (rw (both.0, both.1) refl)))

  -- The keys that were rendered are those of the devices that were.
  abbrev Emitted : List Text → List MigInstance → Type 0
  Emitted emitted earlier =
      (i : MigInstance)
      → HasPlainId i
      → contains emitted (gi_key host fl cv i) ≡ any (is_same_instance i) earlier

  Emitted-known :
      (emitted : List Text) (earlier : List MigInstance) (i : MigInstance)
      → HasPlainId i
      → Emitted emitted earlier
      → contains emitted (gi_key host fl cv i) ≡ true
      → Emitted emitted (i ∷ earlier)
  Emitted-known emitted earlier i hi h e j hj = elim (Bool-cases (is_same_instance j i)) [
    | inl f ↦ rw f (h j hj ∙ any-is_same_instance j i earlier f ∙ sym (h i hi) ∙ e)
    | inr f ↦ rw f (h j hj)
  ]

  Emitted-new :
      (emitted : List Text) (earlier : List MigInstance) (i : MigInstance)
      → HasPlainId i
      → Emitted emitted earlier
      → Emitted (gi_key host fl cv i ∷ emitted) (i ∷ earlier)
  Emitted-new emitted earlier i hi h j hj = rw (gi_key_iff j i hj hi, h j hj) refl

  render_mig_instances-Emitted :
      (d : MigDescs) (emitted : List Text) (earlier instances : List MigInstance)
      → Emitted emitted earlier
      → All HasPlainId instances
      → render_mig_instances host fl cv d emitted instances
        ≡ sent_once
            (render_mig_info host fl cv d)
            (render_gpu_instance host fl cv d)
            earlier
            instances
  unfolding render_mig_instances
  render_mig_instances-Emitted d emitted earlier [] h plain = refl
  render_mig_instances-Emitted d emitted earlier (i ∷ instances) h plain =
      elim (Bool-cases (contains emitted (gi_key host fl cv i))) [
        | inl e ↦
            rw (e, render_mig_instances, sym (h i plain.0) ∙ e)
              (ap (◌++◌ (render_mig_info host fl cv d i)) (
                render_mig_instances-Emitted d emitted (i ∷ earlier) instances
                  (Emitted-known emitted earlier i plain.0 h e) plain.1))
        | inr e ↦
            rw (e, render_mig_instances, sym (h i plain.0) ∙ e)
              (ap
                (λ rest.
                  render_mig_info host fl cv d i ++ (render_gpu_instance host fl cv d i ++ rest))
                (render_mig_instances-Emitted d (gi_key host fl cv i ∷ emitted) (i ∷ earlier)
                  instances (Emitted-new emitted earlier i plain.0 h) plain.1))
      ]

-- Every MIG device of a scrape has its info, in order; the memory and the utilization of a GPU
-- instance stand behind its first device alone. The GPU instances are told apart by the GPU and
-- their id, which holds no slash.
pub render_mig_instances-sent_once :
    (host : Host) (fl : Floats) (cv : Conversions) (d : MigDescs) (instances : List MigInstance)
    → All HasPlainId instances
    → render_mig_instances host fl cv d [] instances
      ≡ sent_once (render_mig_info host fl cv d) (render_gpu_instance host fl cv d) [] instances
render_mig_instances-sent_once host fl cv d instances plain =
    render_mig_instances-Emitted host fl cv d [] [] instances (λ i h. refl) plain
