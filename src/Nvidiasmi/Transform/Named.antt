-- ===== src/Nvidiasmi/Transform/Named.antt =====
-- internal/nvidiasmi/transform.go: the names that the two enum fields give to numbers.
use nvidia_gpu_exporter.Common.{
  Bool-cases, some-injective, All, lookup, ◌==◌, list_same_iff, contains, ℕ, ◌≡◌, refl, subst, ◌⊎◌,
  inl, inr, true, false, some, List, [], ◌∷◌, arith, list_comparable, nat_comparable,
}
use nvidia_gpu_exporter.Nvidiasmi.Csv.{QField}
use nvidia_gpu_exporter.Nvidiasmi.Transform.{
  enum_field_absent_tokens, gpu_recovery_actions, fabric_states,
}
use nvidia_gpu_exporter.Text.{Text, codes}

-- nvmlGpuRecoveryAction_t, in the short and the prefixed spelling.
pub data RecoveryAction : Text → ℕ → Type 0 where
  no_action : RecoveryAction (codes "none") 0
  gpu_reset : RecoveryAction (codes "gpu reset") 1
  short_reset : RecoveryAction (codes "reset") 1
  node_reboot : RecoveryAction (codes "node reboot") 2
  short_reboot : RecoveryAction (codes "reboot") 2
  drain_peers : RecoveryAction (codes "drain p2p") 3
  drain_and_reset : RecoveryAction (codes "drain and reset") 4

-- nvmlGpuFabricState_t
pub data FabricState : Text → ℕ → Type 0 where
  not_supported : FabricState (codes "not supported") 0
  not_started : FabricState (codes "not started") 1
  in_progress : FabricState (codes "in progress") 2
  completed : FabricState (codes "completed") 3

-- What is said in place of a name where there is no value; "[unknown error]" is not among these.
pub data AbsentToken : Text → Type 0 where
  no_text : AbsentToken []
  bare : AbsentToken (codes "n/a")
  bracketed : AbsentToken (codes "[n/a]")
  unsupported : AbsentToken (codes "[not supported]")
  forbidden : AbsentToken (codes "[insufficient permissions]")

abbrev pub EnumName : QField → Text → ℕ → Type 0
EnumName q_field key n =
    ((q_field ≡ codes "gpu_recovery_action") × RecoveryAction key n)
    ⊎ ((q_field ≡ codes "fabric.state") × FabricState key n)

pub lookup-All :
    {V : Type 0} (P : Text → V → Type 0) (entries : List (Text × V)) (key : Text) (value : V)
    → All (λ (e : Text × V). P e.0 e.1) entries
    → lookup key entries ≡ some value
    → P key value
unfolding lookup
lookup-All P [] key value h e = cc
lookup-All P ((k, v) ∷ entries) key value h e = elim (Bool-cases (k == key)) [
  | inl hit ↦
      let here : some v ≡ some value = rw hit at e in
      subst (λ x. P x value) ((list_same_iff k key).0 hit)
        (subst (λ x. P k x) (some-injective here) h.0)
  | inr miss ↦ lookup-All P entries key value h.1 (rw miss at e)
]

contains-All :
    (P : Text → Type 0) (xs : List Text) (key : Text) → All P xs → contains xs key ≡ true → P key
contains-All P [] key h e = cc
contains-All P (x ∷ xs) key h e = elim (Bool-cases (x == key)) [
  | inl hit ↦ subst P ((list_same_iff x key).0 hit) h.0
  | inr miss ↦ contains-All P xs key h.1 (ground arith)
]

pub enum_field_absent_tokens-AbsentToken :
    (key : Text) → contains enum_field_absent_tokens key ≡ true → AbsentToken key
enum_field_absent_tokens-AbsentToken key =
    contains-All AbsentToken enum_field_absent_tokens key
      (no_text, (bare, (bracketed, (unsupported, (forbidden, tt)))))

pub AbsentToken-enum_field_absent_tokens :
    {key : Text} → AbsentToken key → contains enum_field_absent_tokens key ≡ true
AbsentToken-enum_field_absent_tokens no_text = refl
AbsentToken-enum_field_absent_tokens bare = refl
AbsentToken-enum_field_absent_tokens bracketed = refl
AbsentToken-enum_field_absent_tokens unsupported = refl
AbsentToken-enum_field_absent_tokens forbidden = refl

pub gpu_recovery_actions-RecoveryAction :
    (key : Text) (n : ℕ) → lookup key gpu_recovery_actions ≡ some n → RecoveryAction key n
gpu_recovery_actions-RecoveryAction key n = lookup-All RecoveryAction gpu_recovery_actions key n (
  no_action,
  (gpu_reset, (short_reset, (node_reboot, (short_reboot, (drain_peers, (drain_and_reset, tt)))))),
)

pub fabric_states-FabricState :
    (key : Text) (n : ℕ) → lookup key fabric_states ≡ some n → FabricState key n
fabric_states-FabricState key n =
    lookup-All FabricState fabric_states key n
      (not_supported, (not_started, (in_progress, (completed, tt))))

-- A name is found in the table, and is no token.
abbrev pub IsFound : List (Text × ℕ) → Text → ℕ → Type 0
IsFound table key n = (contains enum_field_absent_tokens key ≡ false) × (lookup key table ≡ some n)

pub RecoveryAction-IsFound :
    {key : Text} {n : ℕ} → RecoveryAction key n → IsFound gpu_recovery_actions key n
unfolding lookup
RecoveryAction-IsFound no_action = (refl, refl)
RecoveryAction-IsFound gpu_reset = (refl, refl)
RecoveryAction-IsFound short_reset = (refl, refl)
RecoveryAction-IsFound node_reboot = (refl, refl)
RecoveryAction-IsFound short_reboot = (refl, refl)
RecoveryAction-IsFound drain_peers = (refl, refl)
RecoveryAction-IsFound drain_and_reset = (refl, refl)

pub FabricState-IsFound : {key : Text} {n : ℕ} → FabricState key n → IsFound fabric_states key n
unfolding lookup
FabricState-IsFound not_supported = (refl, refl)
FabricState-IsFound not_started = (refl, refl)
FabricState-IsFound in_progress = (refl, refl)
FabricState-IsFound completed = (refl, refl)
