-- ===== src/Admission/Update/Defaulted.antt =====
-- What the defaulting of a control plane does.
use cluster_api_provider_ocn.Base.{
  ℕ, String, ◌≡◌, refl, ap, ◌∙◌, false, Option, none, some, List, [], ◌∷◌, ◌==◌, inl, inr, arith,
  Bool-cases,
}
use cluster_api_provider_ocn.Admission.{
  ℤ, RollingUpdate, RolloutStrategy, InfrastructureRef, OcneConfigSpec, OcneControlPlaneSpec,
}
use cluster_api_provider_ocn.Admission.Config.{default_ocne_config_spec}
use cluster_api_provider_ocn.Admission.Spec.{
  value_or_default, default_rolling_update, default_typed, default_strategy,
  default_rollout_strategy,
}
use cluster_api_provider_ocn.Admission.Update.{
  with_prefix, default_replicas, default_namespace, default_kubeadm_control_plane_spec,
}

with_prefix-idempotent : (v : List ℕ) → with_prefix (with_prefix v) ≡ with_prefix v
unfolding with_prefix
with_prefix-idempotent [] = refl
with_prefix-idempotent (c ∷ cs) = ground arith

default_replicas-idempotent :
    (r : Option ℤ) → default_replicas (default_replicas r) ≡ default_replicas r
unfolding default_replicas
default_replicas-idempotent none = refl
default_replicas-idempotent (some r) = refl

default_namespace-idempotent :
    (n : String) (r : InfrastructureRef)
    → default_namespace n (default_namespace n r) ≡ default_namespace n r
unfolding default_namespace
default_namespace-idempotent n r = elim (Bool-cases (r.ref_namespace == "")) [
  | inl e ↦ elim (Bool-cases (n == "")) [ inl f ↦ rw (e, f) refl | inr f ↦ rw (e, f) refl ]
  | inr e ↦ rw (e, e) refl
]

default_config-idempotent :
    (c : OcneConfigSpec)
    → default_ocne_config_spec (default_ocne_config_spec c) ≡ default_ocne_config_spec c
unfolding default_ocne_config_spec
default_config-idempotent c = elim (Bool-cases (c.format == "")) [
  | inl e ↦ rw e refl
  | inr e ↦ rw (e, e) refl
]

default_rolling_update-idempotent :
    (u : Option RollingUpdate)
    → default_rolling_update (some (default_rolling_update u)) ≡ default_rolling_update u
unfolding default_rolling_update value_or_default
default_rolling_update-idempotent none = refl
default_rolling_update-idempotent (some u) = refl

default_typed-idempotent : (s : RolloutStrategy) → default_typed (default_typed s) ≡ default_typed s
unfolding default_typed
default_typed-idempotent s = elim (Bool-cases (s.strategy_type == "RollingUpdate")) [
  | inl e ↦
      rw (e, e)
        (ap (λ u. record { strategy_type = s.strategy_type; rolling_update = some u })
          (default_rolling_update-idempotent s.rolling_update))
  | inr e ↦ rw (e, e) refl
]

-- The type is not changed by what comes after it.
default_typed-strategy_type :
    (s : RolloutStrategy) → (default_typed s).strategy_type ≡ s.strategy_type
unfolding default_typed
default_typed-strategy_type s = elim (Bool-cases (s.strategy_type == "RollingUpdate")) [
  | inl e ↦ rw e refl
  | inr e ↦ rw e refl
]

default_strategy-default_typed :
    (t : RolloutStrategy) → (t.strategy_type == "") ≡ false → default_strategy t ≡ default_typed t
unfolding default_strategy
default_strategy-default_typed t e = rw e refl

default_strategy_named :
    (s : RolloutStrategy)
    → (s.strategy_type == "") ≡ false
    → default_strategy (default_typed s) ≡ default_typed s
default_strategy_named s e =
    default_strategy-default_typed (default_typed s)
      (ap (λ z. z == "") (default_typed-strategy_type s) ∙ e)
    ∙ default_typed-idempotent s

default_strategy-idempotent :
    (s : RolloutStrategy) → default_strategy (default_strategy s) ≡ default_strategy s
unfolding default_strategy
default_strategy-idempotent s = elim (Bool-cases (s.strategy_type == "")) [
  | inl e ↦ rw e (default_strategy_named (record s { strategy_type = "RollingUpdate" }) refl)
  | inr e ↦ rw e (default_strategy_named s e)
]

default_rollout_strategy-idempotent :
    (o : Option RolloutStrategy)
    → default_rollout_strategy (some (default_rollout_strategy o)) ≡ default_rollout_strategy o
unfolding default_rollout_strategy
default_rollout_strategy-idempotent none = default_strategy-idempotent _
default_rollout_strategy-idempotent (some s) = default_strategy-idempotent s

-- Defaulting a control plane a second time changes nothing.
pub default_idempotent :
    (namespace : String) (s : OcneControlPlaneSpec)
    → default_kubeadm_control_plane_spec namespace (default_kubeadm_control_plane_spec namespace s)
      ≡ default_kubeadm_control_plane_spec namespace s
unfolding default_kubeadm_control_plane_spec
default_idempotent namespace s =
    rw
      (
        default_replicas-idempotent s.replicas,
        default_namespace-idempotent namespace s.infrastructure_ref,
        with_prefix-idempotent s.version,
        default_config-idempotent s.control_plane_config,
        default_rollout_strategy-idempotent s.rollout_strategy,
      )
      refl
