-- ===== src/Admission/Update/Panicking.antt =====
-- Which control planes the validation goes through a nil pointer for.
use cluster_api_provider_ocn.Base.{
  ℕ, String, ◌≡◌, ◌≢◌, refl, sym, subst, Bool, false, Option, none, some, List, [], ◌∷◌, ◌==◌, inl,
  inr, ◌↔◌, Bool-cases, Option-cases,
}
use cluster_api_provider_ocn.Versions.{Version, SemverApi}
use cluster_api_provider_ocn.Admission.{
  Segment, FieldError, ℤ, below, RollingUpdate, RolloutStrategy, OcneControlPlaneSpec,
}
use cluster_api_provider_ocn.Admission.Spec.{
  value_or_default, default_rolling_update, default_typed, default_strategy,
  default_rollout_strategy, check_strategy, surge_of, validate_rollout_strategy,
  validate_kubeadm_control_plane_spec,
}
use cluster_api_provider_ocn.Admission.Upgrade.{OcneMetadata}
use cluster_api_provider_ocn.Admission.Update.{
  panicked, decide, validate_create, default_kubeadm_control_plane_spec,
}

module _ (atoi : String → ℤ) where
  -- The type is another one, and there is no surge.
  abbrev pub LacksSurge : RolloutStrategy → Type 0
  LacksSurge s =
      ((s.strategy_type == "") ≡ false)
      × ((s.strategy_type == "RollingUpdate") ≡ false)
      × (surge_of atoi s.rolling_update ≡ none)

  surge_of-default :
      (u : Option RollingUpdate) → surge_of atoi (some (default_rolling_update u)) ≢ none
  unfolding surge_of default_rolling_update value_or_default
  surge_of-default none h = cc h
  surge_of-default (some u) h = cc h

  check_strategy-none :
      (p : List Segment) (r : Option ℤ) (t : String) (o : Option ℤ)
      → (check_strategy atoi p r t o ≡ none) ↔ (o ≡ none)
  unfolding check_strategy
  check_strategy-none p r t none = (λ h. refl, λ h. refl)
  check_strategy-none p r t (some i) = (λ h. cc h, λ h. cc h)

  default_typed-surge :
      (s : RolloutStrategy)
      → (surge_of atoi (default_typed s).rolling_update ≡ none)
        ↔ (((s.strategy_type == "RollingUpdate") ≡ false) × (surge_of atoi s.rolling_update ≡ none))
  unfolding default_typed
  default_typed-surge s = elim (Bool-cases (s.strategy_type == "RollingUpdate")) [
    | inl e ↦ rw e (λ h. absurd (surge_of-default s.rolling_update h), λ (q, h). cc q)
    | inr e ↦ rw e (λ h. (refl, h), λ (q, h). h)
  ]

  default_strategy-surge :
      (s : RolloutStrategy)
      → (surge_of atoi (default_strategy s).rolling_update ≡ none) ↔ LacksSurge s
  unfolding default_strategy
  default_strategy-surge s = elim (Bool-cases (s.strategy_type == "")) [
    | inl e ↦
        let (a, b) = default_typed-surge (record s { strategy_type = "RollingUpdate" }) in
        rw e (λ h. cc ((a h).0), λ (q, k, h). cc q)
    | inr e ↦
        let (a, b) = default_typed-surge s in
        rw e (λ h. (let (k, l) = a h in (refl, k, l)), λ (q, k, h). b (k, h))
  ]

  default_rollout_strategy-none :
      (o : Option RolloutStrategy) (s : RolloutStrategy) (r : Option ℤ) (p : List Segment)
      → o ≡ some s
      → (validate_rollout_strategy atoi (some (default_rollout_strategy o)) r p ≡ none)
        ↔ LacksSurge s
  unfolding validate_rollout_strategy default_rollout_strategy
  default_rollout_strategy-none none s r p q = cc q
  default_rollout_strategy-none (some t) s r p q =
      let same : t ≡ s = cc q in
      let (a, b) =
        check_strategy-none p r (default_strategy t).strategy_type
          (surge_of atoi (default_strategy t).rolling_update) in
      let (c, d) = default_strategy-surge t in
      (λ h. subst LacksSurge same (c (a h)), λ h. b (d (subst LacksSurge (sym same) h)))

  validate_spec-none :
      (s : OcneControlPlaneSpec) (namespace : String) (p : List Segment)
      → (validate_kubeadm_control_plane_spec atoi s namespace p ≡ none) ↔ (
          validate_rollout_strategy atoi s.rollout_strategy s.replicas
            (below p ("rolloutStrategy" ∷ []))
          ≡ none)
  unfolding validate_kubeadm_control_plane_spec
  validate_spec-none s namespace p =
      elim (Option-cases (
        validate_rollout_strategy atoi s.rollout_strategy s.replicas
          (below p ("rolloutStrategy" ∷ [])))) [
            | inl e ↦ rw (e, validate_kubeadm_control_plane_spec) (λ h. refl, λ h. refl)
            | inr (es, e) ↦ rw (e, validate_kubeadm_control_plane_spec) (λ h. cc h, λ h. cc h)
          ]

decide-returns : (errors : List FieldError) → decide errors ≢ panicked
unfolding decide
decide-returns [] h = cc h
decide-returns (e ∷ errors) h = cc h

module _ (metadata : Option (List ℕ → OcneMetadata)) (semver : SemverApi)
    (valid_up_migration : Version → Version → Bool) (atoi : String → ℤ)
    (ignition_enabled : Bool) where
  validate_create-panicked :
      (namespace : String) (s : OcneControlPlaneSpec)
      → (validate_create metadata semver valid_up_migration atoi ignition_enabled namespace s
          ≡ panicked)
        ↔ (validate_kubeadm_control_plane_spec atoi s namespace (below [] ("spec" ∷ [])) ≡ none)
  unfolding validate_create
  validate_create-panicked namespace s =
      elim (Option-cases
        (validate_kubeadm_control_plane_spec atoi s namespace (below [] ("spec" ∷ [])))) [
          | inl e ↦ rw (e, validate_create) (λ h. refl, λ h. refl)
          | inr (es, e) ↦ rw (e, validate_create) (λ h. absurd (decide-returns _ h), λ h. cc h)
        ]

  -- Validating a new control plane that has been defaulted panics exactly if its rollout strategy has
  -- a type other than RollingUpdate and no surge of a rolling update.
  pub validate_create-default :
      (namespace : String) (s : OcneControlPlaneSpec) (strategy : RolloutStrategy)
      → s.rollout_strategy ≡ some strategy
      → (validate_create metadata semver valid_up_migration atoi ignition_enabled namespace
            (default_kubeadm_control_plane_spec namespace s)
          ≡ panicked)
        ↔ LacksSurge atoi strategy
  unfolding default_kubeadm_control_plane_spec
  validate_create-default namespace s strategy q =
      let d = default_kubeadm_control_plane_spec namespace s in
      let (a, b) = validate_create-panicked namespace d in
      let (c, e) = validate_spec-none atoi d namespace (below [] ("spec" ∷ [])) in
      let (f, g) =
        default_rollout_strategy-none atoi s.rollout_strategy strategy d.replicas
          (below (below [] ("spec" ∷ [])) ("rolloutStrategy" ∷ [])) q in
      (λ h. f (c (a h)), λ h. b (e (g h)))
