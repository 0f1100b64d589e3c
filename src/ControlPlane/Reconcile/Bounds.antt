-- ===== src/ControlPlane/Reconcile/Bounds.antt =====
-- The bounds within which a reconciliation keeps the number of machines.
use cluster_api_provider_ocn.Base.{
  ℕ, suc, ◌+◌, ◌≤◌, ◌<◌, String, ◌≡◌, refl, ap, none, some, List, [], ◌∷◌, length, map, arith, ◌⊎◌,
  inl, inr, Option-cases,
}
use cluster_api_provider_ocn.Meta.{TimeApi}
use cluster_api_provider_ocn.Fmt.{FmtApi}
use cluster_api_provider_ocn.Machines.{Machine, Func}
use cluster_api_provider_ocn.Machines.Collection.{Machines, filter_machines}
use cluster_api_provider_ocn.ControlPlane.{ControlPlane, DomainApi, machines_needing_rollout}
use cluster_api_provider_ocn.ControlPlane.Scaling.{Failure, Call, Remote}
use cluster_api_provider_ocn.ControlPlane.Remediation.{clean_machines}
use cluster_api_provider_ocn.ControlPlane.Reconcile.{
  Environment, roll_out, upgrade_with, upgrade_control_plane, finish, reconcile_replicas,
  reconcile_machines, reconcile_conditions, with_conditions, reconcile_members_of,
  after_remediation, reconcile_control_plane, reconcile_owned, reconcile_listed_machines, reconcile,
}
use cluster_api_provider_ocn.ControlPlane.Reconcile.Changes.{
  created, deleted_count, Sound, and_then-Sound, empty-Careful, initialize_counts, scale_up_counts,
  scale_down_counts, clean_counts, unhealthy-Careful,
}

-- The surge of the rollout strategy, 0 where there is none.
abbrev pub surge_of : Environment → ℕ
surge_of env = elim env.rollout_strategy [ none ↦ 0 | some s ↦ s.1 ]

length-map : (f : Machine → Machine) (ms : Machines) → length (map f ms) ≡ length ms
length-map f [] = refl
length-map f (m ∷ ms) = ap (λ n. suc n) (length-map f ms)

module _ ⦃time : TimeApi⦄ (api : DomainApi) (remote : Remote) (env : Environment) where
  -- Within the replicas and the surge.
  abbrev Within : (replicas n : ℕ) → List Call → Type 0
  Within replicas n = Sound replicas (replicas + surge_of env) n

  roll_out-Sound :
      (c : ControlPlane) (matches : Func) (replicas : ℕ) (outdated : Machines) (surge : ℕ)
      → Sound replicas
          (replicas + surge)
          (length c.machines)
          (roll_out api remote env c matches replicas outdated surge).0
  unfolding roll_out
  roll_out-Sound c matches replicas outdated surge =
      let (a, b) = scale_up_counts api remote c matches in
      let (x, y) = scale_down_counts api remote c outdated in ground (arith, a, b, x, y)

  upgrade_with-Sound :
      (c : ControlPlane) (matches : Func) (replicas : ℕ) (outdated : Machines) (s : String × ℕ)
      → Sound replicas
          (replicas + s.1)
          (length c.machines)
          (upgrade_with api remote env c matches replicas outdated s).0
  unfolding upgrade_with
  upgrade_with-Sound c matches replicas outdated (t, surge) =
      let (x, y, z) = roll_out-Sound c matches replicas outdated surge in ground (arith, x, y, z)

  upgrade-Within :
      (c : ControlPlane) (matches : Func) (replicas : ℕ) (outdated : Machines)
      → Within replicas
          (length c.machines)
          (upgrade_control_plane api remote env c matches replicas outdated).0
  unfolding upgrade_control_plane
  upgrade-Within c matches replicas outdated = elim (Option-cases env.rollout_strategy) [
    | inl e ↦ ground (arith, e)
    | inr (s, e) ↦
        (let (x, y, z) = upgrade_with-Sound c matches replicas outdated s in
          ground (arith, e, x, y, z))
  ]

  finish_calls : (finish api remote env).0 ≡ []
  unfolding finish
  finish_calls = ground arith

  replicas-Within :
      (c : ControlPlane) (matches : Func) (replicas : ℕ)
      → Within replicas (length c.machines) (reconcile_replicas api remote env c matches replicas).0
  unfolding reconcile_replicas
  replicas-Within c matches replicas =
      let (i, j) = initialize_counts api remote c matches in
      let (a, b) = scale_up_counts api remote c matches in
      let (x, y) = scale_down_counts api remote c [] in
      ground (arith, i, j, a, b, x, y, finish_calls)

  machines-Within :
      (c : ControlPlane) (matches : Func) (replicas : ℕ)
      → Within replicas (length c.machines) (reconcile_machines api remote env c matches replicas).0
  unfolding reconcile_machines
  machines-Within c matches replicas =
      let (a, b, d) = upgrade-Within c matches replicas (machines_needing_rollout c matches) in
      let (x, y, z) = replicas-Within c matches replicas in ground (arith, a, b, d, x, y, z)

  length-with_conditions :
      (c : ControlPlane) → length (with_conditions api remote env c).machines ≡ length c.machines
  unfolding with_conditions
  length-with_conditions c = ground (arith, length-map env.update_conditions c.machines)

  module _ (fmt : FmtApi) (describe : Failure → String) (now : ℕ) where
    after_remediation-Within :
        (c : ControlPlane) (matches : Func) (replicas : ℕ)
        → Within replicas
            (length c.machines)
            (after_remediation api remote env fmt describe now c matches replicas).0
    unfolding after_remediation
    after_remediation-Within c matches replicas =
        let cleaned = record c { machines = (clean_machines remote c.machines).machines } in
        let (a, b, l) = clean_counts fmt describe remote now c.machines in
        let rest : Within replicas (length c.machines)
            (reconcile_machines api remote env cleaned matches replicas).0 =
          rw (← l) (machines-Within cleaned matches replicas) in
        and_then-Sound replicas (replicas + surge_of env) (length c.machines) _ _
          (unhealthy-Careful fmt describe remote now c replicas)
          (and_then-Sound replicas (replicas + surge_of env) (length c.machines) _ _
            (empty-Careful replicas (length c.machines) env.certificate_expiries) rest)

    control_plane-Within :
        (c : ControlPlane) (matches : Func) (replicas : ℕ)
        → Within replicas
            (length c.machines)
            (reconcile_control_plane api remote env fmt describe now c matches replicas).0
    unfolding reconcile_control_plane
    control_plane-Within c matches replicas =
        let l = length-with_conditions c in
        let rest : Within replicas (length c.machines)
            (after_remediation api remote env fmt describe now (with_conditions api remote env c)
              matches replicas).0 =
          rw (← l) (after_remediation-Within (with_conditions api remote env c) matches replicas) in
        and_then-Sound replicas (replicas + surge_of env) (length c.machines) _ _
          (empty-Careful replicas (length c.machines) (reconcile_conditions api remote env))
          (and_then-Sound replicas (replicas + surge_of env) (length c.machines) _ _
            (empty-Careful replicas (length c.machines)
              (reconcile_members_of api remote env (with_conditions api remote env c)))
            rest)

    owned-Within :
        (base : ControlPlane) (matches : Func) (replicas : ℕ) (ms : Machines)
        → Within replicas
            (length (filter_machines ms (env.is_owned ∷ [])))
            (reconcile_owned api remote env fmt describe now base matches replicas ms).0
    unfolding reconcile_owned
    owned-Within base matches replicas ms =
        let (x, y, z) =
          control_plane-Within (record base { machines = filter_machines ms (env.is_owned ∷ []) })
            matches replicas in
        ground (arith, x, y, z)

    -- The machines of the control plane that it owns.
    abbrev pub owned_count : ℕ
    owned_count = elim env.control_plane_machines [
      | none ↦ 0
      | some ms ↦ length (filter_machines ms (env.is_owned ∷ []))
    ]

    listed-Within :
        (base : ControlPlane) (matches : Func) (replicas : ℕ)
        → Within replicas owned_count
            (reconcile_listed_machines api remote env fmt describe now base matches replicas
              env.control_plane_machines).0
    unfolding reconcile_listed_machines
    listed-Within base matches replicas = elim (Option-cases env.control_plane_machines) [
      | inl e ↦ ground (arith, e)
      | inr (ms, e) ↦
          (let (x, y, z) = owned-Within base matches replicas ms in ground (arith, e, x, y, z))
    ]

    -- One reconciliation creates or deletes one machine at most, remediation and rollout included. It
    -- creates one only while the control plane owns fewer machines than the replicas and the surge of
    -- its rollout strategy, and deletes one only while it owns at least as many as the replicas.
    pub reconcile_bounds :
        (base : ControlPlane) (matches : Func) (replicas : ℕ)
        → (created (reconcile api remote env fmt describe now base matches replicas).0
              + deleted_count (reconcile api remote env fmt describe now base matches replicas).0
            ≤ 1)
          × ((created (reconcile api remote env fmt describe now base matches replicas).0 ≡ 0)
              ⊎ (owned_count < replicas + surge_of env))
          × ((deleted_count (reconcile api remote env fmt describe now base matches replicas).0 ≡ 0)
              ⊎ (replicas ≤ owned_count))
    unfolding reconcile
    reconcile_bounds base matches replicas =
        let (x, y, z) =
          and_then-Sound replicas (replicas + surge_of env) owned_count ([], env.kubeconfig)
            (reconcile_listed_machines api remote env fmt describe now base matches replicas
              env.control_plane_machines)
            (empty-Careful replicas owned_count env.kubeconfig)
            (listed-Within base matches replicas) in
        ground (arith, x, y, z)
