-- ===== src/ControlPlane/Reconcile.antt =====
-- controlplane/ocne/internal/controllers: reconcile of controller.go, with its phases in order, and
-- upgradeControlPlane of upgrade.go. Environment holds the answers of the clusters that Remote has
-- not. The labels of machines and the conditions of the control plane's own object are left out.
pub mod Changes
pub mod Bounds
pub mod Deletion
use cluster_api_provider_ocn.Base.{
  ℕ, ◌+◌, String, Bool, true, false, not, ◌&&◌, ◌||◌, Option, none, some, List, [], ◌∷◌, ◌++◌, ◌==◌,
  ltb, ◌=ℕ◌, if◌then◌else◌, any, length, map,
}
use cluster_api_provider_ocn.Meta.{TimeApi}
use cluster_api_provider_ocn.Fmt.{FmtApi}
use cluster_api_provider_ocn.Machines.{Machine, Func}
use cluster_api_provider_ocn.Machines.Collection.{Machines, filter_machines}
use cluster_api_provider_ocn.ControlPlane.{
  ControlPlane, DomainApi, is_etcd_managed, machines_needing_rollout,
}
use cluster_api_provider_ocn.ControlPlane.Scaling.{
  Failure, no_workload_cluster, bad_version, read_failed, patch_failed, external_reference_failed,
  certificates_failed, adopt_failed, owner_ref_failed, control_plane_failed, members_failed,
  update_failed, no_rollout_strategy, Reconciled, proceed, requeue, requeue_after, failed, Call,
  Remote, initialize_control_plane, scale_up_control_plane, scale_down_control_plane,
}
use cluster_api_provider_ocn.ControlPlane.Remediation.{clean_machines, reconcile_unhealthy_machines}

-- The steps of an upgrade, and of the end of a reconciliation, that return an error where they fail.
pub data Update : Type 0 where
  parse_version rbac_role rbac_binding bootstrap_tokens kubernetes_version : Update
  parse_tolerant image_repository etcd_version etcd_extra_args : Update
  api_server controller_manager scheduler kubelet : Update
  kube_proxy core_dns module_operator platform_operator : Update

-- true is a call that succeeds, or a condition that holds. The rollout strategy is its type with the
-- surge, none where the strategy or its rolling update is nil; the cluster configuration says
-- whether etcd is local. The operators are those that are asked for while the condition Available
-- is True.
pub record Environment : Type 0 where
  pub external_reference : Bool
  pub infrastructure_ready : Bool
  pub certificates : Bool
  pub endpoint_is_valid : Bool
  pub kubeconfig : Reconciled
  pub control_plane_machines : Option Machines
  pub is_adoptable : Func
  pub adopt_machines : Bool
  pub ensure_owner_ref : Bool
  pub is_owned : Func
  pub read_objects : Bool
  pub initialized : Bool
  pub update_conditions : Machine → Machine
  pub patch_machines : Bool
  pub etcd_cluster_healthy : Bool
  pub reconcile_members : List String → Bool
  pub certificate_expiries : Reconciled
  pub rollout_strategy : Option (String × ℕ)
  pub cluster_configuration : Option Bool
  pub module_operator_due : Bool
  pub platform_operator_due : Bool
  pub update : Update → Bool

-- What comes after a phase, where its result is empty and there is no error.
unfoldable pub and_then : List Call × Reconciled → List Call × Reconciled → List Call × Reconciled
and_then (calls, proceed) rest = (calls ++ rest.0, rest.1)
and_then (calls, requeue) rest = (calls, requeue)
and_then (calls, requeue_after n) rest = (calls, requeue_after n)
and_then (calls, failed e) rest = (calls, failed e)

-- The names of the nodes; none while a machine has no node.
unfoldable pub node_names : Machines → Option (List String)
node_names [] = some []
node_names (m ∷ ms) = elim m.node_ref [
  | none ↦ none
  | some n ↦ elim (node_names ms) [ none ↦ none | some ns ↦ some (n ∷ ns) ]
]

unfoldable pub local_etcd_updates : Bool → List Update
local_etcd_updates true = etcd_version ∷ etcd_extra_args ∷ []
local_etcd_updates false = []

unfoldable pub configuration_updates : Option Bool → List Update
configuration_updates none = []
configuration_updates (some local) =
    parse_tolerant
    ∷ image_repository
    ∷ (local_etcd_updates local ++ (api_server ∷ controller_manager ∷ scheduler ∷ []))

unfoldable pub upgrade_updates : Option Bool → List Update
upgrade_updates c =
    parse_version
    ∷ rbac_role
    ∷ rbac_binding
    ∷ bootstrap_tokens
    ∷ kubernetes_version
    ∷ (configuration_updates c ++ (kubelet ∷ []))

unfoldable pub final_updates : Bool → Bool → List Update
final_updates modules platform =
    bootstrap_tokens
    ∷ parse_tolerant
    ∷ kube_proxy
    ∷ core_dns
    ∷ ((if modules then module_operator ∷ [] else [])
        ++ (if platform then platform_operator ∷ [] else []))

module _ ⦃time : TimeApi⦄ where
  module _ (api : DomainApi) (remote : Remote) (env : Environment) where
    -- All updates succeed, one after the other.
    unfoldable pub run_updates : List Update → Bool
    run_updates us = not (any (λ u. not (env.update u)) us)

    -- The machines may be as many as the replicas and the surge.
    unfoldable pub roll_out : ControlPlane → Func → ℕ → Machines → ℕ → List Call × Reconciled
    roll_out c matches replicas outdated surge =
        if ltb (length c.machines) (replicas + surge)
        then scale_up_control_plane api remote c matches
        else scale_down_control_plane api remote c outdated

    unfoldable pub upgrade_with :
        ControlPlane → Func → ℕ → Machines → String × ℕ → List Call × Reconciled
    upgrade_with c matches replicas outdated (strategy, surge) =
        if not remote.workload_cluster
        then ([], failed no_workload_cluster)
        else if not (run_updates (upgrade_updates env.cluster_configuration))
        then ([], failed update_failed)
        else if strategy == "RollingUpdate"
        then roll_out c matches replicas outdated surge
        else ([], proceed)

    unfoldable pub upgrade_control_plane :
        ControlPlane → Func → ℕ → Machines → List Call × Reconciled
    upgrade_control_plane c matches replicas outdated = elim env.rollout_strategy [
      | none ↦ ([], failed no_rollout_strategy)
      | some s ↦ upgrade_with c matches replicas outdated s
    ]

    -- From the client of the workload cluster on.
    unfoldable pub finish : List Call × Reconciled
    finish =
        if not remote.workload_cluster
        then ([], requeue)
        else if not (run_updates (final_updates env.module_operator_due env.platform_operator_due))
        then ([], failed update_failed)
        else ([], proceed)

    -- The switch on the number of machines.
    unfoldable pub reconcile_replicas : ControlPlane → Func → ℕ → List Call × Reconciled
    reconcile_replicas c matches replicas =
        if ltb (length c.machines) replicas && length c.machines =ℕ 0
        then initialize_control_plane api remote c matches
        else if ltb (length c.machines) replicas
        then scale_up_control_plane api remote c matches
        else if ltb replicas (length c.machines)
        then scale_down_control_plane api remote c []
        else finish

    -- Rollouts take precedence.
    unfoldable pub reconcile_machines : ControlPlane → Func → ℕ → List Call × Reconciled
    reconcile_machines c matches replicas =
        let outdated = machines_needing_rollout c matches in
        if ltb 0 (length outdated)
        then upgrade_control_plane c matches replicas outdated
        else reconcile_replicas c matches replicas

    -- reconcileControlPlaneConditions
    unfoldable pub reconcile_conditions : Reconciled
    reconcile_conditions =
        if not env.initialized
        then proceed
        else if not remote.workload_cluster
        then failed no_workload_cluster
        else if not env.patch_machines
        then failed patch_failed
        else proceed

    unfoldable pub with_conditions : ControlPlane → ControlPlane
    with_conditions c =
        if env.initialized then record c { machines = map env.update_conditions c.machines } else c

    unfoldable pub reconcile_listed_members : Option (List String) → Reconciled
    reconcile_listed_members none = proceed
    reconcile_listed_members (some names) =
        if env.etcd_cluster_healthy
        then proceed
        else if not remote.workload_cluster
        then failed no_workload_cluster
        else if not remote.version_parses
        then failed bad_version
        else if not (env.reconcile_members names)
        then failed members_failed
        else proceed

    -- reconcileEtcdMembers of controller.go
    unfoldable pub reconcile_members_of : ControlPlane → Reconciled
    reconcile_members_of c =
        if not (is_etcd_managed c)
        then proceed
        else if length c.machines =ℕ 0
        then proceed
        else reconcile_listed_members (node_names c.machines)

    module _ (fmt : FmtApi) (describe : Failure → String) (now : ℕ) where
      -- From the remediation on. Later phases do not read the condition that a remediation which is
      -- put off leaves on its machine; they have the machines of the cleanup.
      unfoldable pub after_remediation : ControlPlane → Func → ℕ → List Call × Reconciled
      after_remediation c matches replicas =
          and_then (reconcile_unhealthy_machines fmt describe remote now c replicas) (
            and_then ([], env.certificate_expiries)
              (reconcile_machines
                (record c { machines = (clean_machines remote c.machines).machines }) matches
                replicas))

      -- From the control plane's machines on.
      unfoldable pub reconcile_control_plane : ControlPlane → Func → ℕ → List Call × Reconciled
      reconcile_control_plane c matches replicas =
          and_then ([], reconcile_conditions)
            (and_then ([], reconcile_members_of (with_conditions c))
              (after_remediation (with_conditions c) matches replicas))

      unfoldable pub reconcile_owned : ControlPlane → Func → ℕ → Machines → List Call × Reconciled
      reconcile_owned base matches replicas ms =
          let owned = filter_machines ms (env.is_owned ∷ []) in
          if ltb 0 (length (filter_machines ms (env.is_adoptable ∷ [])))
          then ([], if env.adopt_machines then proceed else failed adopt_failed)
          else if not env.ensure_owner_ref
          then ([], failed owner_ref_failed)
          else if not (length owned =ℕ length ms)
          then ([], proceed)
          else if not env.read_objects
          then ([], failed control_plane_failed)
          else reconcile_control_plane (record base { machines = owned }) matches replicas

      unfoldable pub reconcile_listed_machines :
          ControlPlane → Func → ℕ → Option Machines → List Call × Reconciled
      reconcile_listed_machines base matches replicas none = ([], failed read_failed)
      reconcile_listed_machines base matches replicas (some ms) =
          reconcile_owned base matches replicas ms

      -- `base` is the control plane without its machines.
      unfoldable pub reconcile : ControlPlane → Func → ℕ → List Call × Reconciled
      reconcile base matches replicas =
          if not env.external_reference
          then ([], failed external_reference_failed)
          else if not env.infrastructure_ready
          then ([], proceed)
          else if not env.certificates
          then ([], failed certificates_failed)
          else if not env.endpoint_is_valid
          then ([], proceed)
          else and_then ([], env.kubeconfig)
              (reconcile_listed_machines base matches replicas env.control_plane_machines)
