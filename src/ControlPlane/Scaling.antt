-- ===== src/ControlPlane/Scaling.antt =====
-- controlplane/ocne/internal/controllers/scale.go. What a reconciliation asks of the clusters is the
-- list of its calls, in order; Remote holds their answers. The calls of the workload cluster, the
-- creation of machines and the API server's client are thus given by their answers alone.
pub mod Safety
use cluster_api_provider_ocn.Base.{
  ℕ, String, Bool, true, false, not, ◌&&◌, ◌||◌, Option, none, some, List, [], ◌∷◌, ◌++◌, ◌==◌, ltb,
  ◌=ℕ◌, if◌then◌else◌, any, length, is_empty, map,
}
use cluster_api_provider_ocn.Meta.{TimeApi}
use cluster_api_provider_ocn.Conditions.Defs.{Object, condition_false, condition_unknown}
use cluster_api_provider_ocn.Conditions.Getter.{get}
use cluster_api_provider_ocn.Machines.{Machine, Func}
use cluster_api_provider_ocn.Machines.Collection.{Machines, newest}
use cluster_api_provider_ocn.ControlPlane.{
  ControlPlane, DomainApi, is_etcd_managed, has_deleting_machine, next_failure_domain_for_scale_up,
  select_machine_for_scale_down,
}

-- The errors that a reconciliation returns; the last two lines are those of controller.go and upgrade.go.
pub data Failure : Type 0 where
  read_failed already_initialized generate_failed select_failed no_workload_cluster : Failure
  forward_failed remove_member_failed bad_version config_map_failed delete_failed : Failure
  no_patch_helper patch_failed no_etcd_members : Failure
  external_reference_failed certificates_failed adopt_failed owner_ref_failed : Failure
  control_plane_failed members_failed update_failed no_rollout_strategy : Failure

-- ctrl.Result with its error. An empty result is `proceed`; delays are in seconds.
pub data Reconciled : Type 0 where
  proceed requeue : Reconciled
  requeue_after : ℕ → Reconciled
  failed : Failure → Reconciled

pub data Call : Type 0 where
  generate_machine : (initial : Bool) (failure_domain : Option String) → Call
  forward_etcd_leadership : Machine → Option Machine → Call
  remove_etcd_member remove_from_config_map delete_machine patch_machine : Machine → Call

pub data DeleteAnswer : Type 0 where
  deleted not_found delete_error : DeleteAnswer

-- true is a call that succeeds.
pub record Remote : Type 0 where
  pub owned_machines : Option Machines
  pub generate : Bool → Option String → Bool
  pub workload_cluster : Bool
  pub etcd_members : Option (List String)
  pub forward : Machine → Option Machine → Bool
  pub remove_member : Machine → Bool
  pub version_parses : Bool
  pub remove_from_config : Machine → Bool
  pub delete : Machine → DeleteAnswer
  pub patch_helper : Machine → Bool
  pub patch : Machine → Bool

abbrev pub delete_requeue_after : ℕ
delete_requeue_after = 30

abbrev pub preflight_failed_requeue_after : ℕ
preflight_failed_requeue_after = 15

abbrev pub etcd_member_healthy : String
etcd_member_healthy = "EtcdMemberHealthy"

-- preflightCheckCondition: an error for a condition that is missing, False or Unknown.
unfoldable pub preflight_check_condition : Object → String → Bool
preflight_check_condition obj condition = elim (get obj condition) [
  | none ↦ false
  | some c ↦ not (c.status == condition_false) && not (c.status == condition_unknown)
]

unfoldable pub health_conditions : ControlPlane → List String
health_conditions c =
    "APIServerPodHealthy"
    ∷ "ControllerManagerPodHealthy"
    ∷ "SchedulerPodHealthy"
    ∷ (if is_etcd_managed c then "EtcdPodHealthy" ∷ etcd_member_healthy ∷ [] else [])

-- The loops over the machines and conditions: some machine that is not excluded fails a check.
unfoldable pub has_machine_errors : ControlPlane → List Machine → Bool
has_machine_errors c excluded =
    any
      (λ m.
        if any (λ e. m.name == e.name) excluded
        then false
        else any (λ k. not (preflight_check_condition m.object k)) (health_conditions c))
      c.machines

module _ ⦃time : TimeApi⦄ where
  unfoldable pub preflight_checks : ControlPlane → List Machine → Reconciled
  preflight_checks c excluded =
      if length c.machines =ℕ 0
      then proceed
      else if has_deleting_machine c
      then requeue_after delete_requeue_after
      else if has_machine_errors c excluded
      then requeue_after preflight_failed_requeue_after
      else proceed

  module _ (api : DomainApi) (remote : Remote) where
    unfoldable pub generate : ControlPlane → Func → Bool → List Call × Reconciled
    generate c matches initial =
        let fd = next_failure_domain_for_scale_up api c matches in
        (
          generate_machine initial fd ∷ [],
          if remote.generate initial fd then requeue else failed generate_failed,
        )

    unfoldable pub initialize_control_plane : ControlPlane → Func → List Call × Reconciled
    initialize_control_plane c matches = elim remote.owned_machines [
      | none ↦ ([], failed read_failed)
      | some owned ↦
          if ltb 0 (length owned) then ([], failed already_initialized) else generate c matches true
    ]

    unfoldable pub scale_up_control_plane : ControlPlane → Func → List Call × Reconciled
    scale_up_control_plane c matches = elim (preflight_checks c []) [
      | proceed ↦ generate c matches false
      | requeue ↦ ([], requeue)
      | requeue_after n ↦ ([], requeue_after n)
      | failed e ↦ ([], failed e)
    ]

    -- A machine that is already gone counts as deleted.
    unfoldable pub delete_selected : Machine → List Call × Reconciled
    delete_selected m = elim (remote.delete m) [
      | deleted ↦ (delete_machine m ∷ [], requeue)
      | not_found ↦ (delete_machine m ∷ [], requeue)
      | delete_error ↦ (delete_machine m ∷ [], failed delete_failed)
    ]

    unfoldable pub remove_from_config_and_delete : Machine → List Call × Reconciled
    remove_from_config_and_delete m =
        if not remote.version_parses
        then ([], failed bad_version)
        else if not (remote.remove_from_config m)
        then (remove_from_config_map m ∷ [], failed config_map_failed)
        else (let (calls, r) = delete_selected m in (remove_from_config_map m ∷ calls, r))

    unfoldable pub leave_etcd_and_delete : ControlPlane → Machine → List Call × Reconciled
    leave_etcd_and_delete c m =
        if not (is_etcd_managed c)
        then remove_from_config_and_delete m
        else if not (remote.forward m (newest c.machines))
        then (forward_etcd_leadership m (newest c.machines) ∷ [], failed forward_failed)
        else if not (remote.remove_member m)
        then (
          forward_etcd_leadership m (newest c.machines) ∷ remove_etcd_member m ∷ [],
          failed remove_member_failed,
        )
        else (let (calls, r) = remove_from_config_and_delete m in
            (forward_etcd_leadership m (newest c.machines) ∷ remove_etcd_member m ∷ calls, r))

    unfoldable pub scale_down_control_plane : ControlPlane → Machines → List Call × Reconciled
    scale_down_control_plane c outdated = elim (select_machine_for_scale_down api c outdated) [
      | none ↦ ([], failed select_failed)
      | some m ↦ elim (preflight_checks c (m ∷ [])) [
        | requeue ↦ ([], requeue)
        | requeue_after n ↦ ([], requeue_after n)
        | failed e ↦ ([], failed e)
        | proceed ↦
            if not remote.workload_cluster
            then ([], failed no_workload_cluster)
            else leave_etcd_and_delete c m
      ]
    ]
