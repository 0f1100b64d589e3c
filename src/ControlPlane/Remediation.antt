-- ===== src/ControlPlane/Remediation.antt =====
-- controlplane/ocne/internal/controllers/remediation.go: reconcileUnhealthyMachines. The conditions
-- of a machine are written in place, so a patch carries the machine as it then is. `describe` is
-- the text of an error, `now` the answer of time.Now().

pub mod Safety
pub mod Cleaning
use cluster_api_provider_ocn.Base.{
  ℕ, ◌+◌, String, ◌<>◌, Bool, true, false, not, ◌&&◌, Option, none, some, List, [], ◌∷◌, ◌++◌, ltb,
  leb, ◌=ℕ◌, if◌then◌else◌, length,
}
use cluster_api_provider_ocn.Meta.{TimeApi}
use cluster_api_provider_ocn.Fmt.{FmtApi}
use cluster_api_provider_ocn.Conditions.Defs.{severity_warning, severity_error}
use cluster_api_provider_ocn.Conditions.Getter.{is_true, is_false}
use cluster_api_provider_ocn.Conditions.Setter.{mark_false, delete}
use cluster_api_provider_ocn.Machines.{
  Machine, health_check_succeeded, owner_remediated, has_unhealthy_condition,
}
use cluster_api_provider_ocn.Machines.Collection.{Machines, oldest, newest}
use cluster_api_provider_ocn.ControlPlane.{
  ControlPlane, is_etcd_managed, has_deleting_machine, healthy_machines, unhealthy_machines,
}
use cluster_api_provider_ocn.ControlPlane.Scaling.{
  Failure, no_workload_cluster, forward_failed, remove_member_failed, bad_version,
  config_map_failed, delete_failed, no_patch_helper, patch_failed, Reconciled, proceed, requeue,
  requeue_after, failed, Call, forward_etcd_leadership, remove_etcd_member, remove_from_config_map,
  delete_machine, patch_machine, DeleteAnswer, deleted, not_found, delete_error, Remote,
}
use cluster_api_provider_ocn.ControlPlane.Etcd.{
  Checked, unchecked, checked, can_safely_remove_etcd_member,
}

abbrev pub waiting_for_remediation : String
waiting_for_remediation = "WaitingForRemediation"

abbrev pub remediation_failed : String
remediation_failed = "RemediationFailed"

abbrev pub remediation_in_progress : String
remediation_in_progress = "RemediationInProgress"

-- What the cleanup has done: the machines, the calls and the number of errors.
pub record Cleanup : Type 0 where
  pub machines : Machines
  pub calls : List Call
  pub errors : ℕ

-- The state of a remediation when it returns: the calls, the machine and the result.
pub record Remediated : Type 0 where
  pub calls : List Call
  pub machine : Machine
  pub result : Reconciled

module _ ⦃time : TimeApi⦄ where
  -- A remediation is pending on a machine that is back to healthy and is not being deleted.
  unfoldable pub is_pending : Machine → Bool
  is_pending m =
      not (has_unhealthy_condition (some m))
      && is_true m.object health_check_succeeded
      && is_false m.object owner_remediated
      && time.is_zero m.deletion_timestamp

  unfoldable pub without_owner_remediated : Machine → Machine
  without_owner_remediated m = record m { object = delete m.object owner_remediated }

  -- The body of the first loop.
  unfoldable pub clean_machine : Remote → Machine → Cleanup → Cleanup
  clean_machine remote m done =
      if not (is_pending m)
      then record { machines = m ∷ done.machines; calls = done.calls; errors = done.errors }
      else if not (remote.patch_helper m)
      then record { machines = m ∷ done.machines; calls = done.calls; errors = done.errors + 1 }
      else record {
        machines = without_owner_remediated m ∷ done.machines;
        calls = patch_machine (without_owner_remediated m) ∷ done.calls;
        errors = if remote.patch (without_owner_remediated m) then done.errors else done.errors + 1;
      }

  unfoldable pub clean_machines : Remote → Machines → Cleanup
  clean_machines remote [] = record { machines = []; calls = []; errors = 0 }
  clean_machines remote (m ∷ ms) = clean_machine remote m (clean_machines remote ms)

  module _ (fmt : FmtApi) (describe : Failure → String) (remote : Remote) (now : ℕ) where
    -- MarkFalse of MachineOwnerRemediated.
    unfoldable pub mark_remediated : Machine → String → String → String → Machine
    mark_remediated m reason severity message = record m {
      object = mark_false now m.object owner_remediated reason severity message;
    }

    unfoldable pub stop : Machine → String → String → String → Reconciled → Remediated
    stop m reason severity message r = record {
      calls = [];
      machine = mark_remediated m reason severity message;
      result = r;
    }

    -- An error whose text is the format of the message.
    unfoldable pub stop_failed : Machine → Failure → Remediated
    stop_failed m e = stop m remediation_failed severity_error (fmt.sprintf (describe e)) (failed e)

    abbrev pub after : Call → Remediated → Remediated
    after call r = record r { calls = call ∷ r.calls }

    unfoldable pub delete_remediated : Machine → Remediated
    delete_remediated m = elim (remote.delete m) [
      | deleted ↦
          after (delete_machine m) (stop m remediation_in_progress severity_warning "" requeue)
      | not_found ↦ after (delete_machine m) (stop_failed m delete_failed)
      | delete_error ↦ after (delete_machine m) (stop_failed m delete_failed)
    ]

    unfoldable pub remove_and_delete : Machine → Remediated
    remove_and_delete m =
        if not remote.version_parses
        then record { calls = []; machine = m; result = failed bad_version }
        else if not (remote.remove_from_config m)
        then record {
          calls = remove_from_config_map m ∷ [];
          machine = m;
          result = failed config_map_failed;
        }
        else after (remove_from_config_map m) (delete_remediated m)

    -- Moves the leadership to the newest healthy machine, and removes the member.
    unfoldable pub leave_etcd : Machine → Option Machine → Remediated
    leave_etcd m none =
        stop m remediation_failed severity_warning
          "A control plane machine needs remediation, but there is no healthy machine to forward etcd leadership to. Skipping remediation"
          proceed
    leave_etcd m (some candidate) =
        if not (remote.forward m (some candidate))
        then after (forward_etcd_leadership m (some candidate)) (stop_failed m forward_failed)
        else if not (remote.remove_member m)
        then after (forward_etcd_leadership m (some candidate))
            (after (remove_etcd_member m) (stop_failed m remove_member_failed))
        else after (forward_etcd_leadership m (some candidate))
            (after (remove_etcd_member m) (remove_and_delete m))

    unfoldable pub remediate_in_cluster : ControlPlane → Machine → Remediated
    remediate_in_cluster c m =
        if not remote.workload_cluster
        then record { calls = []; machine = m; result = failed no_workload_cluster }
        else if is_etcd_managed c
        then leave_etcd m (newest (healthy_machines c))
        else remove_and_delete m

    -- The check of the quorum.
    unfoldable pub remediate_in_quorum : ControlPlane → Machine → Remediated
    remediate_in_quorum c m =
        if not (is_etcd_managed c)
        then remediate_in_cluster c m
        else elim (can_safely_remove_etcd_member remote c.machines m) [
          | unchecked e ↦ stop_failed m e
          | checked true ↦ remediate_in_cluster c m
          | checked false ↦
              stop m waiting_for_remediation severity_warning
                "KCP can't remediate this machine because this could result in etcd loosing quorum"
                proceed
        ]

    -- From the preflight checks on. Spec.Replicas is not nil here.
    unfoldable pub remediate : ControlPlane → ℕ → Machine → Remediated
    remediate c replicas m =
        if leb (length c.machines) 1
        then stop m waiting_for_remediation severity_warning
            "KCP can't remediate if current replicas are less or equal to 1" proceed
        else if ltb (length c.machines) replicas
        then stop m waiting_for_remediation severity_warning
            ("KCP waiting for having at least "
              <> fmt.itoa replicas
              <> " control plane machines before triggering remediation")
            proceed
        else if has_deleting_machine c
        then stop m waiting_for_remediation severity_warning
            "KCP waiting for control plane machine deletion to complete before triggering remediation"
            proceed
        else remediate_in_quorum c m

    -- The deferred patch, whose error counts if there is no other.
    unfoldable pub deferred_patch : Remediated → List Call × Reconciled
    deferred_patch r = (
      r.calls ++ (patch_machine r.machine ∷ []),
      if remote.patch r.machine then r.result else elim r.result [
        | proceed ↦ failed patch_failed
        | requeue ↦ failed patch_failed
        | requeue_after n ↦ failed patch_failed
        | failed e ↦ failed e
      ],
    )

    -- From the selection of the oldest unhealthy machine on.
    unfoldable pub remediate_oldest : ControlPlane → ℕ → List Call × Reconciled
    remediate_oldest c replicas = elim (oldest (unhealthy_machines c)) [
      | none ↦ ([], proceed)
      | some m ↦
          if not (time.is_zero m.deletion_timestamp)
          then ([], proceed)
          else if not (remote.patch_helper m)
          then ([], failed no_patch_helper)
          else deferred_patch (remediate c replicas m)
    ]

    unfoldable pub reconcile_unhealthy_machines : ControlPlane → ℕ → List Call × Reconciled
    reconcile_unhealthy_machines c replicas =
        let cleaned = clean_machines remote c.machines in
        if ltb 0 cleaned.errors
        then (cleaned.calls, failed patch_failed)
        else (let (calls, r) =
              remediate_oldest (record c { machines = cleaned.machines }) replicas in
            (cleaned.calls ++ calls, r))
