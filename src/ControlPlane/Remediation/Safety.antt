-- ===== src/ControlPlane/Remediation/Safety.antt =====
-- What a remediation has checked and done before it deletes a machine.
use cluster_api_provider_ocn.Base.{
  ℕ, String, ◌≡◌, ◌≢◌, refl, ap, ◌∙◌, true, false, Option, none, some, List, [], ◌∷◌, ◌++◌, ◌≤◌,
  ◌<◌, if◌then◌else◌, length, arith, Option-cases, Bool-cases, inl, inr, ◌⊎◌,
}
use cluster_api_provider_ocn.Meta.{TimeApi}
use cluster_api_provider_ocn.Fmt.{FmtApi}
use cluster_api_provider_ocn.Machines.{Machine}
use cluster_api_provider_ocn.Machines.Collection.{Machines, oldest, newest}
use cluster_api_provider_ocn.ControlPlane.{
  ControlPlane, is_etcd_managed, has_deleting_machine, healthy_machines, unhealthy_machines,
}
use cluster_api_provider_ocn.ControlPlane.Scaling.{
  Failure, Call, generate_machine, forward_etcd_leadership, remove_etcd_member,
  remove_from_config_map, delete_machine, patch_machine, Remote,
}
use cluster_api_provider_ocn.ControlPlane.Scaling.Safety.{deletions, ending}
use cluster_api_provider_ocn.ControlPlane.Etcd.{checked, can_safely_remove_etcd_member}
use cluster_api_provider_ocn.ControlPlane.Remediation.{
  Cleanup, clean_machine, clean_machines, stop, stop_failed, delete_remediated, remove_and_delete,
  leave_etcd, remediate_in_cluster, remediate_in_quorum, remediate, deferred_patch,
  remediate_oldest, reconcile_unhealthy_machines,
}

deletions-append : (xs ys : List Call) → deletions (xs ++ ys) ≡ deletions xs ++ deletions ys
deletions-append [] ys = refl
deletions-append (delete_machine m ∷ xs) ys = ap (λ r. m ∷ r) (deletions-append xs ys)
deletions-append (generate_machine i fd ∷ xs) ys = deletions-append xs ys
deletions-append (forward_etcd_leadership m n ∷ xs) ys = deletions-append xs ys
deletions-append (remove_etcd_member m ∷ xs) ys = deletions-append xs ys
deletions-append (remove_from_config_map m ∷ xs) ys = deletions-append xs ys
deletions-append (patch_machine m ∷ xs) ys = deletions-append xs ys

-- The calls delete nothing, or they are the whole plan.
abbrev PlanOrNone : List Call → List Call → Type 0
PlanOrNone plan calls = (deletions calls ≡ []) ⊎ (calls ≡ plan)

module _ ⦃time : TimeApi⦄ where
  -- Everything that the deletion of an unhealthy machine asks for, in order.
  abbrev pub remediation_plan : ControlPlane → Machine → List Call
  remediation_plan c m =
      if is_etcd_managed c
      then forward_etcd_leadership m (newest (healthy_machines c)) ∷ remove_etcd_member m ∷ ending m
      else ending m

  deletions-clean_machine :
      (remote : Remote) (m : Machine) (done : Cleanup)
      → deletions done.calls ≡ []
      → deletions (clean_machine remote m done).calls ≡ []
  unfolding clean_machine
  deletions-clean_machine remote m done h = ground arith

  deletions-clean_machines :
      (remote : Remote) (ms : Machines) → deletions (clean_machines remote ms).calls ≡ []
  unfolding clean_machines
  deletions-clean_machines remote [] = refl
  deletions-clean_machines remote (m ∷ ms) =
      deletions-clean_machine remote m (clean_machines remote ms)
        (deletions-clean_machines remote ms)

  -- The guards that a remediation which deletes has passed.
  abbrev pub Guarded : Remote → ControlPlane → ℕ → Machine → Type 0
  Guarded remote c replicas m =
      (1 < length c.machines)
      × (replicas ≤ length c.machines)
      × (has_deleting_machine c ≡ false)
      × ((is_etcd_managed c ≡ false)
          ⊎ (can_safely_remove_etcd_member remote c.machines m ≡ checked true))

  module _ (fmt : FmtApi) (describe : Failure → String) (remote : Remote) (now : ℕ) where
    delete_remediated_calls :
        (m : Machine) → (delete_remediated fmt describe remote now m).calls ≡ delete_machine m ∷ []
    unfolding delete_remediated stop stop_failed
    delete_remediated_calls m = ground arith

    remove_and_delete_calls :
        (m : Machine) → PlanOrNone (ending m) (remove_and_delete fmt describe remote now m).calls
    unfolding remove_and_delete
    remove_and_delete_calls m = ground (arith, delete_remediated_calls m)

    leave_etcd_calls :
        (m : Machine) (candidate : Option Machine)
        → PlanOrNone
            (forward_etcd_leadership m candidate ∷ remove_etcd_member m ∷ ending m)
            (leave_etcd fmt describe remote now m candidate).calls
    unfolding leave_etcd stop stop_failed
    leave_etcd_calls m none = inl refl
    leave_etcd_calls m (some n) = ground (arith, remove_and_delete_calls m)

    remediate_in_cluster_calls :
        (c : ControlPlane) (m : Machine)
        → PlanOrNone (remediation_plan c m) (remediate_in_cluster fmt describe remote now c m).calls
    unfolding remediate_in_cluster
    remediate_in_cluster_calls c m =
        ground (arith, remove_and_delete_calls m, leave_etcd_calls m (newest (healthy_machines c)))

    remediate_in_quorum_calls :
        (c : ControlPlane) (m : Machine)
        → (deletions (remediate_in_quorum fmt describe remote now c m).calls ≡ [])
          ⊎ (((remediate_in_quorum fmt describe remote now c m).calls ≡ remediation_plan c m)
              × ((is_etcd_managed c ≡ false)
                  ⊎ (can_safely_remove_etcd_member remote c.machines m ≡ checked true)))
    unfolding remediate_in_quorum stop stop_failed
    remediate_in_quorum_calls c m = ground (arith, remediate_in_cluster_calls c m)

    remediate_calls :
        (c : ControlPlane) (replicas : ℕ) (m : Machine)
        → (deletions (remediate fmt describe remote now c replicas m).calls ≡ [])
          ⊎ (((remediate fmt describe remote now c replicas m).calls ≡ remediation_plan c m)
              × Guarded remote c replicas m)
    unfolding remediate stop
    remediate_calls c replicas m = ground (arith, remediate_in_quorum_calls c m)

    -- The oldest unhealthy machine is the one that a reconciliation deletes, if it deletes any.
    abbrev pub Remediates : ControlPlane → ℕ → List Call → Type 0
    Remediates c replicas calls =
        (m : Machine) × (m' : Machine) × (oldest (unhealthy_machines c) ≡ some m)
        × (time.is_zero m.deletion_timestamp ≡ true)
        × Guarded remote c replicas m
        × (calls ≡ remediation_plan c m ++ (patch_machine m' ∷ []))

    remediate_oldest_stages :
        (c : ControlPlane) (replicas : ℕ)
        → ((remediate_oldest fmt describe remote now c replicas).0 ≡ [])
          ⊎ ((m : Machine) × (oldest (unhealthy_machines c) ≡ some m)
              × (time.is_zero m.deletion_timestamp ≡ true)
              × ((remediate_oldest fmt describe remote now c replicas).0
                  ≡ (remediate fmt describe remote now c replicas m).calls
                    ++ (patch_machine (remediate fmt describe remote now c replicas m).machine
                        ∷ [])))
    unfolding remediate_oldest deferred_patch
    remediate_oldest_stages c replicas = elim (Option-cases (oldest (unhealthy_machines c))) [
      | inl e ↦ inl (rw (e, remediate_oldest))
      | inr (m, e) ↦ elim (Bool-cases (time.is_zero m.deletion_timestamp)) [
        | inr z ↦ inl (rw (e, remediate_oldest, z))
        | inl z ↦ elim (Bool-cases (remote.patch_helper m)) [
          | inr h ↦ inl (rw (e, remediate_oldest, z, h))
          | inl h ↦ inr (m, e, z, rw (e, remediate_oldest, z, h))
        ]
      ]
    ]

    remediate_oldest_calls :
        (c : ControlPlane) (replicas : ℕ)
        → (deletions (remediate_oldest fmt describe remote now c replicas).0 ≡ [])
          ⊎ Remediates c replicas (remediate_oldest fmt describe remote now c replicas).0
    remediate_oldest_calls c replicas = elim (remediate_oldest_stages c replicas) [
      | inl e ↦ inl (ap (λ x. deletions x) e)
      | inr (m, e, z, q) ↦ elim (remediate_calls c replicas m) [
        | inl k ↦ inl (
            ap (λ x. deletions x) q
            ∙ deletions-append (remediate fmt describe remote now c replicas m).calls _
            ∙ ap (λ x. x ++ []) k)
        | inr (k, g) ↦ inr (
          m,
          (remediate fmt describe remote now c replicas m).machine,
          e,
          z,
          g,
          q
              ∙ ap
                  (λ x.
                    x
                    ++ (patch_machine (remediate fmt describe remote now c replicas m).machine
                        ∷ []))
                  k,
        )
      ]
    ]

    reconcile_stages :
        (c : ControlPlane) (replicas : ℕ)
        → (deletions (reconcile_unhealthy_machines fmt describe remote now c replicas).0 ≡ [])
          ⊎ ((reconcile_unhealthy_machines fmt describe remote now c replicas).0
              ≡ (clean_machines remote c.machines).calls
                ++ (remediate_oldest fmt describe remote now
                    (record c { machines = (clean_machines remote c.machines).machines })
                    replicas).0)
    unfolding reconcile_unhealthy_machines
    reconcile_stages c replicas = ground (arith, deletions-clean_machines remote c.machines)

    -- A reconciliation that deletes a machine has, after the cleanup, selected the oldest unhealthy
    -- machine, which is not being deleted, has passed every guard (several machines, no fewer than
    -- the replicas, none being deleted, and a quorum without it if etcd is managed), and its calls
    -- are those of the cleanup, the whole plan for that machine and the patch of its conditions.
    pub remediation-plan :
        (c : ControlPlane) (replicas : ℕ)
        → deletions (reconcile_unhealthy_machines fmt describe remote now c replicas).0 ≢ []
        → (calls : List Call) × Remediates
            (record c { machines = (clean_machines remote c.machines).machines })
            replicas
            calls
          × ((reconcile_unhealthy_machines fmt describe remote now c replicas).0
              ≡ (clean_machines remote c.machines).calls ++ calls)
    remediation-plan c replicas h = elim (reconcile_stages c replicas) [
      | inl e ↦ absurd (h e)
      | inr e ↦
          elim (remediate_oldest_calls
            (record c { machines = (clean_machines remote c.machines).machines }) replicas) [
              | inr r ↦ (_, r, e)
              | inl k ↦ absurd (
                  h (
                    ap (λ x. deletions x) e
                    ∙ deletions-append (clean_machines remote c.machines).calls _
                    ∙ ap
                        (λ x.
                          x
                          ++ deletions
                              (remediate_oldest fmt describe remote now
                                (record c {
                                  machines = (clean_machines remote c.machines).machines;
                                })
                                replicas).0)
                        (deletions-clean_machines remote c.machines)
                    ∙ k))
            ]
    ]
