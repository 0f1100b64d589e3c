-- ===== src/ControlPlane/Scaling/Safety.antt =====
-- What a scale down has checked and done before it deletes a machine.
use cluster_api_provider_ocn.Base.{
  String, ℕ, ◌≡◌, ◌≢◌, refl, ap, ◌∙◌, true, false, some, List, [], ◌∷◌, if◌then◌else◌, arith,
  Option-cases, Bool-cases, inl, inr, ◌⊎◌,
}
use cluster_api_provider_ocn.Meta.{TimeApi}
use cluster_api_provider_ocn.Conditions.Defs.{Condition}
use cluster_api_provider_ocn.Conditions.Getter.{get}
use cluster_api_provider_ocn.Machines.{Machine}
use cluster_api_provider_ocn.Machines.Collection.{Machines, newest}
use cluster_api_provider_ocn.ControlPlane.{
  ControlPlane, DomainApi, is_etcd_managed, select_machine_for_scale_down,
}
use cluster_api_provider_ocn.ControlPlane.Scaling.{
  Reconciled, Failure, proceed, requeue, requeue_after, failed, Call, generate_machine,
  forward_etcd_leadership, remove_etcd_member, remove_from_config_map, delete_machine,
  patch_machine, Remote, preflight_checks, delete_selected, remove_from_config_and_delete,
  leave_etcd_and_delete, scale_down_control_plane,
}

-- The machines that the calls delete.
abbrev pub deletions : List Call → List Machine
deletions [] = []
deletions (delete_machine m ∷ cs) = m ∷ deletions cs
deletions (generate_machine i fd ∷ cs) = deletions cs
deletions (forward_etcd_leadership m n ∷ cs) = deletions cs
deletions (remove_etcd_member m ∷ cs) = deletions cs
deletions (remove_from_config_map m ∷ cs) = deletions cs
deletions (patch_machine m ∷ cs) = deletions cs

abbrev pub ending : Machine → List Call
ending m = remove_from_config_map m ∷ delete_machine m ∷ []

module _ ⦃time : TimeApi⦄ where
  -- Everything that a scale down asks for, in order.
  abbrev pub scale_down_plan : ControlPlane → Machine → List Call
  scale_down_plan c m =
      if is_etcd_managed c
      then forward_etcd_leadership m (newest c.machines) ∷ remove_etcd_member m ∷ ending m
      else ending m

  module _ (api : DomainApi) (remote : Remote) where
    delete_selected_calls : (m : Machine) → (delete_selected api remote m).0 ≡ delete_machine m ∷ []
    unfolding delete_selected
    delete_selected_calls m = ground arith

    -- The calls that come before the deletion have all succeeded.
    abbrev pub Left : Machine → Type 0
    Left m = (remote.version_parses ≡ true) × (remote.remove_from_config m ≡ true)

    abbrev pub LeftEtcd : ControlPlane → Machine → Type 0
    LeftEtcd c m =
        (is_etcd_managed c ≡ false)
        ⊎ ((remote.forward m (newest c.machines) ≡ true) × (remote.remove_member m ≡ true))

    remove_from_config_calls :
        (m : Machine)
        → (deletions (remove_from_config_and_delete api remote m).0 ≡ [])
          ⊎ (((remove_from_config_and_delete api remote m).0 ≡ ending m) × Left m)
    unfolding remove_from_config_and_delete
    remove_from_config_calls m = ground (arith, delete_selected_calls m)

    leave_etcd_calls :
        (c : ControlPlane) (m : Machine)
        → (deletions (leave_etcd_and_delete api remote c m).0 ≡ [])
          ⊎ (((leave_etcd_and_delete api remote c m).0 ≡ scale_down_plan c m)
              × Left m
              × LeftEtcd c m)
    unfolding leave_etcd_and_delete
    leave_etcd_calls c m = ground (arith, remove_from_config_calls m)

    -- A scale down deletes nothing, or has selected a machine, passed the checks, and made the plan.
    abbrev Outcome : ControlPlane → Machines → List Call → Type 0
    Outcome c outdated calls =
        (deletions calls ≡ [])
        ⊎ ((m : Machine) × (select_machine_for_scale_down api c outdated ≡ some m)
            × (preflight_checks c (m ∷ []) ≡ proceed)
            × (calls ≡ scale_down_plan c m)
            × (remote.workload_cluster ≡ true)
            × LeftEtcd c m
            × Left m)

    reconciled_cases :
        (r : Reconciled)
        → (r ≡ proceed)
          ⊎ ((r ≡ requeue) ⊎ (((n : ℕ) × (r ≡ requeue_after n)) ⊎ ((e : Failure) × (r ≡ failed e))))
    reconciled_cases proceed = inl refl
    reconciled_cases requeue = inr (inl refl)
    reconciled_cases (requeue_after n) = inr (inr (inl (n, refl)))
    reconciled_cases (failed e) = inr (inr (inr (e, refl)))

    scale_down_calls :
        (c : ControlPlane) (outdated : Machines)
        → ((scale_down_control_plane api remote c outdated).0 ≡ [])
          ⊎ ((m : Machine) × (select_machine_for_scale_down api c outdated ≡ some m)
              × (preflight_checks c (m ∷ []) ≡ proceed)
              × (remote.workload_cluster ≡ true)
              × ((scale_down_control_plane api remote c outdated).0
                  ≡ (leave_etcd_and_delete api remote c m).0))
    unfolding scale_down_control_plane
    scale_down_calls c outdated =
        elim (Option-cases (select_machine_for_scale_down api c outdated)) [
          | inl e ↦ inl (rw (e, scale_down_control_plane))
          | inr (m, e) ↦ elim (reconciled_cases (preflight_checks c (m ∷ []))) [
            | inl p ↦ elim (Bool-cases remote.workload_cluster) [
              | inl w ↦ inr (m, e, p, w, rw (e, scale_down_control_plane, p, w))
              | inr w ↦ inl (rw (e, scale_down_control_plane, p, w))
            ]
            | inr (inl p) ↦ inl (rw (e, scale_down_control_plane, p))
            | inr (inr (inl (n, p))) ↦ inl (rw (e, scale_down_control_plane, p))
            | inr (inr (inr (n, p))) ↦ inl (rw (e, scale_down_control_plane, p))
          ]
        ]

    scale_down-Outcome :
        (c : ControlPlane) (outdated : Machines)
        → Outcome c outdated (scale_down_control_plane api remote c outdated).0
    scale_down-Outcome c outdated = elim (scale_down_calls c outdated) [
      | inl e ↦ inl (ap (λ x. deletions x) e)
      | inr (m, e, p, w, q) ↦ elim (leave_etcd_calls c m) [
        | inl k ↦ inl (ap (λ x. deletions x) q ∙ k)
        | inr (k, l, left_etcd) ↦ inr (m, e, p, q ∙ k, w, left_etcd, l)
      ]
    ]

    -- A scale down that deletes anything has selected that machine and passed the preflight checks
    -- without it. It made every call of the plan, in order, and those before the deletion succeeded:
    -- the workload cluster is reached; if etcd is managed, the leadership is forwarded to the newest
    -- machine and the member of the machine is removed; the version of the control plane is valid,
    -- and the machine is removed from the cluster's configuration.
    pub scale_down-plan :
        (c : ControlPlane) (outdated : Machines)
        → deletions (scale_down_control_plane api remote c outdated).0 ≢ []
        → (m : Machine) × (select_machine_for_scale_down api c outdated ≡ some m)
          × (preflight_checks c (m ∷ []) ≡ proceed)
          × ((scale_down_control_plane api remote c outdated).0 ≡ scale_down_plan c m)
          × (remote.workload_cluster ≡ true)
          × LeftEtcd c m
          × (remote.version_parses ≡ true)
          × (remote.remove_from_config m ≡ true)
    scale_down-plan c outdated h = elim (scale_down-Outcome c outdated) [
      | inl e ↦ absurd (h e)
      | inr (m, e, p, q, w, left_etcd, (v, r)) ↦ (m, e, p, q, w, left_etcd, v, r)
    ]

  -- A machine has a condition that is neither False nor Unknown.
  abbrev pub Reports : Machine → String → Type 0
  Reports m k =
      (d : Condition) × (get m.object k ≡ some d) × (d.status ≢ "False") × (d.status ≢ "Unknown")

  -- The pods of the control plane report, and where etcd is managed its pod and its member.
  abbrev pub ReportsAll : ControlPlane → Machine → Type 0
  ReportsAll c m =
      Reports m "APIServerPodHealthy"
      × Reports m "ControllerManagerPodHealthy"
      × Reports m "SchedulerPodHealthy"
      × ((is_etcd_managed c ≡ false) ⊎ (Reports m "EtcdPodHealthy" × Reports m "EtcdMemberHealthy"))
