-- ===== src/Examples/ControlPlaneRuns.antt =====
-- The theorems of the control plane at concrete machines.
use cluster_api_provider_ocn.Base.{
  ℕ, String, ◌≡◌, ◌≢◌, ◌≤◌, ◌<◌, ◌*◌, refl, sym, ◌∙◌, true, false, none, some, List, [], ◌∷◌, ◌++◌,
  All, In, Option, arith, ◌↔◌, inl, length,
}
use cluster_api_provider_ocn.Meta.{wall_clock}
use cluster_api_provider_ocn.Fmt.{plain_fmt}
use cluster_api_provider_ocn.Machines.{Machine, same_failure_domain, has_deletion_timestamp}
use cluster_api_provider_ocn.Machines.Oldest.{IsOlder}
use cluster_api_provider_ocn.ControlPlane.{
  has_deleting_machine, machines_needing_rollout, up_to_date_machines,
  failure_domain_with_most_machines, machine_in_failure_domain_with_most_machines,
  select_machine_for_scale_down,
}
use cluster_api_provider_ocn.ControlPlane.Rollout.{rollout_or_up_to_date}
use cluster_api_provider_ocn.ControlPlane.Domains.{IsChosen}
use cluster_api_provider_ocn.ControlPlane.Selection.{
  scale_down_choice-oldest, scale_down_choice_total,
}
use cluster_api_provider_ocn.ControlPlane.Scaling.{
  proceed, Call, preflight_checks, preflight_check_condition, health_conditions,
  scale_down_control_plane,
}
use cluster_api_provider_ocn.ControlPlane.Scaling.Safety.{
  deletions, LeftEtcd, scale_down_plan, scale_down-plan,
}
use cluster_api_provider_ocn.ControlPlane.Etcd.{keeps_quorum}
use cluster_api_provider_ocn.ControlPlane.Etcd.Quorum.{
  remaining, healthy_members, keeps_quorum-majority,
}
use cluster_api_provider_ocn.ControlPlane.Remediation.{clean_machines, reconcile_unhealthy_machines}
use cluster_api_provider_ocn.ControlPlane.Remediation.Safety.{Remediates, remediation-plan}
use cluster_api_provider_ocn.ControlPlane.Remediation.Cleaning.{
  AreCleaned, is_mended, clean_machines-Settled,
}
use cluster_api_provider_ocn.Examples.MachineData.{
  mended, m1, m2, m3, sick, three, control_plane, all_domains, willing,
}

rollout_or_up_to_date_example :
    In m1 (machines_needing_rollout ⦃time = wall_clock⦄ (control_plane three) (λ m. true))
    ↔ (has_deletion_timestamp ⦃time = wall_clock⦄ (some m1) ≡ false)
      × ¬ In m1 (up_to_date_machines ⦃time = wall_clock⦄ (control_plane three) (λ m. true))
rollout_or_up_to_date_example =
    rollout_or_up_to_date ⦃time = wall_clock⦄ (control_plane three) (λ m. true)
      ((refl, (refl, tt)), ((refl, tt), (tt, tt))) m1 (inl refl)

picks_m1 :
    machine_in_failure_domain_with_most_machines ⦃time = wall_clock⦄ all_domains
      (control_plane three)
      three
    ≡ some m1
unfolding cluster_api_provider_ocn.Base.sort cluster_api_provider_ocn.Base.insert_sorted
    cluster_api_provider_ocn.Base.str_lt cluster_api_provider_ocn.Machines.and_filter
    cluster_api_provider_ocn.Machines.not_filter
    cluster_api_provider_ocn.Machines.same_failure_domain
    cluster_api_provider_ocn.Machines.in_failure_domains
    cluster_api_provider_ocn.Machines.has_deletion_timestamp
    cluster_api_provider_ocn.Machines.has_unhealthy_condition
    cluster_api_provider_ocn.Machines.has_annotation_key
    cluster_api_provider_ocn.Machines.Collection.put_machine
    cluster_api_provider_ocn.Machines.Collection.insert
    cluster_api_provider_ocn.Machines.Collection.insert_filtered
    cluster_api_provider_ocn.Machines.Collection.new_filtered_machine_collection
    cluster_api_provider_ocn.Machines.Collection.filter_machines
    cluster_api_provider_ocn.Machines.Collection.by_creation_timestamp
    cluster_api_provider_ocn.Machines.Collection.sorted_by_creation_timestamp
    cluster_api_provider_ocn.Machines.Collection.first
    cluster_api_provider_ocn.Machines.Collection.last
    cluster_api_provider_ocn.Machines.Collection.oldest
    cluster_api_provider_ocn.Machines.Collection.newest
    cluster_api_provider_ocn.FailureDomains.fewer cluster_api_provider_ocn.FailureDomains.more
    cluster_api_provider_ocn.FailureDomains.is_known
    cluster_api_provider_ocn.FailureDomains.initial_counters
    cluster_api_provider_ocn.FailureDomains.increment
    cluster_api_provider_ocn.FailureDomains.count_machine
    cluster_api_provider_ocn.FailureDomains.count_machines
    cluster_api_provider_ocn.FailureDomains.pick cluster_api_provider_ocn.FailureDomains.first_id
    cluster_api_provider_ocn.FailureDomains.order_descending
    cluster_api_provider_ocn.FailureDomains.has_machine_in
    cluster_api_provider_ocn.FailureDomains.first_with_machine
    cluster_api_provider_ocn.FailureDomains.pick_most
    cluster_api_provider_ocn.ControlPlane.is_etcd_managed
    cluster_api_provider_ocn.ControlPlane.machine_with_delete_annotation
    cluster_api_provider_ocn.ControlPlane.unhealthy_machines
    cluster_api_provider_ocn.ControlPlane.healthy_machines
    cluster_api_provider_ocn.ControlPlane.has_deleting_machine
    cluster_api_provider_ocn.ControlPlane.not_in_failure_domains
    cluster_api_provider_ocn.ControlPlane.failure_domain_with_most_machines
    cluster_api_provider_ocn.ControlPlane.machine_in_failure_domain_with_most_machines
    cluster_api_provider_ocn.ControlPlane.scale_down_candidates
    cluster_api_provider_ocn.ControlPlane.select_machine_for_scale_down
picks_m1 = refl

scale_down_choice-oldest_example :
    In m1 three
    × IsChosen ⦃time = wall_clock⦄ all_domains (control_plane three) three m1.failure_domain
    × ((x : Machine)
        → In x three
        → x.failure_domain ≡ m1.failure_domain
        → IsOlder ⦃time = wall_clock⦄ m1 x)
scale_down_choice-oldest_example =
    scale_down_choice-oldest ⦃time = wall_clock⦄ all_domains (control_plane three) three m1
      ((refl, (refl, tt)), ((refl, tt), (tt, tt))) ((refl, tt), (tt, tt)) picks_m1

scale_down_choice_total_example :
    machine_in_failure_domain_with_most_machines ⦃time = wall_clock⦄ all_domains
      (control_plane three)
      three
    ≢ none
scale_down_choice_total_example =
    scale_down_choice_total ⦃time = wall_clock⦄ all_domains (control_plane three) three m1
      ((refl, (refl, tt)), ((refl, tt), (tt, tt))) ((refl, tt), (tt, tt)) (inl refl)

cons-nil : (m : Machine) (ms : List Machine) → (m ∷ ms) ≢ []
cons-nil m ms e = cc e

deletes_m1 :
    deletions
      (scale_down_control_plane ⦃time = wall_clock⦄ all_domains willing (control_plane three) []).0
    ≡ m1 ∷ []
unfolding cluster_api_provider_ocn.Base.sort cluster_api_provider_ocn.Base.insert_sorted
    cluster_api_provider_ocn.Base.str_lt cluster_api_provider_ocn.Machines.and_filter
    cluster_api_provider_ocn.Machines.not_filter
    cluster_api_provider_ocn.Machines.same_failure_domain
    cluster_api_provider_ocn.Machines.in_failure_domains
    cluster_api_provider_ocn.Machines.has_deletion_timestamp
    cluster_api_provider_ocn.Machines.has_unhealthy_condition
    cluster_api_provider_ocn.Machines.has_annotation_key
    cluster_api_provider_ocn.Machines.Collection.put_machine
    cluster_api_provider_ocn.Machines.Collection.insert
    cluster_api_provider_ocn.Machines.Collection.insert_filtered
    cluster_api_provider_ocn.Machines.Collection.new_filtered_machine_collection
    cluster_api_provider_ocn.Machines.Collection.filter_machines
    cluster_api_provider_ocn.Machines.Collection.by_creation_timestamp
    cluster_api_provider_ocn.Machines.Collection.sorted_by_creation_timestamp
    cluster_api_provider_ocn.Machines.Collection.first
    cluster_api_provider_ocn.Machines.Collection.last
    cluster_api_provider_ocn.Machines.Collection.oldest
    cluster_api_provider_ocn.Machines.Collection.newest
    cluster_api_provider_ocn.FailureDomains.fewer cluster_api_provider_ocn.FailureDomains.more
    cluster_api_provider_ocn.FailureDomains.is_known
    cluster_api_provider_ocn.FailureDomains.initial_counters
    cluster_api_provider_ocn.FailureDomains.increment
    cluster_api_provider_ocn.FailureDomains.count_machine
    cluster_api_provider_ocn.FailureDomains.count_machines
    cluster_api_provider_ocn.FailureDomains.pick cluster_api_provider_ocn.FailureDomains.first_id
    cluster_api_provider_ocn.FailureDomains.order_descending
    cluster_api_provider_ocn.FailureDomains.has_machine_in
    cluster_api_provider_ocn.FailureDomains.first_with_machine
    cluster_api_provider_ocn.FailureDomains.pick_most
    cluster_api_provider_ocn.ControlPlane.is_etcd_managed
    cluster_api_provider_ocn.ControlPlane.machine_with_delete_annotation
    cluster_api_provider_ocn.ControlPlane.unhealthy_machines
    cluster_api_provider_ocn.ControlPlane.healthy_machines
    cluster_api_provider_ocn.ControlPlane.has_deleting_machine
    cluster_api_provider_ocn.ControlPlane.not_in_failure_domains
    cluster_api_provider_ocn.ControlPlane.failure_domain_with_most_machines
    cluster_api_provider_ocn.ControlPlane.machine_in_failure_domain_with_most_machines
    cluster_api_provider_ocn.ControlPlane.scale_down_candidates
    cluster_api_provider_ocn.ControlPlane.select_machine_for_scale_down
    cluster_api_provider_ocn.Conditions.Getter.find_condition
    cluster_api_provider_ocn.Conditions.Getter.get
    cluster_api_provider_ocn.Conditions.Getter.is_true
    cluster_api_provider_ocn.Conditions.Getter.is_false
    cluster_api_provider_ocn.ControlPlane.Scaling.preflight_check_condition
    cluster_api_provider_ocn.ControlPlane.Scaling.health_conditions
    cluster_api_provider_ocn.ControlPlane.Scaling.has_machine_errors
    cluster_api_provider_ocn.ControlPlane.Scaling.preflight_checks
    cluster_api_provider_ocn.ControlPlane.Scaling.delete_selected
    cluster_api_provider_ocn.ControlPlane.Scaling.remove_from_config_and_delete
    cluster_api_provider_ocn.ControlPlane.Scaling.leave_etcd_and_delete
    cluster_api_provider_ocn.ControlPlane.Scaling.scale_down_control_plane
deletes_m1 = refl

scale_down-plan_example :
    (m : Machine) × (select_machine_for_scale_down ⦃time = wall_clock⦄ all_domains
        (control_plane three)
        []
      ≡ some m)
    × (preflight_checks ⦃time = wall_clock⦄ (control_plane three) (m ∷ []) ≡ proceed)
    × ((scale_down_control_plane ⦃time = wall_clock⦄ all_domains willing (control_plane three) []).0
        ≡ scale_down_plan ⦃time = wall_clock⦄ (control_plane three) m)
    × (willing.workload_cluster ≡ true)
    × LeftEtcd ⦃time = wall_clock⦄ all_domains willing (control_plane three) m
    × (willing.version_parses ≡ true)
    × (willing.remove_from_config m ≡ true)
scale_down-plan_example =
    scale_down-plan ⦃time = wall_clock⦄ all_domains willing (control_plane three) []
      (λ e. cons-nil m1 [] (sym deletes_m1 ∙ e))

keeps_quorum-majority_example : (keeps_quorum m1 three ("m1" ∷ "m2" ∷ "m3" ∷ []) ≡ true) ↔ (
    length (remaining m1 ("m1" ∷ "m2" ∷ "m3" ∷ []))
    < 2 * length (healthy_members m1 three ("m1" ∷ "m2" ∷ "m3" ∷ [])))
keeps_quorum-majority_example = keeps_quorum-majority m1 three ("m1" ∷ "m2" ∷ "m3" ∷ [])

abbrev calls_example : List Call
calls_example =
    (reconcile_unhealthy_machines ⦃time = wall_clock⦄ plain_fmt (λ e. "") willing 9
      (control_plane (sick ∷ m2 ∷ m3 ∷ [])) 3).0

deletes_sick : deletions calls_example ≡ sick ∷ []
unfolding cluster_api_provider_ocn.Base.sort cluster_api_provider_ocn.Base.insert_sorted
    cluster_api_provider_ocn.Base.str_lt cluster_api_provider_ocn.Machines.and_filter
    cluster_api_provider_ocn.Machines.not_filter
    cluster_api_provider_ocn.Machines.same_failure_domain
    cluster_api_provider_ocn.Machines.in_failure_domains
    cluster_api_provider_ocn.Machines.has_deletion_timestamp
    cluster_api_provider_ocn.Machines.has_unhealthy_condition
    cluster_api_provider_ocn.Machines.has_annotation_key
    cluster_api_provider_ocn.Machines.Collection.put_machine
    cluster_api_provider_ocn.Machines.Collection.insert
    cluster_api_provider_ocn.Machines.Collection.insert_filtered
    cluster_api_provider_ocn.Machines.Collection.new_filtered_machine_collection
    cluster_api_provider_ocn.Machines.Collection.filter_machines
    cluster_api_provider_ocn.Machines.Collection.by_creation_timestamp
    cluster_api_provider_ocn.Machines.Collection.sorted_by_creation_timestamp
    cluster_api_provider_ocn.Machines.Collection.first
    cluster_api_provider_ocn.Machines.Collection.last
    cluster_api_provider_ocn.Machines.Collection.oldest
    cluster_api_provider_ocn.Machines.Collection.newest
    cluster_api_provider_ocn.FailureDomains.fewer cluster_api_provider_ocn.FailureDomains.more
    cluster_api_provider_ocn.FailureDomains.is_known
    cluster_api_provider_ocn.FailureDomains.initial_counters
    cluster_api_provider_ocn.FailureDomains.increment
    cluster_api_provider_ocn.FailureDomains.count_machine
    cluster_api_provider_ocn.FailureDomains.count_machines
    cluster_api_provider_ocn.FailureDomains.pick cluster_api_provider_ocn.FailureDomains.first_id
    cluster_api_provider_ocn.FailureDomains.order_descending
    cluster_api_provider_ocn.FailureDomains.has_machine_in
    cluster_api_provider_ocn.FailureDomains.first_with_machine
    cluster_api_provider_ocn.FailureDomains.pick_most
    cluster_api_provider_ocn.ControlPlane.is_etcd_managed
    cluster_api_provider_ocn.ControlPlane.machine_with_delete_annotation
    cluster_api_provider_ocn.ControlPlane.unhealthy_machines
    cluster_api_provider_ocn.ControlPlane.healthy_machines
    cluster_api_provider_ocn.ControlPlane.has_deleting_machine
    cluster_api_provider_ocn.ControlPlane.not_in_failure_domains
    cluster_api_provider_ocn.ControlPlane.failure_domain_with_most_machines
    cluster_api_provider_ocn.ControlPlane.machine_in_failure_domain_with_most_machines
    cluster_api_provider_ocn.ControlPlane.scale_down_candidates
    cluster_api_provider_ocn.ControlPlane.select_machine_for_scale_down
    cluster_api_provider_ocn.Conditions.Getter.find_condition
    cluster_api_provider_ocn.Conditions.Getter.get
    cluster_api_provider_ocn.Conditions.Getter.is_true
    cluster_api_provider_ocn.Conditions.Getter.is_false
    cluster_api_provider_ocn.ControlPlane.Scaling.preflight_check_condition
    cluster_api_provider_ocn.ControlPlane.Scaling.health_conditions
    cluster_api_provider_ocn.ControlPlane.Scaling.has_machine_errors
    cluster_api_provider_ocn.ControlPlane.Scaling.preflight_checks
    cluster_api_provider_ocn.ControlPlane.Scaling.delete_selected
    cluster_api_provider_ocn.ControlPlane.Scaling.remove_from_config_and_delete
    cluster_api_provider_ocn.ControlPlane.Scaling.leave_etcd_and_delete
    cluster_api_provider_ocn.ControlPlane.Scaling.scale_down_control_plane
    cluster_api_provider_ocn.ControlPlane.Etcd.hosts
    cluster_api_provider_ocn.ControlPlane.Etcd.machine_of_member
    cluster_api_provider_ocn.ControlPlane.Etcd.is_healthy_member
    cluster_api_provider_ocn.ControlPlane.Etcd.count_member
    cluster_api_provider_ocn.ControlPlane.Etcd.project_members
    cluster_api_provider_ocn.ControlPlane.Etcd.has_quorum
    cluster_api_provider_ocn.ControlPlane.Etcd.keeps_quorum
    cluster_api_provider_ocn.ControlPlane.Etcd.can_safely_remove_etcd_member
    cluster_api_provider_ocn.ControlPlane.Remediation.is_pending
    cluster_api_provider_ocn.ControlPlane.Remediation.without_owner_remediated
    cluster_api_provider_ocn.ControlPlane.Remediation.clean_machine
    cluster_api_provider_ocn.ControlPlane.Remediation.clean_machines
    cluster_api_provider_ocn.ControlPlane.Remediation.mark_remediated
    cluster_api_provider_ocn.ControlPlane.Remediation.stop
    cluster_api_provider_ocn.ControlPlane.Remediation.stop_failed
    cluster_api_provider_ocn.ControlPlane.Remediation.delete_remediated
    cluster_api_provider_ocn.ControlPlane.Remediation.remove_and_delete
    cluster_api_provider_ocn.ControlPlane.Remediation.leave_etcd
    cluster_api_provider_ocn.ControlPlane.Remediation.remediate_in_cluster
    cluster_api_provider_ocn.ControlPlane.Remediation.remediate_in_quorum
    cluster_api_provider_ocn.ControlPlane.Remediation.remediate
    cluster_api_provider_ocn.ControlPlane.Remediation.deferred_patch
    cluster_api_provider_ocn.ControlPlane.Remediation.remediate_oldest
    cluster_api_provider_ocn.ControlPlane.Remediation.reconcile_unhealthy_machines
deletes_sick = refl

remediation-plan_example :
    (calls : List Call) × Remediates ⦃time = wall_clock⦄ plain_fmt
      (λ e. "")
      willing
      9
      (record (control_plane (sick ∷ m2 ∷ m3 ∷ [])) {
        machines = (clean_machines ⦃time = wall_clock⦄ willing (sick ∷ m2 ∷ m3 ∷ [])).machines;
      })
      3
      calls
    × (calls_example
        ≡ (clean_machines ⦃time = wall_clock⦄ willing (sick ∷ m2 ∷ m3 ∷ [])).calls ++ calls)
remediation-plan_example =
    remediation-plan ⦃time = wall_clock⦄ plain_fmt (λ e. "") willing 9
      (control_plane (sick ∷ m2 ∷ m3 ∷ [])) 3 (λ e. cons-nil sick [] (sym deletes_sick ∙ e))

clean_machines-Settled_example :
    AreCleaned ⦃time = wall_clock⦄
      (mended ∷ m2 ∷ [])
      (clean_machines ⦃time = wall_clock⦄ willing (mended ∷ m2 ∷ [])).machines
    × All
        (λ a. is_mended ⦃time = wall_clock⦄ a ≡ false)
        (clean_machines ⦃time = wall_clock⦄ willing (mended ∷ m2 ∷ [])).machines
unfolding clean_machines cluster_api_provider_ocn.ControlPlane.Remediation.clean_machine
    cluster_api_provider_ocn.ControlPlane.Remediation.is_pending
    cluster_api_provider_ocn.Machines.has_unhealthy_condition
    cluster_api_provider_ocn.Conditions.Getter.is_false
    cluster_api_provider_ocn.Conditions.Getter.is_true
clean_machines-Settled_example =
    clean_machines-Settled ⦃time = wall_clock⦄ willing (mended ∷ m2 ∷ []) refl
