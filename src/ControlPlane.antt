-- ===== src/ControlPlane.antt =====
-- controlplane/ocne/internal/control_plane.go: the view of a control plane that the reconciler
-- decides on. DomainApi holds the two methods of cluster-api's FailureDomains that it calls.
pub mod Domains
pub mod Selection
pub mod Rollout
pub mod Scaling
pub mod Etcd
pub mod Remediation
pub mod Reconcile
pub mod Filters
use cluster_api_provider_ocn.Base.{
  ℕ, ◌+◌, String, ◌≡◌, Bool, true, false, not, ◌&&◌, Option, none, some, List, [], ◌∷◌, ltb, ◌=ℕ◌,
  if◌then◌else◌, any, length, is_empty,
}
use cluster_api_provider_ocn.Meta.{TimeApi}
use cluster_api_provider_ocn.Machines.{
  Machine, Func, RolloutBefore, not_filter, in_failure_domains, same_failure_domain,
  has_annotation_key, has_deletion_timestamp, has_unhealthy_condition, should_rollout_before,
  should_rollout_after,
}
use cluster_api_provider_ocn.Machines.Collection.{Machines, filter_machines, any_filter, oldest}
use cluster_api_provider_ocn.FailureDomains.{FailureDomains, is_known, pick_most, pick_fewest}
use cluster_api_provider_ocn.FailureDomains.Counting.{DistinctDomains}

pub record DomainApi : Type 0 where
  pub filter_control_plane : FailureDomains → FailureDomains
  pub get_ids : FailureDomains → List (Option String)
  pub filter_distinct :
      (fds : FailureDomains) → DistinctDomains fds → DistinctDomains (filter_control_plane fds)
  pub get_ids-some :
      (fds : FailureDomains) (id : String)
      → any (λ fd. same_failure_domain fd (some id)) (get_ids fds) ≡ is_known fds id
  pub get_ids-none :
      (fds : FailureDomains) → any (λ fd. same_failure_domain fd none) (get_ids fds) ≡ false

-- external_etcd is none without a ClusterConfiguration, and tells whether Etcd.External is set.
pub record ControlPlane : Type 0 where
  pub replicas : Option ℕ
  pub rollout_before : Option RolloutBefore
  pub rollout_after : Option ℕ
  pub external_etcd : Option Bool
  pub status_failure_domains : FailureDomains
  pub machines : Machines
  pub reconciliation_time : ℕ

-- A map that is nil is empty.
abbrev pub failure_domains : ControlPlane → FailureDomains
failure_domains c = c.status_failure_domains

unfoldable pub is_etcd_managed : ControlPlane → Bool
is_etcd_managed c = elim c.external_etcd [ none ↦ true | some external ↦ not external ]

abbrev pub delete_machine_annotation : String
delete_machine_annotation = "cluster.x-k8s.io/delete-machine"

unfoldable pub machine_with_delete_annotation : Machines → Machines
machine_with_delete_annotation ms =
    filter_machines ms (has_annotation_key delete_machine_annotation ∷ [])

unfoldable pub unhealthy_machines : ControlPlane → Machines
unhealthy_machines c = filter_machines c.machines (has_unhealthy_condition ∷ [])

unfoldable pub healthy_machines : ControlPlane → Machines
healthy_machines c = filter_machines c.machines (not_filter has_unhealthy_condition ∷ [])

unfoldable pub has_unhealthy_machine : ControlPlane → Bool
has_unhealthy_machine c = ltb 0 (length (unhealthy_machines c))

-- The code compares the number of machines plus one with the replicas.
unfoldable pub needs_replacement_node : ControlPlane → Bool
needs_replacement_node c = elim c.replicas [ none ↦ false | some r ↦ length c.machines + 1 =ℕ r ]

module _ ⦃time : TimeApi⦄ where
  unfoldable pub has_deleting_machine : ControlPlane → Bool
  has_deleting_machine c = ltb 0 (length (filter_machines c.machines (has_deletion_timestamp ∷ [])))

  -- `matches` is MatchesMachineSpec of filters.go at the control plane's configurations.
  unfoldable pub machines_needing_rollout : ControlPlane → Func → Machines
  machines_needing_rollout c matches =
      any_filter (filter_machines c.machines (not_filter has_deletion_timestamp ∷ [])) (
        should_rollout_before c.reconciliation_time c.rollout_before
        ∷ should_rollout_after (some c.reconciliation_time) c.rollout_after
        ∷ not_filter matches
        ∷ [])

  unfoldable pub up_to_date_machines : ControlPlane → Func → Machines
  up_to_date_machines c matches = filter_machines c.machines (
      not_filter (should_rollout_before c.reconciliation_time c.rollout_before)
      ∷ not_filter (should_rollout_after (some c.reconciliation_time) c.rollout_after)
      ∷ matches
      ∷ [])

  module _ (api : DomainApi) where
    unfoldable pub next_failure_domain_for_scale_up : ControlPlane → Func → Option String
    next_failure_domain_for_scale_up c matches =
        if is_empty (api.filter_control_plane (failure_domains c))
        then none
        else pick_fewest (api.filter_control_plane (failure_domains c))
            (up_to_date_machines c matches)

    unfoldable pub not_in_failure_domains : ControlPlane → Machines → Machines
    not_in_failure_domains c ms = filter_machines ms (
        not_filter (in_failure_domains (api.get_ids (api.filter_control_plane (failure_domains c))))
        ∷ [])

    -- The oldest machine outside the known failure domains decides, if there is one.
    unfoldable pub failure_domain_with_most_machines : ControlPlane → Machines → Option String
    failure_domain_with_most_machines c ms = elim (oldest (not_in_failure_domains c ms)) [
      | some m ↦ m.failure_domain
      | none ↦ pick_most (api.filter_control_plane (failure_domains c)) c.machines ms
    ]

    -- `none` is the error that no machine could be picked.
    unfoldable pub machine_in_failure_domain_with_most_machines :
        ControlPlane → Machines → Option Machine
    machine_in_failure_domain_with_most_machines c ms =
        oldest (
          filter_machines ms
            (in_failure_domains (failure_domain_with_most_machines c ms ∷ []) ∷ []))

    -- The switch of selectMachineForScaleDown in scale.go.
    unfoldable pub scale_down_candidates : ControlPlane → Machines → Machines
    scale_down_candidates c outdated =
        if ltb 0 (length (machine_with_delete_annotation outdated))
        then machine_with_delete_annotation outdated
        else if ltb 0 (length (machine_with_delete_annotation c.machines))
        then machine_with_delete_annotation c.machines
        else if ltb 0 (length outdated)
        then outdated
        else c.machines

    unfoldable pub select_machine_for_scale_down : ControlPlane → Machines → Option Machine
    select_machine_for_scale_down c outdated =
        machine_in_failure_domain_with_most_machines c (scale_down_candidates c outdated)
