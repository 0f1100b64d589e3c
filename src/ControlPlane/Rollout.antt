-- ===== src/ControlPlane/Rollout.antt =====
-- Which machines are rolled out.
use cluster_api_provider_ocn.Base.{
  ◌≡◌, ap, ◌∙◌, false, not, Option, some, [], ◌∷◌, arith, In, In-filter_left, In-filter_right,
  Bool-cases, inl, inr, filter, ◌↔◌,
}
use cluster_api_provider_ocn.Meta.{TimeApi}
use cluster_api_provider_ocn.Machines.{
  Machine, Func, and_filter, or_filter, not_filter, has_deletion_timestamp, should_rollout_before,
  should_rollout_after,
}
use cluster_api_provider_ocn.Machines.Collection.{any_filter}
use cluster_api_provider_ocn.Machines.Collection.Filtering.{
  DistinctNames, filter_machines-filter, any_filter-filter, filter-DistinctNames,
}
use cluster_api_provider_ocn.ControlPlane.{
  ControlPlane, machines_needing_rollout, up_to_date_machines,
}

module _ ⦃time : TimeApi⦄ (c : ControlPlane) (matches : Func)
    (distinct : DistinctNames c.machines) where
  abbrev Outdated : Func
  Outdated = or_filter (
      should_rollout_before c.reconciliation_time c.rollout_before
      ∷ should_rollout_after (some c.reconciliation_time) c.rollout_after
      ∷ not_filter matches
      ∷ [])

  abbrev Current : Func
  Current = and_filter (
      not_filter (should_rollout_before c.reconciliation_time c.rollout_before)
      ∷ not_filter (should_rollout_after (some c.reconciliation_time) c.rollout_after)
      ∷ matches
      ∷ [])

  outdated-not-current : (m : Option Machine) → Outdated m ≡ not (Current m)
  unfolding or_filter and_filter not_filter
  outdated-not-current m = ground arith

  abbrev Kept : Func
  Kept = and_filter (not_filter has_deletion_timestamp ∷ [])

  Kept_not : (m : Option Machine) → Kept m ≡ not (has_deletion_timestamp m)
  unfolding and_filter not_filter
  Kept_not m = ground arith

  needing :
      machines_needing_rollout c matches
      ≡ filter (λ m. Outdated (some m)) (filter (λ m. Kept (some m)) c.machines)
  unfolding machines_needing_rollout
  needing =
      ap
        (λ ms. any_filter ms (
          should_rollout_before c.reconciliation_time c.rollout_before
          ∷ should_rollout_after (some c.reconciliation_time) c.rollout_after
          ∷ not_filter matches
          ∷ []))
        (filter_machines-filter c.machines (not_filter has_deletion_timestamp ∷ []) distinct)
      ∙ any_filter-filter (filter (λ m. Kept (some m)) c.machines)
          (should_rollout_before c.reconciliation_time c.rollout_before
            ∷ should_rollout_after (some c.reconciliation_time) c.rollout_after
            ∷ not_filter matches
            ∷ [])
          (filter-DistinctNames (λ m. Kept (some m)) c.machines distinct)

  up_to_date : up_to_date_machines c matches ≡ filter (λ m. Current (some m)) c.machines
  unfolding up_to_date_machines
  up_to_date =
      filter_machines-filter c.machines
        (not_filter (should_rollout_before c.reconciliation_time c.rollout_before)
          ∷ not_filter (should_rollout_after (some c.reconciliation_time) c.rollout_after)
          ∷ matches
          ∷ [])
        distinct

  rollout_left :
      (m : Machine)
      → In m (filter (λ x. Outdated (some x)) (filter (λ x. Kept (some x)) c.machines))
      → (has_deletion_timestamp (some m) ≡ false)
        × ¬ In m (filter (λ x. Current (some x)) c.machines)
  rollout_left m h =
      let (i, old) =
        In-filter_left (λ x. Outdated (some x)) m (filter (λ x. Kept (some x)) c.machines) h in
      let (j, kept) = In-filter_left (λ x. Kept (some x)) m c.machines i in
      (
        ground (arith, Kept_not (some m)),
        λ k. ground (
          arith,
          outdated-not-current (some m),
          (In-filter_left (λ x. Current (some x)) m c.machines k).1,
        ),
      )

  rollout_right :
      (m : Machine)
      → In m c.machines
      → has_deletion_timestamp (some m) ≡ false
      → ¬ In m (filter (λ x. Current (some x)) c.machines)
      → In m (filter (λ x. Outdated (some x)) (filter (λ x. Kept (some x)) c.machines))
  rollout_right m i kept other = elim (Bool-cases (Current (some m))) [
    | inl e ↦ absurd (other (In-filter_right (λ x. Current (some x)) m c.machines i e))
    | inr e ↦
        In-filter_right (λ x. Outdated (some x)) m (filter (λ x. Kept (some x)) c.machines)
          (In-filter_right (λ x. Kept (some x)) m c.machines i (ground (arith, Kept_not (some m))))
          (ground (arith, outdated-not-current (some m)))
  ]

  -- A machine of a control plane of distinct names needs a rollout exactly when it is not being
  -- deleted and is not up to date.
  pub rollout_or_up_to_date :
      (m : Machine)
      → In m c.machines
      → (In m (machines_needing_rollout c matches)
          ↔ (has_deletion_timestamp (some m) ≡ false) × ¬ In m (up_to_date_machines c matches))
  rollout_or_up_to_date m i =
      rw (needing, up_to_date) (rollout_left m, λ h. rollout_right m i h.0 h.1)
