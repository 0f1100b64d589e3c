-- ===== src/ControlPlane/Reconcile/Deletion.antt =====
-- reconcileDelete of controller.go: the machines of a control plane that is being deleted. The errors
-- of the conditions are ignored there, so their reconciliation is left out.
use cluster_api_provider_ocn.Base.{
  ℕ, suc, ◌≡◌, refl, Bool, true, false, not, ◌||◌, Option, none, some, List, [], ◌∷◌, ltb, ◌=ℕ◌,
  if◌then◌else◌, length, arith, Option-cases, inl, inr, ◌⊎◌,
}
use cluster_api_provider_ocn.Meta.{TimeApi}
use cluster_api_provider_ocn.Machines.{Func, not_filter, has_deletion_timestamp}
use cluster_api_provider_ocn.Machines.Collection.{Machines, filter_machines}
use cluster_api_provider_ocn.ControlPlane.Scaling.{
  Failure, read_failed, control_plane_failed, delete_failed, Call, delete_machine, deleted,
  not_found, delete_error, Remote, delete_requeue_after,
}
use cluster_api_provider_ocn.ControlPlane.Scaling.Safety.{deletions}

-- What a deletion returns: the finalizer is removed, or a delay, or an error.
pub data Deleting : Type 0 where
  finalizer_removed : Deleting
  come_again : ℕ → Deleting
  deletion_failed : Failure → Deleting

-- Machine pools are counted where their feature is enabled; none is an error.
pub record DeletionEnvironment : Type 0 where
  pub all_machines : Option Machines
  pub is_owned : Func
  pub read_objects : Bool
  pub machine_pools : Option ℕ

-- The loop over the machines, with the number of its errors.
unfoldable pub delete_each : Remote → Machines → List Call × ℕ
delete_each remote [] = ([], 0)
delete_each remote (m ∷ ms) =
    let (calls, errors) = delete_each remote ms in
    elim (remote.delete m) [
      | deleted ↦ (delete_machine m ∷ calls, errors)
      | not_found ↦ (delete_machine m ∷ calls, errors)
      | delete_error ↦ (delete_machine m ∷ calls, suc errors)
    ]

unfoldable pub delete_all : Remote → Machines → List Call × Deleting
delete_all remote ms =
    let (calls, errors) = delete_each remote ms in
    (calls, if ltb 0 errors then deletion_failed delete_failed else come_again delete_requeue_after)

module _ ⦃time : TimeApi⦄ (remote : Remote) (env : DeletionEnvironment) where
  unfoldable pub delete_last : Machines → Machines → ℕ → List Call × Deleting
  delete_last all owned pools =
      if not (length all =ℕ length owned) || not (pools =ℕ 0)
      then ([], come_again delete_requeue_after)
      else delete_all remote (filter_machines owned (not_filter has_deletion_timestamp ∷ []))

  unfoldable pub delete_owned : Machines → Machines → List Call × Deleting
  delete_owned all owned =
      if length owned =ℕ 0
      then ([], finalizer_removed)
      else if not env.read_objects
      then ([], deletion_failed control_plane_failed)
      else elim env.machine_pools [
        | none ↦ ([], deletion_failed read_failed)
        | some pools ↦ delete_last all owned pools
      ]

  unfoldable pub reconcile_delete : List Call × Deleting
  reconcile_delete = elim env.all_machines [
    | none ↦ ([], deletion_failed read_failed)
    | some ms ↦ delete_owned ms (filter_machines ms (env.is_owned ∷ []))
  ]

abbrev pub removes : Deleting → Bool
removes finalizer_removed = true
removes (come_again n) = false
removes (deletion_failed e) = false

delete_each-deletions : (remote : Remote) (ms : Machines) → deletions (delete_each remote ms).0 ≡ ms
unfolding delete_each
delete_each-deletions remote [] = refl
delete_each-deletions remote (m ∷ ms) = ground (arith, delete_each-deletions remote ms)

module _ ⦃time : TimeApi⦄ (remote : Remote) (env : DeletionEnvironment) where
  -- The finalizer goes with no machine left, and machines are deleted all together, with no other left.
  abbrev pub Orderly : Machines → Machines → List Call × Deleting → Type 0
  Orderly all owned r =
      ((deletions r.0 ≡ [])
        ⊎ ((deletions r.0 ≡ filter_machines owned (not_filter has_deletion_timestamp ∷ []))
            × (length all ≡ length owned)
            × (env.machine_pools ≡ some 0)))
      × ((removes r.1 ≡ false) ⊎ (length owned ≡ 0))

  delete_last-Orderly :
      (all owned : Machines) (pools : ℕ)
      → env.machine_pools ≡ some pools
      → Orderly all owned (delete_last remote env all owned pools)
  unfolding delete_last delete_all
  delete_last-Orderly all owned pools e =
      let d =
        delete_each-deletions remote
          (filter_machines owned (not_filter has_deletion_timestamp ∷ [])) in
      (ground (arith, d, e), ground arith)

  delete_owned-Orderly :
      (all owned : Machines) → Orderly all owned (delete_owned remote env all owned)
  unfolding delete_owned
  delete_owned-Orderly all owned = elim (Option-cases env.machine_pools) [
    | inl e ↦ (ground (arith, e), ground (arith, e))
    | inr (pools, e) ↦
        let (a, b) = delete_last-Orderly all owned pools e in
        (ground (arith, e, a), ground (arith, e, b))
  ]

  -- A control plane that is being deleted, whose cluster has some machines, gives up its finalizer only
  -- where it owns none of them; it deletes nothing, or all machines that are not being deleted yet,
  -- and that only where the cluster has no machines but its own and no machine pools.
  pub reconcile_delete-Orderly :
      (all : Machines)
      → env.all_machines ≡ some all
      → ((deletions (reconcile_delete remote env).0 ≡ [])
          ⊎ ((deletions (reconcile_delete remote env).0
                ≡ filter_machines
                    (filter_machines all (env.is_owned ∷ []))
                    (not_filter has_deletion_timestamp ∷ []))
              × (length all ≡ length (filter_machines all (env.is_owned ∷ [])))
              × (env.machine_pools ≡ some 0)))
        × ((removes (reconcile_delete remote env).1 ≡ false)
            ⊎ (length (filter_machines all (env.is_owned ∷ [])) ≡ 0))
  unfolding reconcile_delete
  reconcile_delete-Orderly all e =
      rw (e, reconcile_delete) (delete_owned-Orderly all (filter_machines all (env.is_owned ∷ [])))
