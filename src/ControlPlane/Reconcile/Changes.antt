-- ===== src/ControlPlane/Reconcile/Changes.antt =====
-- How many machines a reconciliation creates and deletes.
use cluster_api_provider_ocn.Base.{
  ℕ, suc, ◌+◌, ◌≤◌, ◌<◌, String, ◌≡◌, refl, Bool, true, false, Option, none, some, List, [], ◌∷◌,
  ◌++◌, length, arith, ◌⊎◌, inl, inr, Option-cases,
}
use cluster_api_provider_ocn.Meta.{TimeApi}
use cluster_api_provider_ocn.Fmt.{FmtApi}
use cluster_api_provider_ocn.Machines.{Machine, Func}
use cluster_api_provider_ocn.Machines.Collection.{Machines, oldest, newest}
use cluster_api_provider_ocn.ControlPlane.{
  ControlPlane, DomainApi, unhealthy_machines, healthy_machines, select_machine_for_scale_down,
}
use cluster_api_provider_ocn.ControlPlane.Scaling.{
  Failure, Reconciled, proceed, requeue, requeue_after, failed, Call, generate_machine,
  forward_etcd_leadership, remove_etcd_member, remove_from_config_map, delete_machine,
  patch_machine, Remote, generate, initialize_control_plane, scale_up_control_plane,
  delete_selected, remove_from_config_and_delete, leave_etcd_and_delete, scale_down_control_plane,
}
use cluster_api_provider_ocn.ControlPlane.Remediation.{
  Remediated, clean_machine, clean_machines, stop, stop_failed, delete_remediated,
  remove_and_delete, leave_etcd, remediate_in_cluster, remediate_in_quorum, remediate,
  deferred_patch, remediate_oldest, reconcile_unhealthy_machines,
}
use cluster_api_provider_ocn.ControlPlane.Reconcile.{and_then}

-- How many machines the calls create, and how many they delete.
abbrev pub created : List Call → ℕ
created [] = 0
created (generate_machine i fd ∷ cs) = suc (created cs)
created (delete_machine m ∷ cs) = created cs
created (forward_etcd_leadership m n ∷ cs) = created cs
created (remove_etcd_member m ∷ cs) = created cs
created (remove_from_config_map m ∷ cs) = created cs
created (patch_machine m ∷ cs) = created cs

abbrev pub deleted_count : List Call → ℕ
deleted_count [] = 0
deleted_count (generate_machine i fd ∷ cs) = deleted_count cs
deleted_count (delete_machine m ∷ cs) = suc (deleted_count cs)
deleted_count (forward_etcd_leadership m n ∷ cs) = deleted_count cs
deleted_count (remove_etcd_member m ∷ cs) = deleted_count cs
deleted_count (remove_from_config_map m ∷ cs) = deleted_count cs
deleted_count (patch_machine m ∷ cs) = deleted_count cs

-- Neither.
abbrev Still : List Call → Type 0
Still calls = (created calls ≡ 0) × (deleted_count calls ≡ 0)

created-append : (xs ys : List Call) → created (xs ++ ys) ≡ created xs + created ys
created-append [] ys = omega arith
created-append (generate_machine i fd ∷ xs) ys = omega (arith, created-append xs ys)
created-append (delete_machine m ∷ xs) ys = created-append xs ys
created-append (forward_etcd_leadership m n ∷ xs) ys = created-append xs ys
created-append (remove_etcd_member m ∷ xs) ys = created-append xs ys
created-append (remove_from_config_map m ∷ xs) ys = created-append xs ys
created-append (patch_machine m ∷ xs) ys = created-append xs ys

deleted-append :
    (xs ys : List Call) → deleted_count (xs ++ ys) ≡ deleted_count xs + deleted_count ys
deleted-append [] ys = omega arith
deleted-append (generate_machine i fd ∷ xs) ys = deleted-append xs ys
deleted-append (delete_machine m ∷ xs) ys = omega (arith, deleted-append xs ys)
deleted-append (forward_etcd_leadership m n ∷ xs) ys = deleted-append xs ys
deleted-append (remove_etcd_member m ∷ xs) ys = deleted-append xs ys
deleted-append (remove_from_config_map m ∷ xs) ys = deleted-append xs ys
deleted-append (patch_machine m ∷ xs) ys = deleted-append xs ys

-- One machine is created or deleted at most; one is created only below the highest number, and one
-- is deleted only from the lowest number on.
abbrev pub Sound : (low high n : ℕ) → List Call → Type 0
Sound low high n calls =
    (created calls + deleted_count calls ≤ 1)
    × ((created calls ≡ 0) ⊎ (n < high))
    × ((deleted_count calls ≡ 0) ⊎ (low ≤ n))

-- The same of a phase that creates nothing, and goes on only if it has deleted nothing.
abbrev pub Careful : (low n : ℕ) → List Call × Reconciled → Type 0
Careful low n p =
    (created p.0 ≡ 0)
    × (deleted_count p.0 ≤ 1)
    × ((deleted_count p.0 ≡ 0) ⊎ (low ≤ n))
    × (p.1 ≡ proceed → deleted_count p.0 ≡ 0)

pub and_then-Sound :
    (low high n : ℕ) (p q : List Call × Reconciled)
    → Careful low n p
    → Sound low high n q.0
    → Sound low high n (and_then p q).0
unfolding and_then
and_then-Sound low high n (calls, proceed) q (c, d, e, f) (x, y, z) =
    let g = f refl in
    ground (arith, c, g, x, y, z, created-append calls q.0, deleted-append calls q.0)
and_then-Sound low high n (calls, requeue) q (c, d, e, f) s = (omega (arith, c, d), inl c, e)
and_then-Sound low high n (calls, requeue_after k) q (c, d, e, f) s =
    (omega (arith, c, d), inl c, e)
and_then-Sound low high n (calls, failed x) q (c, d, e, f) s = (omega (arith, c, d), inl c, e)

pub empty-Careful : (low n : ℕ) (r : Reconciled) → Careful low n ([], r)
empty-Careful low n r = (refl, omega arith, inl refl, λ h. refl)

pub empty-Sound : (low high n : ℕ) → Sound low high n []
empty-Sound low high n = (omega arith, inl refl, inl refl)

module _ ⦃time : TimeApi⦄ where
  module _ (api : DomainApi) (remote : Remote) where
    generate_counts :
        (c : ControlPlane) (matches : Func) (initial : Bool)
        → (created (generate api remote c matches initial).0 ≡ 1)
          × (deleted_count (generate api remote c matches initial).0 ≡ 0)
    unfolding generate
    generate_counts c matches initial = (refl, refl)

    pub initialize_counts :
        (c : ControlPlane) (matches : Func)
        → (created (initialize_control_plane api remote c matches).0 ≤ 1)
          × (deleted_count (initialize_control_plane api remote c matches).0 ≡ 0)
    unfolding initialize_control_plane
    initialize_counts c matches = ground (arith, generate_counts c matches true)

    pub scale_up_counts :
        (c : ControlPlane) (matches : Func)
        → (created (scale_up_control_plane api remote c matches).0 ≤ 1)
          × (deleted_count (scale_up_control_plane api remote c matches).0 ≡ 0)
    unfolding scale_up_control_plane
    scale_up_counts c matches = ground (arith, generate_counts c matches false)

    delete_selected_counts :
        (m : Machine)
        → (created (delete_selected api remote m).0 ≡ 0)
          × (deleted_count (delete_selected api remote m).0 ≡ 1)
    unfolding delete_selected
    delete_selected_counts m = ground arith

    remove_and_delete_counts :
        (m : Machine)
        → (created (remove_from_config_and_delete api remote m).0 ≡ 0)
          × (deleted_count (remove_from_config_and_delete api remote m).0 ≤ 1)
    unfolding remove_from_config_and_delete
    remove_and_delete_counts m = ground (arith, delete_selected_counts m)

    leave_etcd_counts :
        (c : ControlPlane) (m : Machine)
        → (created (leave_etcd_and_delete api remote c m).0 ≡ 0)
          × (deleted_count (leave_etcd_and_delete api remote c m).0 ≤ 1)
    unfolding leave_etcd_and_delete
    leave_etcd_counts c m = ground (arith, remove_and_delete_counts m)

    pub scale_down_counts :
        (c : ControlPlane) (outdated : Machines)
        → (created (scale_down_control_plane api remote c outdated).0 ≡ 0)
          × (deleted_count (scale_down_control_plane api remote c outdated).0 ≤ 1)
    unfolding scale_down_control_plane
    scale_down_counts c outdated =
        elim (Option-cases (select_machine_for_scale_down api c outdated)) [
          | inl e ↦ rw (e, scale_down_control_plane) (refl, omega arith)
          | inr (m, e) ↦ ground (arith, e, leave_etcd_counts c m)
        ]

  module _ (fmt : FmtApi) (describe : Failure → String) (remote : Remote) (now : ℕ) where
    -- A remediation creates nothing, deletes one machine at most, and goes on only if it has deleted
    -- nothing.
    abbrev Lone : Remediated → Type 0
    Lone r =
        (created r.calls ≡ 0)
        × (deleted_count r.calls ≤ 1)
        × (r.result ≡ proceed → deleted_count r.calls ≡ 0)

    delete_remediated-Lone : (m : Machine) → Lone (delete_remediated fmt describe remote now m)
    unfolding delete_remediated stop stop_failed
    delete_remediated-Lone m = (ground arith, ground arith, λ h. ground (arith, h))

    remove_and_delete-Lone : (m : Machine) → Lone (remove_and_delete fmt describe remote now m)
    unfolding remove_and_delete
    remove_and_delete-Lone m =
        let (a, b, c) = delete_remediated-Lone m in
        (ground (arith, a), ground (arith, b), λ h. ground (arith, h, c))

    leave_etcd-Lone :
        (m : Machine) (o : Option Machine) → Lone (leave_etcd fmt describe remote now m o)
    unfolding leave_etcd stop stop_failed
    leave_etcd-Lone m none = (refl, omega arith, λ h. refl)
    leave_etcd-Lone m (some candidate) =
        let (a, b, c) = remove_and_delete-Lone m in
        (ground (arith, a), ground (arith, b), λ h. ground (arith, h, c))

    remediate_in_cluster-Lone :
        (c : ControlPlane) (m : Machine) → Lone (remediate_in_cluster fmt describe remote now c m)
    unfolding remediate_in_cluster
    remediate_in_cluster-Lone c m =
        let (x, y, z) = remove_and_delete-Lone m in
        let (u, v, w) = leave_etcd-Lone m (newest (healthy_machines c)) in
        (ground (arith, x, u), ground (arith, y, v), λ h. ground (arith, h, z, w))

    remediate_in_quorum-Lone :
        (c : ControlPlane) (m : Machine) → Lone (remediate_in_quorum fmt describe remote now c m)
    unfolding remediate_in_quorum stop stop_failed
    remediate_in_quorum-Lone c m =
        let (x, y, z) = remediate_in_cluster-Lone c m in
        (ground (arith, x), ground (arith, y), λ h. ground (arith, h, z))

    -- It deletes only where there are as many machines as replicas.
    remediate-Lone :
        (c : ControlPlane) (replicas : ℕ) (m : Machine)
        → Lone (remediate fmt describe remote now c replicas m)
          × ((deleted_count (remediate fmt describe remote now c replicas m).calls ≡ 0)
              ⊎ (replicas ≤ length c.machines))
    unfolding remediate stop
    remediate-Lone c replicas m =
        let (x, y, z) = remediate_in_quorum-Lone c m in
        ((ground (arith, x), ground (arith, y), λ h. ground (arith, h, z)), ground arith)

    deferred_patch-Careful :
        (low n : ℕ) (r : Remediated)
        → Lone r
        → (deleted_count r.calls ≡ 0) ⊎ (low ≤ n)
        → Careful low n (deferred_patch fmt describe remote now r)
    unfolding deferred_patch
    deferred_patch-Careful low n r (a, b, c) d =
        let e = created-append r.calls (patch_machine r.machine ∷ []) in
        let f = deleted-append r.calls (patch_machine r.machine ∷ []) in
        (
          omega (arith, a, e),
          omega (arith, b, f),
          ground (arith, d, f),
          λ h. ground (arith, h, c, f),
        )

    remediate_oldest-Careful :
        (c : ControlPlane) (replicas : ℕ)
        → Careful replicas (length c.machines) (remediate_oldest fmt describe remote now c replicas)
    unfolding remediate_oldest
    remediate_oldest-Careful c replicas = elim (Option-cases (oldest (unhealthy_machines c))) [
      | inl e ↦ rw (e, remediate_oldest) (empty-Careful replicas (length c.machines) proceed)
      | inr (m, e) ↦
          let (l, d) = remediate-Lone c replicas m in
          let (x, y, z, w) =
            deferred_patch-Careful replicas (length c.machines)
              (remediate fmt describe remote now c replicas m) l d in
          (
            ground (arith, e, x),
            ground (arith, e, y),
            ground (arith, e, z),
            λ h. ground (arith, h, e, w),
          )
    ]

    pub clean_counts :
        (ms : Machines)
        → (created (clean_machines remote ms).calls ≡ 0)
          × (deleted_count (clean_machines remote ms).calls ≡ 0)
          × (length (clean_machines remote ms).machines ≡ length ms)
    unfolding clean_machines clean_machine
    clean_counts [] = (refl, refl, refl)
    clean_counts (m ∷ ms) = ground (arith, clean_counts ms)

    pub unhealthy-Careful :
        (c : ControlPlane) (replicas : ℕ)
        → Careful replicas
            (length c.machines)
            (reconcile_unhealthy_machines fmt describe remote now c replicas)
    unfolding reconcile_unhealthy_machines
    unhealthy-Careful c replicas =
        let cleaned = clean_machines remote c.machines in
        let (a, b, l) = clean_counts c.machines in
        let p =
          remediate_oldest fmt describe remote now (record c { machines = cleaned.machines })
            replicas in
        let (x, y, z, w) =
          remediate_oldest-Careful (record c { machines = cleaned.machines }) replicas in
        let e = created-append cleaned.calls p.0 in
        let f = deleted-append cleaned.calls p.0 in
        (
          ground (arith, a, x, e),
          ground (arith, b, y, f),
          ground (arith, b, z, f, l),
          λ h. ground (arith, b, w, f, h),
        )
