-- ===== src/Examples/ReconcileRuns.antt =====
-- The bounds of a reconciliation at a control plane that is scaled up.
use cluster_api_provider_ocn.Base.{◌∷◌, ◌+◌, ◌≤◌, ◌<◌, ◌≡◌, ◌⊎◌, refl, true, false, some, []}
use cluster_api_provider_ocn.Meta.{wall_clock}
use cluster_api_provider_ocn.Fmt.{plain_fmt}
use cluster_api_provider_ocn.ControlPlane.Scaling.{proceed}
use cluster_api_provider_ocn.ControlPlane.Reconcile.{Environment, reconcile}
use cluster_api_provider_ocn.ControlPlane.Reconcile.Changes.{created, deleted_count}
use cluster_api_provider_ocn.ControlPlane.Reconcile.Bounds.{reconcile_bounds}
use cluster_api_provider_ocn.ControlPlane.Reconcile.Deletion.{
  DeletionEnvironment, Orderly, reconcile_delete, reconcile_delete-Orderly,
}
use cluster_api_provider_ocn.Machines.Collection.{filter_machines}
use cluster_api_provider_ocn.Examples.MachineData.{three, control_plane, all_domains, willing}

-- Every call succeeds, and all machines are the control plane's.
abbrev ready : Environment
ready = record {
  external_reference = true;
  infrastructure_ready = true;
  certificates = true;
  endpoint_is_valid = true;
  kubeconfig = proceed;
  control_plane_machines = some three;
  is_adoptable = λ m. false;
  adopt_machines = true;
  ensure_owner_ref = true;
  is_owned = λ m. true;
  read_objects = true;
  initialized = true;
  update_conditions = λ m. m;
  patch_machines = true;
  etcd_cluster_healthy = true;
  reconcile_members = λ ns. true;
  certificate_expiries = proceed;
  rollout_strategy = some ("RollingUpdate", 1);
  cluster_configuration = some true;
  module_operator_due = false;
  platform_operator_due = false;
  update = λ u. true;
}

reconcile_bounds_example :
    (created
          (reconcile ⦃time = wall_clock⦄ all_domains willing ready plain_fmt
            (λ e. "")
            9
            (control_plane [])
            (λ m. true)
            5).0
        + deleted_count
            (reconcile ⦃time = wall_clock⦄ all_domains willing ready plain_fmt
              (λ e. "")
              9
              (control_plane [])
              (λ m. true)
              5).0
      ≤ 1)
    × ((created
            (reconcile ⦃time = wall_clock⦄ all_domains willing ready plain_fmt
              (λ e. "")
              9
              (control_plane [])
              (λ m. true)
              5).0
          ≡ 0)
        ⊎ (3 < 5 + 1))
    × ((deleted_count
            (reconcile ⦃time = wall_clock⦄ all_domains willing ready plain_fmt
              (λ e. "")
              9
              (control_plane [])
              (λ m. true)
              5).0
          ≡ 0)
        ⊎ (5 ≤ 3))
unfolding cluster_api_provider_ocn.Machines.Collection.filter_machines
    cluster_api_provider_ocn.Machines.Collection.new_filtered_machine_collection
    cluster_api_provider_ocn.Machines.Collection.insert_filtered
    cluster_api_provider_ocn.Machines.and_filter cluster_api_provider_ocn.Machines.Collection.insert
    cluster_api_provider_ocn.Machines.Collection.put_machine
reconcile_bounds_example =
    reconcile_bounds ⦃time = wall_clock⦄ all_domains willing ready plain_fmt (λ e. "") 9
      (control_plane []) (λ m. true) 5

-- The cluster has the three machines of the control plane, and no pools.
abbrev emptied : DeletionEnvironment
emptied = record {
  all_machines = some three;
  is_owned = λ m. true;
  read_objects = true;
  machine_pools = some 0;
}

reconcile_delete-Orderly_example :
    Orderly ⦃time = wall_clock⦄ willing emptied three
      (filter_machines three ((λ m. true) ∷ []))
      (reconcile_delete ⦃time = wall_clock⦄ willing emptied)
reconcile_delete-Orderly_example =
    reconcile_delete-Orderly ⦃time = wall_clock⦄ willing emptied three refl
