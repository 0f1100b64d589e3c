-- ===== src/Bootstrap.antt =====
-- bootstrap/ocne/internal/controllers: kubeadmconfig_controller.go and token.go. Here is the choice
-- that a reconciliation of a bootstrap configuration makes, and the initialization of the control
-- plane under its lock. What the clusters and the generators of user data answer are arguments.
pub mod Discovery
pub mod Files
pub mod Tokens
use cluster_api_provider_ocn.Base.{
  Bool, true, false, not, ◌&&◌, ◌||◌, List, [], ◌∷◌, ◌++◌, if◌then◌else◌,
}

-- What is read of the configuration, its owner and its cluster.
pub record Scope : Type 0 where
  pub infrastructure_ready : Bool
  pub owner_has_secret : Bool
  pub status_ready : Bool
  pub status_has_secret : Bool
  pub joins_by_token : Bool
  pub has_node_refs : Bool
  pub is_machine_pool : Bool
  pub control_plane_initialized : Bool
  pub is_control_plane_machine : Bool
  pub has_init_configuration : Bool
  pub has_cluster_configuration : Bool

pub data Action : Type 0 where
  wait_for_infrastructure take_over_secret refresh rotate done : Action
  initialize join_control_plane join_worker : Action

-- The status is ready: a token that is not used yet is kept fresh.
unfoldable pub when_ready : Scope → Action
when_ready s =
    if not s.joins_by_token
    then done
    else if not s.has_node_refs
    then refresh
    else if s.is_machine_pool
    then rotate
    else done

-- Reconcile, from the switch on.
unfoldable pub choose : Scope → Action
choose s =
    if not s.infrastructure_ready
    then wait_for_infrastructure
    else if s.owner_has_secret && (not s.status_ready || not s.status_has_secret)
    then take_over_secret
    else if s.status_ready
    then when_ready s
    else if not s.control_plane_initialized
    then initialize
    else if s.is_control_plane_machine
    then join_control_plane
    else join_worker

-- The calls of an initialization, and what it returns: an empty result, a delay or an error.
pub data InitCall : Type 0 where
  lock_init store_data unlock_init : InitCall

pub data InitResult : Type 0 where
  initialized waiting init_failed : InitResult

-- storeBootstrapData comes last; whatever fails, the deferred function unlocks.
unfoldable pub initialize_locked : Bool → Bool → List InitCall × InitResult
initialize_locked generated stored =
    if not generated
    then (unlock_init ∷ [], init_failed)
    else if not stored
    then (store_data ∷ unlock_init ∷ [], init_failed)
    else (store_data ∷ [], initialized)

-- handleClusterNotInitialized. The owner converts to a machine where `is_machine` holds.
unfoldable pub handle_cluster_not_initialized :
    Scope → Bool → Bool → Bool → Bool → List InitCall × InitResult
handle_cluster_not_initialized s is_machine locked generated stored =
    if not s.is_control_plane_machine
    then ([], waiting)
    else if not s.has_init_configuration && not s.has_cluster_configuration
    then ([], waiting)
    else if not is_machine
    then ([], init_failed)
    else if not locked
    then (lock_init ∷ [], waiting)
    else (
      lock_init ∷ (initialize_locked generated stored).0,
      (initialize_locked generated stored).1,
    )
