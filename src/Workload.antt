-- ===== src/Workload.antt =====
-- controlplane/ocne/internal: workload_cluster_etcd.go, etcd_client_generator.go and etcd/util, the
-- work on the members of etcd. EtcdApi is the etcd of a workload cluster: a connection through the
-- pod of a node may fail, and so may each call; what a call does when it succeeds is its law.

pub mod Reconciling
pub mod Leadership
use cluster_api_provider_ocn.Base.{
  ℕ, String, ◌≡◌, Bool, true, false, not, Option, none, some, List, [], ◌∷◌, ◌++◌, ◌==◌, ◌=ℕ◌, ltb,
  any, filter, map, length, if◌then◌else◌,
}
use cluster_api_provider_ocn.Machines.{Machine}

-- etcd.Member, by what is read of it.
pub record Member : Type 0 where
  pub id : ℕ
  pub name : String

pub record Etcd : Type 0 where
  pub members : List Member
  pub leader : ℕ

pub record EtcdApi : Type 0 where
  -- createClient, with the leader that Status reports.
  pub create_client : Etcd → String → Option ℕ
  -- MemberList through the client of a node.
  pub member_list : Etcd → String → Option (List Member)
  pub member_remove : Etcd → String → ℕ → Option Etcd
  pub move_leader : Etcd → String → ℕ → Option Etcd
  pub create_client-leader :
      (e : Etcd) (n : String) (l : ℕ) → create_client e n ≡ some l → l ≡ e.leader
  pub member_list-members :
      (e : Etcd) (n : String) (ms : List Member) → member_list e n ≡ some ms → ms ≡ e.members
  pub member_remove-members :
      (e t : Etcd) (n : String) (i : ℕ)
      → member_remove e n i ≡ some t
      → t.members ≡ filter (λ m. not (m.id =ℕ i)) e.members
  pub move_leader-members :
      (e t : Etcd) (n : String) (i : ℕ) → move_leader e n i ≡ some t → t.members ≡ e.members
  pub move_leader-leader :
      (e t : Etcd) (n : String) (i : ℕ) → move_leader e n i ≡ some t → t.leader ≡ i

-- etcd.Client: the node that it goes through, and LeaderID.
pub record Client : Type 0 where
  pub node : String
  pub leader_id : ℕ

pub data EtcdError : Type 0 where
  no_nodes control_plane_min_nodes no_client leader_unknown list_failed remove_failed : EtcdError
  no_candidate no_node_ref candidate_not_member move_failed config_map_failed : EtcdError

pub data Outcome : Type 0 where
  success : Outcome
  failure : EtcdError → Outcome

-- MemberForName
unfoldable pub member_for_name : List Member → String → Option Member
member_for_name [] name = none
member_for_name (m ∷ ms) name =
    let rest = member_for_name ms name in if m.name == name then some m else rest

-- The loop of getLeaderClient over the members.
unfoldable pub member_for_id : List Member → ℕ → Option Member
member_for_id [] i = none
member_for_id (m ∷ ms) i = let rest = member_for_id ms i in if m.id =ℕ i then some m else rest

-- A client; errEtcdNodeConnection, after which the next node is tried; or another error.
pub data LeaderClient : Type 0 where
  connected : Client → LeaderClient
  node_connection leader_error : LeaderClient

-- What removing a member for a node leaves.
pub record Removed : Type 0 where
  pub etcd : Etcd
  pub outcome : Outcome

-- What reconciling leaves: the names of the removed members, the number of errors.
pub record Reconciliation : Type 0 where
  pub etcd : Etcd
  pub removed_members : List String
  pub errors : ℕ

module _ (api : EtcdApi) where
  unfoldable pub for_first_available_node : Etcd → List String → Option Client
  for_first_available_node e [] = none
  for_first_available_node e (name ∷ names) =
      let rest = for_first_available_node e names in
      elim (api.create_client e name) [
        | none ↦ rest
        | some l ↦ some (record { node = name; leader_id = l })
      ]

  -- The leader is among the members, and hosted on a node: the client goes to that node.
  unfoldable pub client_of_leader : Etcd → List String → Option Member → LeaderClient
  client_of_leader e all_nodes none = leader_error
  client_of_leader e all_nodes (some m) =
      if not (any (λ n. n == m.name) all_nodes)
      then leader_error
      else elim (for_first_available_node e (m.name ∷ [])) [
        | none ↦ leader_error
        | some c ↦ connected c
      ]

  unfoldable pub get_leader_client : Etcd → String → List String → LeaderClient
  get_leader_client e name all_nodes = elim (for_first_available_node e (name ∷ [])) [
    | none ↦ node_connection
    | some c ↦ elim (api.member_list e c.node) [
      | none ↦ node_connection
      | some ms ↦ client_of_leader e all_nodes (member_for_id ms c.leader_id)
    ]
  ]

  -- The loop of forLeader over the nodes that are left.
  unfoldable pub try_nodes : Etcd → List String → List String → Option Client
  try_nodes e [] all_nodes = none
  try_nodes e (name ∷ names) all_nodes =
      let rest = try_nodes e names all_nodes in
      elim (get_leader_client e name all_nodes) [
        | connected c ↦ some c
        | node_connection ↦ rest
        | leader_error ↦ none
      ]

  unfoldable pub for_leader : Etcd → List String → Option Client
  for_leader e names = try_nodes e names names

  -- The names of the control plane nodes are `nodes`, none where they cannot be listed.
  module _ (nodes : Option (List String)) where
    unfoldable pub remove_found : Etcd → Client → Option Member → Removed
    remove_found e c none = record { etcd = e; outcome = success }
    remove_found e c (some m) = elim (api.member_remove e c.node m.id) [
      | none ↦ record { etcd = e; outcome = failure remove_failed }
      | some t ↦ record { etcd = t; outcome = success }
    ]

    unfoldable pub remove_through : Etcd → String → Option Client → Removed
    remove_through e name none = record { etcd = e; outcome = failure no_client }
    remove_through e name (some c) = elim (api.member_list e c.node) [
      | none ↦ record { etcd = e; outcome = failure list_failed }
      | some ms ↦ remove_found e c (member_for_name ms name)
    ]

    unfoldable pub remove_listed : Etcd → String → Option (List String) → Removed
    remove_listed e name none = record { etcd = e; outcome = failure no_nodes }
    remove_listed e name (some ns) =
        if ltb (length ns) 2
        then record { etcd = e; outcome = failure control_plane_min_nodes }
        else remove_through e name (for_first_available_node e (filter (λ n. not (n == name)) ns))

    unfoldable pub remove_member_for_node : Etcd → String → Removed
    remove_member_for_node e name = remove_listed e name nodes

    unfoldable pub remove_etcd_member_for_machine : Etcd → Option Machine → Removed
    remove_etcd_member_for_machine e none = record { etcd = e; outcome = success }
    remove_etcd_member_for_machine e (some m) = elim m.node_ref [
      | none ↦ record { etcd = e; outcome = success }
      | some node ↦ remove_member_for_node e node
    ]

    -- The members are listed, the machine's one is the leader, and the candidate's takes over.
    unfoldable pub move_to : Etcd → Client → Option Member → Removed
    move_to e c none = record { etcd = e; outcome = failure candidate_not_member }
    move_to e c (some next) = elim (api.move_leader e c.node next.id) [
      | none ↦ record { etcd = e; outcome = failure move_failed }
      | some t ↦ record { etcd = t; outcome = success }
    ]

    unfoldable pub forward_from : Etcd → Client → List Member → String → Option Member → Removed
    forward_from e c ms candidate none = record { etcd = e; outcome = success }
    forward_from e c ms candidate (some current) =
        if current.id =ℕ c.leader_id
        then move_to e c (member_for_name ms candidate)
        else record { etcd = e; outcome = success }

    unfoldable pub forward_through : Etcd → String → String → Option Client → Removed
    forward_through e node candidate none = record { etcd = e; outcome = failure no_client }
    forward_through e node candidate (some c) = elim (api.member_list e c.node) [
      | none ↦ record { etcd = e; outcome = failure list_failed }
      | some ms ↦ forward_from e c ms candidate (member_for_name ms node)
    ]

    unfoldable pub forward_between : Etcd → String → String → Removed
    forward_between e node candidate = elim nodes [
      | none ↦ record { etcd = e; outcome = failure no_nodes }
      | some ns ↦ forward_through e node candidate (for_leader e ns)
    ]

    unfoldable pub forward_to : Etcd → String → Option Machine → Removed
    forward_to e node none = record { etcd = e; outcome = failure no_candidate }
    forward_to e node (some candidate) = elim candidate.node_ref [
      | none ↦ record { etcd = e; outcome = failure no_node_ref }
      | some candidate_node ↦ forward_between e node candidate_node
    ]

    unfoldable pub forward_etcd_leadership : Etcd → Option Machine → Option Machine → Removed
    forward_etcd_leadership e none candidate = record { etcd = e; outcome = success }
    forward_etcd_leadership e (some m) candidate = elim m.node_ref [
      | none ↦ record { etcd = e; outcome = success }
      | some node ↦ forward_to e node candidate
    ]

    unfoldable pub etcd_members : Etcd → Option (List String)
    etcd_members e = elim nodes [
      | none ↦ none
      | some ns ↦ elim (for_leader e ns) [
        | none ↦ none
        | some c ↦ elim (api.member_list e c.node) [
          | none ↦ none
          | some ms ↦ some (map (λ m. m.name) ms)
        ]
      ]
    ]

    -- RemoveNodeFromOCNEConfigMap is `unconfigure`: whether it succeeds.
    module _ (unconfigure : String → Bool) where
      unfoldable pub count_errors : Outcome → Bool → ℕ → ℕ
      count_errors success true n = n
      count_errors success false n = Prim.Native.Nat.suc n
      count_errors (failure x) true n = Prim.Native.Nat.suc n
      count_errors (failure x) false n = Prim.Native.Nat.suc (Prim.Native.Nat.suc n)

      -- One round of the loop over the members that a client has listed.
      unfoldable pub reconcile_one : List String → Member → Reconciliation → Reconciliation
      reconcile_one names m r =
          let done = remove_member_for_node r.etcd m.name in
          if m.name == "" then r else if any (λ n. m.name == n) names then r else record {
            etcd = done.etcd;
            removed_members = r.removed_members ++ (m.name ∷ []);
            errors = count_errors done.outcome (unconfigure m.name) r.errors;
          }

      unfoldable pub reconcile_listed : List String → List Member → Reconciliation → Reconciliation
      reconcile_listed names [] r = r
      reconcile_listed names (m ∷ ms) r = reconcile_listed names ms (reconcile_one names m r)

      unfoldable pub reconcile_etcd_member : List String → String → Reconciliation → Reconciliation
      reconcile_etcd_member names name r = elim (for_first_available_node r.etcd (name ∷ [])) [
        | none ↦ r
        | some c ↦ elim (api.member_list r.etcd c.node) [
          | none ↦ r
          | some ms ↦ reconcile_listed names ms r
        ]
      ]

      unfoldable pub reconcile_nodes : List String → List String → Reconciliation → Reconciliation
      reconcile_nodes names [] r = r
      reconcile_nodes names (name ∷ rest) r =
          reconcile_nodes names rest (reconcile_etcd_member names name r)

      unfoldable pub reconcile_etcd_members : List String → Etcd → Reconciliation
      reconcile_etcd_members names e =
          reconcile_nodes names names (record { etcd = e; removed_members = []; errors = 0 })
