-- ===== src/Examples/WorkloadRuns.antt =====
-- The theorems of the members of etcd at three members and two nodes.
use cluster_api_provider_ocn.Base.{
  String, ◌≡◌, refl, ◌=ℕ◌, some, List, [], ◌∷◌, not, true, false, filter, ap, sym,
}
use cluster_api_provider_ocn.Machines.{Machine}
use cluster_api_provider_ocn.Workload.{
  Member, Etcd, EtcdApi, success, member_for_name, forward_etcd_leadership, reconcile_etcd_members,
}
use cluster_api_provider_ocn.Workload.Reconciling.{is_kept, reconcile_etcd_members-keeps}
use cluster_api_provider_ocn.Workload.Leadership.{forward_etcd_leadership-NotLeader}
use cluster_api_provider_ocn.Examples.MachineData.{m1, m2}

some-injective : {A : Type 0} (a b : A) → some a ≡ some b → a ≡ b
some-injective a b h = cc h

-- An etcd that answers every call.
abbrev ready_etcd : EtcdApi
ready_etcd = record {
  create_client = λ e n. some e.leader;
  member_list = λ e n. some e.members;
  member_remove = λ e n i. some (record e { members = filter (λ m. not (m.id =ℕ i)) e.members });
  move_leader = λ e n i. some (record e { leader = i });
  create_client-leader = λ e n l h. some-injective l e.leader (sym h);
  member_list-members = λ e n ms h. some-injective ms e.members (sym h);
  member_remove-members = λ e t n i h. ap (λ z. z.members) (some-injective t _ (sym h));
  move_leader-members = λ e t n i h. ap (λ z. z.members) (some-injective t _ (sym h));
  move_leader-leader = λ e t n i h. ap (λ z. z.leader) (some-injective t _ (sym h));
}

abbrev member_1 : Member
member_1 = record { id = 1; name = "node-1" }

abbrev member_2 : Member
member_2 = record { id = 2; name = "node-2" }

-- No node has this member.
abbrev stray : Member
stray = record { id = 3; name = "node-9" }

abbrev etcd : Etcd
etcd = record { members = member_1 ∷ stray ∷ member_2 ∷ []; leader = 1 }

abbrev node_names : List String
node_names = "node-1" ∷ "node-2" ∷ []

reconcile_etcd_members-keeps_example :
    filter
      (is_kept node_names)
      (reconcile_etcd_members ready_etcd (some node_names) (λ n. true) node_names etcd).etcd.members
    ≡ member_1 ∷ member_2 ∷ []
reconcile_etcd_members-keeps_example =
    reconcile_etcd_members-keeps node_names ready_etcd (some node_names) (λ n. true) etcd
      ((refl, (refl, tt)), ((refl, tt), (tt, tt)))

abbrev candidate : Machine
candidate = record m2 { node_ref = some "node-2" }

forward_etcd_leadership-NotLeader_example :
    ((1
        =ℕ (forward_etcd_leadership ready_etcd
            (some node_names)
            etcd
            (some (record m1 { node_ref = some "node-1" }))
            (some candidate)).etcd.leader)
      ≡ false)
    × ((forward_etcd_leadership ready_etcd
          (some node_names)
          etcd
          (some (record m1 { node_ref = some "node-1" }))
          (some candidate)).etcd.members
        ≡ etcd.members)
unfolding member_for_name forward_etcd_leadership cluster_api_provider_ocn.Workload.forward_to
    cluster_api_provider_ocn.Workload.forward_between
    cluster_api_provider_ocn.Workload.forward_through cluster_api_provider_ocn.Workload.for_leader
    cluster_api_provider_ocn.Workload.try_nodes cluster_api_provider_ocn.Workload.get_leader_client
    cluster_api_provider_ocn.Workload.for_first_available_node
    cluster_api_provider_ocn.Workload.client_of_leader
    cluster_api_provider_ocn.Workload.member_for_id cluster_api_provider_ocn.Workload.forward_from
    cluster_api_provider_ocn.Workload.move_to
forward_etcd_leadership-NotLeader_example =
    forward_etcd_leadership-NotLeader ready_etcd etcd (some node_names) member_1 member_2 refl
      (record m1 { node_ref = some "node-1" }) candidate "node-1" "node-2" refl refl refl refl refl
