-- ===== src/ControlPlane/Etcd.antt =====
-- controlplane/ocne/internal/controllers/remediation.go: canSafelyRemoveEtcdMember, whether etcd
-- keeps its quorum without the member of a machine.
pub mod Quorum
use cluster_api_provider_ocn.Base.{
  ℕ, ◌+◌, ◌-◌, ◌/◌, String, Bool, true, false, Option, none, some, List, [], ◌∷◌, ◌==◌, leb,
  if◌then◌else◌,
}
use cluster_api_provider_ocn.Conditions.Getter.{is_true}
use cluster_api_provider_ocn.Machines.{Machine}
use cluster_api_provider_ocn.Machines.Collection.{Machines}
use cluster_api_provider_ocn.ControlPlane.Scaling.{
  Failure, no_workload_cluster, no_etcd_members, Remote, etcd_member_healthy,
}

-- NodeRef is set, and names the member.
unfoldable pub hosts : String → Machine → Bool
hosts member m = elim m.node_ref [ none ↦ false | some node ↦ node == member ]

-- The first machine that hosts the member.
unfoldable pub machine_of_member : Machines → String → Option Machine
machine_of_member [] member = none
machine_of_member (m ∷ ms) member =
    let rest = machine_of_member ms member in if hosts member m then some m else rest

-- A member without a machine counts as unhealthy.
unfoldable pub is_healthy_member : Machines → String → Bool
is_healthy_member ms member = elim (machine_of_member ms member) [
  | none ↦ false
  | some m ↦ is_true m.object etcd_member_healthy
]

-- targetTotalMembers and targetUnhealthyMembers.
pub record Projection : Type 0 where
  pub total : ℕ
  pub unhealthy : ℕ

unfoldable pub count_member : Machine → Machines → String → Projection → Projection
count_member removed ms member p =
    if hosts member removed
    then p
    else if is_healthy_member ms member
    then record { total = p.total + 1; unhealthy = p.unhealthy }
    else record { total = p.total + 1; unhealthy = p.unhealthy + 1 }

unfoldable pub project_members : Machine → Machines → List String → Projection → Projection
project_members removed ms [] p = p
project_members removed ms (member ∷ members) p =
    project_members removed ms members (count_member removed ms member p)

-- The healthy members left reach the quorum of the members left.
unfoldable pub has_quorum : Projection → Bool
has_quorum p = leb (p.total / 2 + 1) (p.total - p.unhealthy)

unfoldable pub keeps_quorum : Machine → Machines → List String → Bool
keeps_quorum removed ms members =
    has_quorum (project_members removed ms members (record { total = 0; unhealthy = 0 }))

-- A Boolean with its error.
pub data Checked : Type 0 where
  unchecked : Failure → Checked
  checked : Bool → Checked

unfoldable pub can_safely_remove_etcd_member : Remote → Machines → Machine → Checked
can_safely_remove_etcd_member remote ms removed =
    if remote.workload_cluster
    then elim remote.etcd_members [
      | none ↦ unchecked no_etcd_members
      | some members ↦ checked (keeps_quorum removed ms members)
    ]
    else unchecked no_workload_cluster
