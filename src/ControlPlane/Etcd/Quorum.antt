-- ===== src/ControlPlane/Etcd/Quorum.antt =====
-- The count of members against the members that are left and healthy.
use cluster_api_provider_ocn.Base.{
  ◌+◌, ◌*◌, ◌<◌, String, ◌≡◌, ◌↔◌, true, not, ◌&&◌, List, [], ◌∷◌, length, filter, arith,
}
use cluster_api_provider_ocn.Machines.{Machine}
use cluster_api_provider_ocn.Machines.Collection.{Machines}
use cluster_api_provider_ocn.ControlPlane.Etcd.{
  hosts, is_healthy_member, Projection, count_member, project_members, has_quorum, keeps_quorum,
}

-- The members that stay when the machine is removed.
abbrev pub remaining : Machine → List String → List String
remaining removed = filter (λ member. not (hosts member removed))

-- Those of them that are healthy.
abbrev pub healthy_members : Machine → Machines → List String → List String
healthy_members removed ms =
    filter (λ member. not (hosts member removed) && is_healthy_member ms member)

project_members-counts :
    (removed : Machine) (ms : Machines) (members : List String) (p : Projection)
    → ((project_members removed ms members p).total ≡ p.total + length (remaining removed members))
      × ((project_members removed ms members p).total + p.unhealthy
          ≡ (project_members removed ms members p).unhealthy
            + p.total
            + length (healthy_members removed ms members))
unfolding project_members count_member
project_members-counts removed ms [] p = (omega arith, omega arith)
project_members-counts removed ms (member ∷ members) p =
    let rest = project_members-counts removed ms members (count_member removed ms member p) in
    ground (arith, rest)

-- The member of a machine may be removed exactly if more than half of the members that stay are
-- healthy, where a member without a machine is not.
pub keeps_quorum-majority :
    (removed : Machine) (ms : Machines) (members : List String)
    → (keeps_quorum removed ms members ≡ true)
      ↔ (length (remaining removed members) < 2 * length (healthy_members removed ms members))
unfolding keeps_quorum has_quorum
keeps_quorum-majority removed ms members =
    let counts = project_members-counts removed ms members (record { total = 0; unhealthy = 0 }) in
    (λ h. ground (arith, counts), λ h. ground (arith, counts))
