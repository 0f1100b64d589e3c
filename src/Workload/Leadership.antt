-- ===== src/Workload/Leadership.antt =====
-- Who leads etcd after the leadership is forwarded.
use cluster_api_provider_ocn.Base.{
  String, ◌≡◌, refl, subst, false, Option, none, some, List, [], ◌∷◌, ◌=ℕ◌, arith, Bool-cases,
  Option-cases, inl, inr,
}
use cluster_api_provider_ocn.Machines.{Machine}
use cluster_api_provider_ocn.Workload.{
  Member, Etcd, EtcdApi, Client, success, connected, member_for_name, member_for_id,
  for_first_available_node, client_of_leader, get_leader_client, try_nodes, for_leader, move_to,
  forward_from, forward_through, forward_between, forward_to, forward_etcd_leadership,
}

module _ (api : EtcdApi) (e : Etcd) where
  first-leader :
      (names : List String) (c : Client)
      → for_first_available_node api e names ≡ some c
      → c.leader_id ≡ e.leader
  unfolding for_first_available_node
  first-leader [] c h = cc h
  first-leader (name ∷ names) c h = elim (Option-cases (api.create_client e name)) [
    | inl q ↦ first-leader names c (rw (q, for_first_available_node) at h)
    | inr (l, q) ↦ (let r = api.create_client-leader e name l q in ground (arith, r, h, q))
  ]

  client_of_leader-leader :
      (all_nodes : List String) (o : Option Member) (c : Client)
      → client_of_leader api e all_nodes o ≡ connected c
      → c.leader_id ≡ e.leader
  unfolding client_of_leader
  client_of_leader-leader all_nodes none c h = cc h
  client_of_leader-leader all_nodes (some m) c h =
      elim (Option-cases (for_first_available_node api e (m.name ∷ []))) [
        | inl q ↦ ground (arith, h, q)
        | inr (d, q) ↦ ground (arith, h, q, first-leader (m.name ∷ []) d)
      ]

  get_leader_client-leader :
      (name : String) (all_nodes : List String) (c : Client)
      → get_leader_client api e name all_nodes ≡ connected c
      → c.leader_id ≡ e.leader
  unfolding get_leader_client
  get_leader_client-leader name all_nodes c h =
      elim (Option-cases (for_first_available_node api e (name ∷ []))) [
        | inl q ↦ ground (arith, h, q)
        | inr (d, q) ↦ elim (Option-cases (api.member_list e d.node)) [
          | inl r ↦ ground (arith, h, q, r)
          | inr (ms, r) ↦
              client_of_leader-leader all_nodes (member_for_id ms d.leader_id) c
                (ground (arith, h, q, r))
        ]
      ]

  try_nodes-leader :
      (names all_nodes : List String) (c : Client)
      → try_nodes api e names all_nodes ≡ some c
      → c.leader_id ≡ e.leader
  unfolding try_nodes
  try_nodes-leader [] all_nodes c h = cc h
  try_nodes-leader (name ∷ names) all_nodes c h =
      ground (arith, get_leader_client-leader name all_nodes c, try_nodes-leader names all_nodes c)

  module _ (nodes : Option (List String)) (x y : Member) (apart : (x.id =ℕ y.id) ≡ false) where
    -- The member does not lead, and no member has come or gone.
    abbrev NotLeader : Etcd → Type 0
    NotLeader t = ((x.id =ℕ t.leader) ≡ false) × (t.members ≡ e.members)

    move_to-NotLeader :
        (c : Client)
        → (move_to api nodes e c (some y)).outcome ≡ success
        → NotLeader (move_to api nodes e c (some y)).etcd
    unfolding move_to
    move_to-NotLeader c h = elim (Option-cases (api.move_leader e c.node y.id)) [
      | inl q ↦ ground (arith, h, q)
      | inr (t, q) ↦
          rw (q, move_to)
            (
              rw (api.move_leader-leader e t c.node y.id q) apart,
              api.move_leader-members e t c.node y.id q,
            )
    ]

    forward_from-NotLeader :
        (c : Client) (ms : List Member) (candidate : String)
        → c.leader_id ≡ e.leader
        → member_for_name ms candidate ≡ some y
        → (forward_from api nodes e c ms candidate (some x)).outcome ≡ success
        → NotLeader (forward_from api nodes e c ms candidate (some x)).etcd
    unfolding forward_from
    forward_from-NotLeader c ms candidate l f h = elim (Bool-cases (x.id =ℕ c.leader_id)) [
      | inl q ↦ rw (q, f) (move_to-NotLeader c (rw (q, f) at h))
      | inr q ↦ rw q (subst (λ z. (x.id =ℕ z) ≡ false) l q, refl)
    ]

    forward_through-NotLeader :
        (node candidate : String) (o : Option Client)
        → ((c : Client) → o ≡ some c → c.leader_id ≡ e.leader)
        → member_for_name e.members node ≡ some x
        → member_for_name e.members candidate ≡ some y
        → (forward_through api nodes e node candidate o).outcome ≡ success
        → NotLeader (forward_through api nodes e node candidate o).etcd
    unfolding forward_through
    forward_through-NotLeader node candidate none l f g h = cc h
    forward_through-NotLeader node candidate (some c) l f g h =
        elim (Option-cases (api.member_list e c.node)) [
          | inl q ↦ ground (arith, h, q)
          | inr (ms, q) ↦
              let r = api.member_list-members e c.node ms q in
              let f' : member_for_name ms node ≡ some x = rw r f in
              rw (q, forward_through, f')
                (forward_from-NotLeader c ms candidate (l c refl) (rw r g)
                  (rw (q, forward_through, f') at h))
        ]

    forward_between-NotLeader :
        (node candidate : String)
        → member_for_name e.members node ≡ some x
        → member_for_name e.members candidate ≡ some y
        → (forward_between api nodes e node candidate).outcome ≡ success
        → NotLeader (forward_between api nodes e node candidate).etcd
    unfolding forward_between for_leader
    forward_between-NotLeader node candidate f g h = elim (Option-cases nodes) [
      | inl q ↦ ground (arith, h, q)
      | inr (ns, q) ↦
          rw (q, forward_between)
            (forward_through-NotLeader node candidate (try_nodes api e ns ns)
              (λ c t. try_nodes-leader ns ns c t) f g (rw (q, forward_between) at h))
    ]

    -- When forwarding the leadership from a machine to another one succeeds, where both machines
    -- have nodes whose members have different ids, the machine's member does not lead etcd any
    -- more, and no member has come or gone.
    pub forward_etcd_leadership-NotLeader :
        (m candidate : Machine) (node candidate_node : String)
        → m.node_ref ≡ some node
        → candidate.node_ref ≡ some candidate_node
        → member_for_name e.members node ≡ some x
        → member_for_name e.members candidate_node ≡ some y
        → (forward_etcd_leadership api nodes e (some m) (some candidate)).outcome ≡ success
        → ((x.id =ℕ (forward_etcd_leadership api nodes e (some m) (some candidate)).etcd.leader)
            ≡ false)
          × ((forward_etcd_leadership api nodes e (some m) (some candidate)).etcd.members
              ≡ e.members)
    unfolding forward_etcd_leadership forward_to
    forward_etcd_leadership-NotLeader m candidate node candidate_node a b f g h =
        rw (a, forward_etcd_leadership, b)
          (forward_between-NotLeader node candidate_node f g
            (rw (a, forward_etcd_leadership, b) at h))
