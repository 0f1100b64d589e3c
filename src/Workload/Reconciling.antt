-- ===== src/Workload/Reconciling.antt =====
-- Which members of etcd a reconciliation leaves.
use cluster_api_provider_ocn.Base.{
  ℕ, String, ◌≡◌, refl, sym, ap, ◌∙◌, subst, Bool, true, false, not, ◌||◌, Option, none, some, List,
  [], ◌∷◌, ◌==◌, ◌=ℕ◌, ltb, length, any, filter, All, All-In, All-mono, All-filter, In, inl, inr,
  arith, eq_iff, Bool-cases, Option-cases,
}
use cluster_api_provider_ocn.Workload.{
  Member, Etcd, EtcdApi, Client, Reconciliation, member_for_name, for_first_available_node,
  remove_found, remove_through, remove_listed, remove_member_for_node, reconcile_one,
  reconcile_listed, reconcile_etcd_member, reconcile_nodes, reconcile_etcd_members,
}

-- A member has a node, or has no name since it was just added.
abbrev pub is_kept_name : List String → String → Bool
is_kept_name names name = name == "" || any (λ n. name == n) names

abbrev pub is_kept : List String → Member → Bool
is_kept names m = is_kept_name names m.name

abbrev pub DistinctIds : List Member → Type 0
DistinctIds [] = Unit
DistinctIds (m ∷ ms) = All (λ n. (n.id =ℕ m.id) ≡ false) ms × DistinctIds ms

filter-DistinctIds :
    (p : Member → Bool) (ms : List Member) → DistinctIds ms → DistinctIds (filter p ms)
filter-DistinctIds p [] h = tt
filter-DistinctIds p (m ∷ ms) (a, h) = elim (Bool-cases (p m)) [
  | inl e ↦ rw e (All-filter (λ n. (n.id =ℕ m.id) ≡ false) p ms a, filter-DistinctIds p ms h)
  | inr e ↦ rw e (filter-DistinctIds p ms h)
]

member_for_name-In :
    (ms : List Member) (name : String) (x : Member)
    → member_for_name ms name ≡ some x
    → In x ms × (x.name ≡ name)
unfolding member_for_name
member_for_name-In [] name x h = cc h
member_for_name-In (m ∷ ms) name x h = elim (Bool-cases (m.name == name)) [
  | inl e ↦
      let q : m ≡ x = cc (rw e at h) in (inl q, ap (λ z. z.name) (sym q) ∙ (eq_iff m.name name).0 e)
  | inr e ↦ (let (i, n) = member_for_name-In ms name x (rw e at h) in (inr i, n))
]

module _ (names : List String) where
  -- No member that is kept has the id.
  abbrev Spares : ℕ → List Member → Type 0
  Spares i = All (λ m. is_kept names m ≡ true → (m.id =ℕ i) ≡ false)

  filter_spared :
      (i : ℕ) (ms : List Member)
      → Spares i ms
      → filter (is_kept names) (filter (λ m. not (m.id =ℕ i)) ms) ≡ filter (is_kept names) ms
  filter_spared i [] h = refl
  filter_spared i (m ∷ ms) (a, h) = elim (Bool-cases (m.id =ℕ i)) [
    | inl e ↦ elim (Bool-cases (is_kept names m)) [
      | inl k ↦ cc (a k, e)
      | inr k ↦ rw (e, k) (filter_spared i ms h)
    ]
    | inr e ↦ elim (Bool-cases (is_kept names m)) [
      | inl k ↦ rw (e, k, filter_spared i ms h)
      | inr k ↦ rw (e, k, filter_spared i ms h)
    ]
  ]

  found-Spares :
      (ms : List Member) (x : Member)
      → DistinctIds ms
      → In x ms
      → is_kept names x ≡ false
      → Spares x.id ms
  found-Spares [] x d i k = absurd i
  found-Spares (m ∷ ms) x (a, d) (inl e) k =
      (λ q. cc (q, k, e), All-mono (λ n. (n.id =ℕ m.id) ≡ false) _ ms (λ n h q. rw (← e) h) a)
  found-Spares (m ∷ ms) x (a, d) (inr i) k =
      let h = All-In (λ n. (n.id =ℕ m.id) ≡ false) x ms a i in
      (λ q. ground arith, found-Spares ms x d i k)

  -- The ids stay distinct, and the members that are kept stay, in their order.
  abbrev Keeps : Etcd → Etcd → Type 0
  Keeps e t =
      DistinctIds t.members × (filter (is_kept names) t.members ≡ filter (is_kept names) e.members)

  module _ (api : EtcdApi) where
    member_remove-Keeps :
        (e t : Etcd) (n : String) (x : Member)
        → DistinctIds e.members
        → In x e.members
        → is_kept names x ≡ false
        → api.member_remove e n x.id ≡ some t
        → Keeps e t
    member_remove-Keeps e t n x d i k h =
        let q = api.member_remove-members e t n x.id h in
        (
          subst DistinctIds (sym q) (filter-DistinctIds (λ m. not (m.id =ℕ x.id)) e.members d),
          ap (filter (is_kept names)) q
              ∙ filter_spared x.id e.members (found-Spares e.members x d i k),
        )

    module _ (nodes : Option (List String)) where
      remove_found-Keeps :
          (e : Etcd) (c : Client) (name : String) (o : Option Member)
          → member_for_name e.members name ≡ o
          → DistinctIds e.members
          → is_kept_name names name ≡ false
          → Keeps e (remove_found api nodes e c o).etcd
      unfolding remove_found
      remove_found-Keeps e c name none f d k = (d, refl)
      remove_found-Keeps e c name (some x) f d k =
          let (i, n) = member_for_name-In e.members name x f in
          let kx : is_kept names x ≡ false = rw n k in
          elim (Option-cases (api.member_remove e c.node x.id)) [
            | inl h ↦ rw (h, remove_found) (d, refl)
            | inr (t, h) ↦ rw (h, remove_found) (member_remove-Keeps e t c.node x d i kx h)
          ]

      remove_through-Keeps :
          (e : Etcd) (name : String) (o : Option Client)
          → DistinctIds e.members
          → is_kept_name names name ≡ false
          → Keeps e (remove_through api nodes e name o).etcd
      unfolding remove_through
      remove_through-Keeps e name none d k = (d, refl)
      remove_through-Keeps e name (some c) d k = elim (Option-cases (api.member_list e c.node)) [
        | inl h ↦ rw (h, remove_through) (d, refl)
        | inr (ms, h) ↦
            rw (h, remove_through)
              (remove_found-Keeps e c name (member_for_name ms name)
                (ap (λ l. member_for_name l name) (sym (api.member_list-members e c.node ms h))) d
                k)
      ]

      remove_listed-Keeps :
          (e : Etcd) (name : String) (o : Option (List String))
          → DistinctIds e.members
          → is_kept_name names name ≡ false
          → Keeps e (remove_listed api nodes e name o).etcd
      unfolding remove_listed
      remove_listed-Keeps e name none d k = (d, refl)
      remove_listed-Keeps e name (some ns) d k = elim (Bool-cases (ltb (length ns) 2)) [
        | inl b ↦ rw b (d, refl)
        | inr b ↦ rw b (remove_through-Keeps e name _ d k)
      ]

      remove_member_for_node-Keeps :
          (e : Etcd) (name : String)
          → DistinctIds e.members
          → is_kept_name names name ≡ false
          → Keeps e (remove_member_for_node api nodes e name).etcd
      unfolding remove_member_for_node
      remove_member_for_node-Keeps e name d k = remove_listed-Keeps e name nodes d k

      Keeps-trans : (e t u : Etcd) → Keeps e t → Keeps t u → Keeps e u
      Keeps-trans e t u h k = (k.0, k.1 ∙ h.1)

      module _ (unconfigure : String → Bool) where
        reconcile_one-Keeps :
            (m : Member) (r : Reconciliation)
            → DistinctIds r.etcd.members
            → Keeps r.etcd (reconcile_one api nodes unconfigure names m r).etcd
        unfolding reconcile_one
        reconcile_one-Keeps m r d = elim (Bool-cases (m.name == "")) [
          | inl a ↦ rw a (d, refl)
          | inr a ↦ elim (Bool-cases (any (λ n. m.name == n) names)) [
            | inl b ↦ rw (a, b) (d, refl)
            | inr b ↦ rw (a, b) (remove_member_for_node-Keeps r.etcd m.name d (rw (a, b) refl))
          ]
        ]

        reconcile_listed-Keeps :
            (ms : List Member) (r : Reconciliation)
            → DistinctIds r.etcd.members
            → Keeps r.etcd (reconcile_listed api nodes unconfigure names ms r).etcd
        unfolding reconcile_listed
        reconcile_listed-Keeps [] r d = (d, refl)
        reconcile_listed-Keeps (m ∷ ms) r d =
            let h = reconcile_one-Keeps m r d in
            Keeps-trans r.etcd (reconcile_one api nodes unconfigure names m r).etcd
              (reconcile_listed api nodes unconfigure names ms
                (reconcile_one api nodes unconfigure names m r)).etcd
              h (reconcile_listed-Keeps ms (reconcile_one api nodes unconfigure names m r) h.0)

        reconcile_etcd_member-Keeps :
            (name : String) (r : Reconciliation)
            → DistinctIds r.etcd.members
            → Keeps r.etcd (reconcile_etcd_member api nodes unconfigure names name r).etcd
        unfolding reconcile_etcd_member
        reconcile_etcd_member-Keeps name r d =
            elim (Option-cases (for_first_available_node api r.etcd (name ∷ []))) [
              | inl h ↦ rw (h, reconcile_etcd_member) (d, refl)
              | inr (c, h) ↦ elim (Option-cases (api.member_list r.etcd c.node)) [
                | inl q ↦ rw (h, reconcile_etcd_member, q) (d, refl)
                | inr (ms, q) ↦ rw (h, reconcile_etcd_member, q) (reconcile_listed-Keeps ms r d)
              ]
            ]

        reconcile_nodes-Keeps :
            (rest : List String) (r : Reconciliation)
            → DistinctIds r.etcd.members
            → Keeps r.etcd (reconcile_nodes api nodes unconfigure names rest r).etcd
        unfolding reconcile_nodes
        reconcile_nodes-Keeps [] r d = (d, refl)
        reconcile_nodes-Keeps (name ∷ rest) r d =
            let h = reconcile_etcd_member-Keeps name r d in
            Keeps-trans r.etcd (reconcile_etcd_member api nodes unconfigure names name r).etcd
              (reconcile_nodes api nodes unconfigure names rest
                (reconcile_etcd_member api nodes unconfigure names name r)).etcd
              h
              (reconcile_nodes-Keeps rest (reconcile_etcd_member api nodes unconfigure names name r)
                h.0)

        -- Whatever fails on the way, reconciling the members of distinct ids leaves every member that
        -- has a node, and every one that has no name yet, in the order in which they stood.
        pub reconcile_etcd_members-keeps :
            (e : Etcd)
            → DistinctIds e.members
            → filter
                (is_kept names)
                (reconcile_etcd_members api nodes unconfigure names e).etcd.members
              ≡ filter (is_kept names) e.members
        unfolding reconcile_etcd_members
        reconcile_etcd_members-keeps e d = (reconcile_nodes-Keeps names _ d).1
