-- ===== src/ControlPlane/Selection.antt =====
-- The choice of the machine that a scale down deletes.
use cluster_api_provider_ocn.Base.{
  false, ◌≡◌, ◌≢◌, ap, ◌∙◌, sym, subst, true, false, none, some, List, [], ◌∷◌, arith, In, filter,
  All-In, filter-nil, In-filter_left, In-filter_right, Option-cases, inl, inr,
}
use cluster_api_provider_ocn.Meta.{TimeApi}
use cluster_api_provider_ocn.Machines.{
  Machine, and_filter, not_filter, in_failure_domains, same_failure_domain,
}
use cluster_api_provider_ocn.Machines.Collection.{Machines, oldest}
use cluster_api_provider_ocn.Machines.Collection.Filtering.{DistinctNames, filter_machines-filter}
use cluster_api_provider_ocn.Machines.Oldest.{
  NotAfter, IsOlder, NotAfter-IsOlder, oldest-first, oldest-none,
}
use cluster_api_provider_ocn.FailureDomains.{pick_most}
use cluster_api_provider_ocn.FailureDomains.Counting.{DistinctDomains}
use cluster_api_provider_ocn.FailureDomains.Most.{pick_most-greatest}
use cluster_api_provider_ocn.ControlPlane.{
  ControlPlane, DomainApi, not_in_failure_domains, machine_in_failure_domain_with_most_machines,
}
use cluster_api_provider_ocn.ControlPlane.Domains.{
  domain, control_plane_domains, in_known, outside, all_known, domain_of_outsider, domain_of_most,
  pick_most_exists, IsChosen, outsider-IsChosen, most-IsChosen, same_failure_domain_refl,
  same_failure_domain_eq, single_domain, In-has_machine_in,
}

module _ ⦃time : TimeApi⦄ (api : DomainApi) (c : ControlPlane) (ms : Machines) where
  abbrev same_domain : List Machine
  same_domain =
      filter (λ x. and_filter (in_failure_domains ((domain api c ms) ∷ []) ∷ []) (some x)) ms

  picked :
      DistinctNames ms → machine_in_failure_domain_with_most_machines api c ms ≡ oldest same_domain
  unfolding machine_in_failure_domain_with_most_machines
  picked d =
      ap oldest (filter_machines-filter ms (in_failure_domains ((domain api c ms) ∷ []) ∷ []) d)

  -- With no machine picked, no machine is in the chosen domain.
  none-In-domain :
      DistinctNames ms
      → machine_in_failure_domain_with_most_machines api c ms ≡ none
      → (m : Machine) → In m ms
      → same_failure_domain (domain api c ms) m.failure_domain ≢ true
  none-In-domain d e m i t = ground (
    arith,
    All-In (λ x. and_filter (in_failure_domains ((domain api c ms) ∷ []) ∷ []) (some x) ≡ false) m
        ms
        (filter-nil (λ x. and_filter (in_failure_domains ((domain api c ms) ∷ []) ∷ []) (some x)) ms
          (oldest-none same_domain (sym (picked d) ∙ e)))
        i,
    single_domain (domain api c ms) m,
  )

  -- The machine that is picked from machines of distinct names, with distinct failure domains, is one
  -- of them. If some have no failure domain or one that is not for control planes, it lies in the
  -- domain of the oldest of those. If none has, it lies in the domain among theirs with the most
  -- machines of the control plane. No other of them in its domain is older: it was created before, or
  -- at the same time and its name is not the greater one.
  pub scale_down_choice-oldest :
      (m : Machine)
      → DistinctNames ms
      → DistinctDomains c.status_failure_domains
      → machine_in_failure_domain_with_most_machines api c ms ≡ some m
      → (In m ms)
        × (IsChosen api c ms) m.failure_domain
        × ((x : Machine) → In x ms → x.failure_domain ≡ m.failure_domain → IsOlder m x)
  scale_down_choice-oldest m d f e =
      let (i, first) = oldest-first same_domain m (sym (picked d) ∙ e) in
      let (j, t) =
        In-filter_left (λ x. and_filter (in_failure_domains ((domain api c ms) ∷ []) ∷ []) (some x))
          m ms i in
      let same : (domain api c ms) ≡ m.failure_domain =
        same_failure_domain_eq (domain api c ms) m.failure_domain
          (sym (single_domain (domain api c ms) m) ∙ t) in
      (
        j,
        subst (IsChosen api c ms) same
            (elim (Option-cases (oldest (not_in_failure_domains api c ms))) [
              | inr (x, q) ↦ (outsider-IsChosen api c ms) d x q
              | inl q ↦
                  elim (Option-cases (pick_most (control_plane_domains api c ms) c.machines ms)) [
                    | inl r ↦ absurd (
                        (pick_most_exists api c ms) m f j
                          ((all_known api c ms) d (oldest-none (not_in_failure_domains api c ms) q)
                            m j)
                          r)
                    | inr (id, r) ↦ (most-IsChosen api c ms) d f q id r
                  ]
            ]),
        λ x k u. NotAfter-IsOlder m x (
            All-In (NotAfter m) x same_domain first (
              In-filter_right
                (λ y. and_filter (in_failure_domains ((domain api c ms) ∷ []) ∷ []) (some y)) x ms k
                (single_domain (domain api c ms) x
                  ∙ subst (λ z. same_failure_domain (domain api c ms) z ≡ true) (same ∙ sym u)
                      (same_failure_domain_refl (domain api c ms))))),
      )

  chosen_has_machine :
      DistinctDomains c.status_failure_domains
      → DistinctNames ms
      → (m : Machine) → In m ms
      → (x : Machine) × (In x ms) × (same_failure_domain (domain api c ms) x.failure_domain ≡ true)
  chosen_has_machine f d m i = elim (Option-cases (oldest (not_in_failure_domains api c ms))) [
    | inl e ↦ (elim (Option-cases (pick_most (control_plane_domains api c ms) c.machines ms)) [
      | inl q ↦ absurd (
          (pick_most_exists api c ms) m f i
            ((all_known api c ms) d (oldest-none (not_in_failure_domains api c ms) e) m i) q)
      | inr (id, q) ↦
          (let found =
              (pick_most-greatest ms (control_plane_domains api c ms) c.machines id
                (api.filter_distinct c.status_failure_domains f) q).1 in
            let (x, j, t) = In-has_machine_in id ms found in
            (x, j, rw ((domain_of_most api c ms) e ∙ q) t))
    ])
    | inr (x, e) ↦
        (let j =
            (In-filter_left (λ y. and_filter (not_filter (in_known api c ms) ∷ []) (some y)) x ms
              (subst (In x) ((outside api c ms) d)
                (oldest-first (not_in_failure_domains api c ms) x e).0)).0 in
          (
            x,
            j,
            rw ((domain_of_outsider api c ms) x e) (same_failure_domain_refl x.failure_domain),
          ))
  ]

  -- From machines of distinct names, of which there is one, and with distinct failure domains, a
  -- machine is always picked.
  pub scale_down_choice_total :
      (m : Machine)
      → DistinctNames ms
      → DistinctDomains c.status_failure_domains
      → In m ms
      → machine_in_failure_domain_with_most_machines api c ms ≢ none
  scale_down_choice_total m d f i e =
      let (x, j, t) = chosen_has_machine f d m i in none-In-domain d e x j t
