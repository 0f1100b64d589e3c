-- ===== src/ControlPlane/Domains.antt =====
-- The failure domain from which a scale down picks, by the machines in it: control_plane.go,
-- FailureDomainWithMostMachines.
use cluster_api_provider_ocn.Base.{
  not, ◌⊎◌, false, ◌≤◌, String, ◌≡◌, ◌≢◌, refl, ap, ◌∙◌, sym, subst, true, false, Option, none,
  some, [], ◌∷◌, ◌==◌, eq_iff, eq_refl, arith, In, filter, any-Any, any-false, All-In, filter-nil,
  In-filter_left, In-filter_right, Bool-cases, Option-cases, inl, inr,
}
use cluster_api_provider_ocn.Meta.{TimeApi}
use cluster_api_provider_ocn.Machines.{
  Machine, Func, and_filter, not_filter, in_failure_domains, same_failure_domain,
}
use cluster_api_provider_ocn.Machines.Collection.{Machines, oldest}
use cluster_api_provider_ocn.Machines.Collection.Filtering.{DistinctNames, filter_machines-filter}
use cluster_api_provider_ocn.Machines.Oldest.{
  NotAfter, IsOlder, NotAfter-IsOlder, oldest-first, oldest-none,
}
use cluster_api_provider_ocn.FailureDomains.{FailureDomains, is_known, has_machine_in, pick_most}
use cluster_api_provider_ocn.FailureDomains.Counting.{DistinctDomains, machines_in}
use cluster_api_provider_ocn.FailureDomains.Most.{pick_most-greatest, pick_most-none}
use cluster_api_provider_ocn.ControlPlane.{
  ControlPlane, DomainApi, not_in_failure_domains, failure_domain_with_most_machines,
}

pub same_failure_domain_refl : (d : Option String) → same_failure_domain d d ≡ true
unfolding same_failure_domain
same_failure_domain_refl none = refl
same_failure_domain_refl (some d) = eq_refl d

pub same_failure_domain_eq : (d e : Option String) → same_failure_domain d e ≡ true → d ≡ e
unfolding same_failure_domain
same_failure_domain_eq none none h = refl
same_failure_domain_eq none (some e) h = cc h
same_failure_domain_eq (some d) none h = cc h
same_failure_domain_eq (some d) (some e) h = ap (λ z. some z) ((eq_iff d e).0 h)

pub single_domain :
    (d : Option String) (m : Machine)
    → and_filter (in_failure_domains (d ∷ []) ∷ []) (some m)
      ≡ same_failure_domain d m.failure_domain
unfolding and_filter in_failure_domains
single_domain d m = ground arith

-- A machine in a domain shows that the domain has one.
has_machine_in-In :
    (id : String) (m : Machine) (ms : Machines)
    → In m ms
    → m.failure_domain ≡ some id
    → has_machine_in id ms ≡ true
unfolding has_machine_in
has_machine_in-In id m ms i e = elim (Bool-cases (has_machine_in id ms)) [
  | inl t ↦ t
  | inr f ↦ ground (
    arith,
    All-In (λ x. (elim x.failure_domain [ none ↦ false | some d ↦ d == id ]) ≡ false) m ms
        (any-false (λ x. elim x.failure_domain [ none ↦ false | some d ↦ d == id ]) ms f) i,
    eq_refl id,
  )
]

pub In-has_machine_in :
    (id : String) (ms : Machines)
    → has_machine_in id ms ≡ true
    → (m : Machine) × (In m ms) × (same_failure_domain (some id) m.failure_domain ≡ true)
unfolding has_machine_in same_failure_domain
In-has_machine_in id ms h =
    let (m, i, t) = any-Any (λ x. elim x.failure_domain [ none ↦ false | some d ↦ d == id ]) ms h in
    (m, i, in_domain m t)
  where
    in_domain :
        (m : Machine)
        → (elim m.failure_domain [ none ↦ false | some d ↦ d == id ]) ≡ true
        → same_failure_domain (some id) m.failure_domain ≡ true
    in_domain m t = elim (Option-cases m.failure_domain) [
      | inl e ↦ ground arith
      | inr (d, e) ↦ ground (arith, eq_iff d id, eq_iff id d)
    ]

module _ ⦃time : TimeApi⦄ (api : DomainApi) (c : ControlPlane) (ms : Machines) where
  abbrev pub domain : Option String
  domain = failure_domain_with_most_machines api c ms

  abbrev pub control_plane_domains : FailureDomains
  control_plane_domains = api.filter_control_plane c.status_failure_domains

  abbrev pub in_known : Func
  in_known = in_failure_domains (api.get_ids control_plane_domains)

  pub outside :
      DistinctNames ms
      → not_in_failure_domains api c ms
        ≡ filter (λ x. and_filter (not_filter in_known ∷ []) (some x)) ms
  unfolding not_in_failure_domains
  outside d = filter_machines-filter ms (not_filter in_known ∷ []) d

  pub all_known :
      DistinctNames ms
      → not_in_failure_domains api c ms ≡ []
      → (m : Machine) → In m ms
      → in_known (some m) ≡ true
  unfolding and_filter not_filter
  all_known d e m i = ground (
    arith,
    All-In (λ x. and_filter (not_filter in_known ∷ []) (some x) ≡ false) m ms
        (filter-nil (λ x. and_filter (not_filter in_known ∷ []) (some x)) ms (sym (outside d) ∙ e))
        i,
  )

  known_domain :
      (m : Machine)
      → in_known (some m) ≡ true
      → (id : String) × (m.failure_domain ≡ some id) × (is_known control_plane_domains id ≡ true)
  unfolding in_failure_domains
  known_domain m h = elim (Option-cases m.failure_domain) [
    | inl e ↦ ground (arith, api.get_ids-none control_plane_domains)
    | inr (id, e) ↦ (id, e, ground (arith, api.get_ids-some control_plane_domains id))
  ]

  pub domain_of_outsider :
      (x : Machine) → oldest (not_in_failure_domains api c ms) ≡ some x → domain ≡ x.failure_domain
  unfolding failure_domain_with_most_machines
  domain_of_outsider x e = ground arith

  pub domain_of_most :
      oldest (not_in_failure_domains api c ms) ≡ none
      → domain ≡ pick_most control_plane_domains c.machines ms
  unfolding failure_domain_with_most_machines
  domain_of_most e = ground arith

  -- A machine in a known domain: PickMost finds some domain.
  pub pick_most_exists :
      (m : Machine)
      → DistinctDomains c.status_failure_domains
      → In m ms
      → in_known (some m) ≡ true
      → pick_most control_plane_domains c.machines ms ≢ none
  unfolding is_known
  pick_most_exists m f i h e =
      let (id, q, known) = known_domain m h in
      let (fd, j, t) = any-Any (λ x. x.0 == id) control_plane_domains known in
      ground (
        arith,
        All-In (λ x. has_machine_in x.0 ms ≡ false) fd control_plane_domains
            (pick_most-none ms control_plane_domains c.machines
              (api.filter_distinct c.status_failure_domains f) e)
            j,
        has_machine_in-In id m ms i q,
        eq_iff fd.0 id,
      )

  -- A machine that has no failure domain, or one that the control plane does not know.
  abbrev pub IsOutside : Machine → Type 0
  IsOutside x =
      (x.failure_domain ≡ none)
      ⊎ ((id : String) × (x.failure_domain ≡ some id)
          × (is_known (api.filter_control_plane c.status_failure_domains) id ≡ false))

  abbrev pub IsInside : Machine → Type 0
  IsInside x =
      (id : String) × (x.failure_domain ≡ some id)
      × (is_known (api.filter_control_plane c.status_failure_domains) id ≡ true)

  -- The domain of the oldest machine outside the domains for control planes; or, where there is none
  -- outside, the domain that has the most machines of the control plane among the candidates' domains.
  abbrev pub IsChosen : Option String → Type 0
  IsChosen chosen =
      ((x : Machine) × (In x ms)
        × IsOutside x
        × ((y : Machine) → In y ms → IsOutside y → IsOlder x y)
        × (chosen ≡ x.failure_domain))
      ⊎ (((y : Machine) → In y ms → IsInside y)
          × ((id : String) × (chosen ≡ some id)
              × ((y : Machine) (k : String)
                  → In y ms
                  → y.failure_domain ≡ some k
                  → machines_in k c.machines ≤ machines_in id c.machines)))

  IsOutside-in_known : (m : Machine) → in_known (some m) ≡ false → IsOutside m
  unfolding in_failure_domains
  IsOutside-in_known m h = elim (Option-cases m.failure_domain) [
    | inl e ↦ inl e
    | inr (id, e) ↦ inr (id, e, ground (arith, api.get_ids-some control_plane_domains id))
  ]

  in_known-IsOutside : (m : Machine) → IsOutside m → in_known (some m) ≡ false
  unfolding in_failure_domains
  in_known-IsOutside m (inl e) = ground (arith, api.get_ids-none control_plane_domains)
  in_known-IsOutside m (inr (id, e, k)) = ground (arith, api.get_ids-some control_plane_domains id)

  not-in_known :
      (x : Machine) → and_filter (not_filter in_known ∷ []) (some x) ≡ not (in_known (some x))
  unfolding and_filter not_filter
  not-in_known x = ground arith

  pub outsider-IsChosen :
      DistinctNames ms
      → (x : Machine) → oldest (not_in_failure_domains api c ms) ≡ some x
      → IsChosen domain
  outsider-IsChosen d x e =
      let (i, old) = oldest-first (not_in_failure_domains api c ms) x e in
      let (j, t) =
        In-filter_left (λ y. and_filter (not_filter in_known ∷ []) (some y)) x ms
          (subst (In x) (outside d) i) in
      inl (
        x,
        j,
        IsOutside-in_known x (ground (arith, t, not-in_known x)),
        λ y k o. NotAfter-IsOlder x y (
            All-In (NotAfter x) y (not_in_failure_domains api c ms) old (
              subst (In y) (sym (outside d)) (
                In-filter_right (λ z. and_filter (not_filter in_known ∷ []) (some z)) y ms k
                  (not-in_known y ∙ ap not (in_known-IsOutside y o))))),
        domain_of_outsider x e,
      )

  pub most-IsChosen :
      DistinctNames ms
      → DistinctDomains c.status_failure_domains
      → oldest (not_in_failure_domains api c ms) ≡ none
      → (id : String) → pick_most control_plane_domains c.machines ms ≡ some id
      → IsChosen domain
  unfolding is_known
  most-IsChosen d f e id q =
      let known = all_known d (oldest-none (not_in_failure_domains api c ms) e) in
      let (k, has, most) =
        pick_most-greatest ms control_plane_domains c.machines id
          (api.filter_distinct c.status_failure_domains f) q in
      inr (
        λ y i. known_domain y (known y i),
        (
          id,
          domain_of_most e ∙ q,
          λ y l i g.
              let (l', g', t) = known_domain y (known y i) in
              let (fd, j, u) = any-Any (λ x. x.0 == l') control_plane_domains t in
              let v : fd.0 ≡ l = cc ((eq_iff fd.0 l').0 u, g, g') in
              subst (λ z. machines_in z c.machines ≤ machines_in id c.machines) v
                (All-In
                  (λ x.
                    has_machine_in x.0 ms ≡ true
                    → machines_in x.0 c.machines ≤ machines_in id c.machines)
                  fd control_plane_domains most j (rw v (has_machine_in-In l y ms i g))),
        ),
      )
