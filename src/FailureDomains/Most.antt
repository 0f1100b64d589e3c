-- ===== src/FailureDomains/Most.antt =====
-- PickMost against the counts of the failure domains with a candidate.
use cluster_api_provider_ocn.Base.{
  ◌≤◌, String, ◌≡◌, refl, ap, ◌∙◌, sym, subst, true, false, none, some, List, [], ◌∷◌, arith, All,
  Any, All-mono, In, inl, inr, sort, IsWeakOrder, IsSortedBy, sort-IsSortedBy, In-sort_left,
  In-sort_right, All-In, All-of_In, Bool-cases,
}
use cluster_api_provider_ocn.Machines.Collection.{Machines}
use cluster_api_provider_ocn.FailureDomains.{
  FailureDomains, Aggregation, fewer, more, order_descending, has_machine_in, first_with_machine,
  pick_most,
}
use cluster_api_provider_ocn.FailureDomains.Counting.{
  machines_in, DistinctDomains, counts, pick-counts,
}
use cluster_api_provider_ocn.FailureDomains.Fewest.{In-counts, All-counts}

more_asym : (x y : Aggregation) → more x y ≡ true → more y x ≡ false
unfolding more fewer
more_asym x y h = ground arith

more_neg_trans : (x y z : Aggregation) → more x y ≡ false → more y z ≡ false → more x z ≡ false
unfolding more fewer
more_neg_trans x y z h k = ground arith

not_more : (x y : Aggregation) → more y x ≡ false → y.count ≤ x.count
unfolding more fewer
not_more x y h = ground arith

module _ (ms : Machines) where
  abbrev Leads : Aggregation → Aggregation → Type 0
  Leads a b = has_machine_in b.id ms ≡ true → b.count ≤ a.count

  first_with_machine-Leads :
      (s : List Aggregation) (id : String)
      → IsSortedBy more s
      → first_with_machine s ms ≡ some id
      → (a : Aggregation) × (In a s) × (a.id ≡ id) × (has_machine_in id ms ≡ true) × All (Leads a) s
  unfolding first_with_machine
  first_with_machine-Leads [] id h e = cc
  first_with_machine-Leads (x ∷ xs) id h e = elim (Bool-cases (has_machine_in x.id ms)) [
    | inl t ↦
        (let q : x.id ≡ id = ground arith in
          (
            x,
            inl refl,
            q,
            rw (← q) t,
            (
              λ u. omega arith,
              All-mono (λ y. more y x ≡ false) (Leads x) xs (λ y g u. not_more x y g) h.0,
            ),
          ))
    | inr t ↦
        (let (a, m, q, has, rest) = first_with_machine-Leads xs id h.1 (ground arith) in
          (a, inr m, q, has, (λ u. cc (t, u), rest)))
  ]

  no_machine :
      (s : List Aggregation)
      → first_with_machine s ms ≡ none
      → All (λ a. has_machine_in a.id ms ≡ false) s
  unfolding first_with_machine
  no_machine [] e = tt
  no_machine (x ∷ xs) e = (ground arith, no_machine xs (ground arith))

  abbrev order : IsWeakOrder more
  order = record { asym = more_asym; neg_trans = more_neg_trans }

  -- The domain picked from distinct ones is one of them and has a candidate, and none with a candidate
  -- has more machines of the group.
  pub pick_most-greatest :
      (fds : FailureDomains) (group : Machines) (id : String)
      → DistinctDomains fds
      → pick_most fds group ms ≡ some id
      → Any (λ fd. fd.0 ≡ id) fds
        × (has_machine_in id ms ≡ true)
        × All
            (λ fd. has_machine_in fd.0 ms ≡ true → machines_in fd.0 group ≤ machines_in id group)
            fds
  unfolding pick_most order_descending
  pick_most-greatest fds group id d e =
      let (a, m, q, has, leads) =
        first_with_machine-Leads (sort more (counts fds group)) id
          (sort-IsSortedBy more order (counts fds group))
          (ap (λ cs. first_with_machine (sort more cs) ms) (sym (pick-counts fds group d)) ∙ e) in
      let (known, held) = In-counts fds group a (In-sort_left more a (counts fds group) m) in
      let most : a.count ≡ machines_in id group = held ∙ ap (λ i. machines_in i group) q in
      (
        subst (λ i. Any (λ fd. fd.0 ≡ i) fds) q known,
        has,
        rw (← most) (
            All-counts (λ i n. has_machine_in i ms ≡ true → n ≤ a.count) fds group
              (All-of_In (Leads a) (counts fds group) (λ b i.
                All-In (Leads a) b (sort more (counts fds group)) leads
                  (In-sort_right more b (counts fds group) i)))),
      )

  -- From distinct failure domains nothing is picked only where none has a candidate.
  pub pick_most-none :
      (fds : FailureDomains) (group : Machines)
      → DistinctDomains fds
      → pick_most fds group ms ≡ none
      → All (λ fd. has_machine_in fd.0 ms ≡ false) fds
  unfolding pick_most order_descending
  pick_most-none fds group d e =
      All-counts (λ i n. has_machine_in i ms ≡ false) fds group
        (All-of_In (λ a. has_machine_in a.id ms ≡ false) (counts fds group)
          (λ b i.
            All-In (λ a. has_machine_in a.id ms ≡ false) b (sort more (counts fds group))
              (no_machine (sort more (counts fds group)) (
                ap (λ cs. first_with_machine (sort more cs) ms) (sym (pick-counts fds group d))
                ∙ e))
              (In-sort_right more b (counts fds group) i)))
