-- ===== src/Machines/Oldest.antt =====
-- Oldest and Newest in the order by creation time, with names as tie breaker.
use cluster_api_provider_ocn.Base.{
  ◌<◌, ◌⊎◌, str_lt, ◌≡◌, refl, subst, true, false, none, some, List, [], ◌∷◌, arith, All, All-In,
  In, inl, inr, sort, str_lt_asym, str_lt_neg_trans, str_lt_irrefl, IsWeakOrder, IsSortedBy,
  sort-IsSortedBy, In-sort_left, In-sort_right, length, length-sort, All-of_In,
}
use cluster_api_provider_ocn.Meta.{TimeApi}
use cluster_api_provider_ocn.Machines.{Machine}
use cluster_api_provider_ocn.Machines.Collection.{
  Machines, by_creation_timestamp, sorted_by_creation_timestamp, first, last, oldest, newest,
}

module _ ⦃time : TimeApi⦄ where
  by_creation_asym :
      (x y : Machine) → by_creation_timestamp x y ≡ true → by_creation_timestamp y x ≡ false
  unfolding by_creation_timestamp
  by_creation_asym x y h = ground (
    arith,
    time.equal-some x.creation_timestamp y.creation_timestamp,
    time.equal-some y.creation_timestamp x.creation_timestamp,
    time.before-some x.creation_timestamp y.creation_timestamp,
    time.before-some y.creation_timestamp x.creation_timestamp,
    str_lt_asym x.name y.name,
  )

  by_creation_neg_trans :
      (x y z : Machine)
      → by_creation_timestamp x y ≡ false
      → by_creation_timestamp y z ≡ false
      → by_creation_timestamp x z ≡ false
  unfolding by_creation_timestamp
  by_creation_neg_trans x y z h k = ground (
    arith,
    time.equal-some x.creation_timestamp y.creation_timestamp,
    time.equal-some y.creation_timestamp z.creation_timestamp,
    time.equal-some x.creation_timestamp z.creation_timestamp,
    time.before-some x.creation_timestamp y.creation_timestamp,
    time.before-some y.creation_timestamp z.creation_timestamp,
    time.before-some x.creation_timestamp z.creation_timestamp,
    str_lt_neg_trans x.name y.name z.name,
  )

  abbrev by_creation_order : IsWeakOrder by_creation_timestamp
  by_creation_order = record { asym = by_creation_asym; neg_trans = by_creation_neg_trans }

  -- Not older than: a machine that is not created later, names deciding between equal times.
  abbrev pub NotAfter : Machine → Machine → Type 0
  NotAfter m x = by_creation_timestamp x m ≡ false

  -- Created before, or at the same time under a name that is not the greater one.
  abbrev pub IsOlder : Machine → Machine → Type 0
  IsOlder m x =
      (m.creation_timestamp < x.creation_timestamp)
      ⊎ ((m.creation_timestamp ≡ x.creation_timestamp) × (str_lt x.name m.name ≡ false))

  pub NotAfter-IsOlder : (m x : Machine) → NotAfter m x → IsOlder m x
  unfolding by_creation_timestamp
  NotAfter-IsOlder m x h = ground (
    arith,
    h,
    time.equal-some m.creation_timestamp x.creation_timestamp,
    time.equal-some x.creation_timestamp m.creation_timestamp,
    time.before-some x.creation_timestamp m.creation_timestamp,
    time.before-some m.creation_timestamp x.creation_timestamp,
  )

  by_creation_irrefl : (m : Machine) → NotAfter m m
  unfolding by_creation_timestamp
  by_creation_irrefl m =
      ground
        (arith, time.equal-some m.creation_timestamp m.creation_timestamp, str_lt_irrefl m.name)

  first_least :
      (s : List Machine) (m : Machine)
      → IsSortedBy by_creation_timestamp s
      → first s ≡ some m
      → In m s × All (NotAfter m) s
  unfolding first
  first_least [] m h e = cc
  first_least (x ∷ xs) m h e =
      let q : x ≡ m = cc e in
      subst (λ z. In z (x ∷ xs) × All (NotAfter z) (x ∷ xs)) q
        (inl refl, (by_creation_irrefl x, h.0))

  last_greatest :
      (s : List Machine) (m : Machine)
      → IsSortedBy by_creation_timestamp s
      → last s ≡ some m
      → In m s × All (λ x. NotAfter x m) s
  unfolding last
  last_greatest [] m h e = cc
  last_greatest (x ∷ []) m h e =
      let q : x ≡ m = cc e in (inl q, rw (← q) (by_creation_irrefl x, tt))
  last_greatest (x ∷ y ∷ ys) m h e =
      let (i, a) = last_greatest (y ∷ ys) m h.1 e in
      (inr i, (All-In (NotAfter x) m (y ∷ ys) h.0 i, a))

  of_sorted :
      (P : Machine → Type 0) (ms : Machines) → All P (sort by_creation_timestamp ms) → All P ms
  of_sorted P ms h = All-of_In P ms λ x i.
      All-In P x (sort by_creation_timestamp ms) h (In-sort_right by_creation_timestamp x ms i)

  -- Oldest is a machine of the collection, and none comes before it.
  pub oldest-first :
      (ms : Machines) (m : Machine) → oldest ms ≡ some m → In m ms × All (NotAfter m) ms
  unfolding oldest sorted_by_creation_timestamp
  oldest-first ms m e =
      let (i, a) =
        first_least (sort by_creation_timestamp ms) m
          (sort-IsSortedBy by_creation_timestamp by_creation_order ms) e in
      (In-sort_left by_creation_timestamp m ms i, of_sorted (NotAfter m) ms a)

  -- Newest is a machine of the collection, and comes before none.
  pub newest-last :
      (ms : Machines) (m : Machine) → newest ms ≡ some m → In m ms × All (λ x. NotAfter x m) ms
  unfolding newest sorted_by_creation_timestamp
  newest-last ms m e =
      let (i, a) =
        last_greatest (sort by_creation_timestamp ms) m
          (sort-IsSortedBy by_creation_timestamp by_creation_order ms) e in
      (In-sort_left by_creation_timestamp m ms i, of_sorted (λ x. NotAfter x m) ms a)

  first-none : (s : List Machine) → first s ≡ none → length s ≡ 0
  unfolding first
  first-none [] e = refl
  first-none (x ∷ xs) e = cc

  pub oldest-none : (ms : Machines) → oldest ms ≡ none → ms ≡ []
  unfolding oldest sorted_by_creation_timestamp
  oldest-none [] e = refl
  oldest-none (m ∷ ms) e = absurd (
      omega (
        arith,
        first-none (sort by_creation_timestamp (m ∷ ms)) e,
        length-sort by_creation_timestamp (m ∷ ms),
      ))
