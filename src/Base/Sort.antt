-- ===== src/Base/Sort.antt =====
-- Go's `sort.Sort` and `sort.Slice`: the insertion sort that the standard library runs on short
-- lists. The lemmas are on its elements and their order.
use mathlib.Core.Path.{◌≡◌, refl, subst}
use mathlib.Core.Logic.{inl, inr}
use mathlib.Core.Bool.{Bool, true, false}
use mathlib.Core.List.{List, [], ◌∷◌}
use native.Mathlib.Omega.{arith}
use cluster_api_provider_ocn.Base.Tests.{Bool-cases, if◌then◌else◌}
use cluster_api_provider_ocn.Base.Lists.{All, In, length, All-mono, All-of_In, All-In}

module _ {A : Type 0} (less : A → A → Bool) where
  -- One pass of the insertion: past every element that is less than the new one.
  unfoldable pub insert_sorted : A → List A → List A
  insert_sorted x [] = x ∷ []
  insert_sorted x (y ∷ ys) =
      let rest = insert_sorted x ys in if less y x then y ∷ rest else x ∷ y ∷ ys

  unfoldable pub sort : List A → List A
  unfolding insert_sorted
  sort [] = []
  sort (x ∷ xs) = insert_sorted x (sort xs)

  -- Nothing that stands later is less than what stands earlier.
  abbrev pub IsSortedBy : List A → Type 0
  IsSortedBy [] = Unit
  IsSortedBy (x ∷ xs) = All (λ y. less y x ≡ false) xs × IsSortedBy xs

  length-insert_sorted : (x : A) (xs : List A) → length (insert_sorted x xs) ≡ length (x ∷ xs)
  unfolding insert_sorted
  length-insert_sorted x [] = refl
  length-insert_sorted x (y ∷ ys) = ground (arith, length-insert_sorted x ys)

  pub length-sort : (xs : List A) → length (sort xs) ≡ length xs
  unfolding sort
  length-sort [] = refl
  length-sort (x ∷ xs) = omega (arith, length-insert_sorted x (sort xs), length-sort xs)

  pub All-insert_sorted :
      (P : A → Type 0) (x : A) (xs : List A) → P x → All P xs → All P (insert_sorted x xs)
  unfolding insert_sorted
  All-insert_sorted P x [] h hs = (h, tt)
  All-insert_sorted P x (y ∷ ys) h hs = elim (Bool-cases (less y x)) [
    | inl e ↦ rw e (hs.0, All-insert_sorted P x ys h hs.1)
    | inr e ↦ rw e (h, hs)
  ]

  pub All-sort : (P : A → Type 0) (xs : List A) → All P xs → All P (sort xs)
  unfolding sort
  All-sort P [] h = tt
  All-sort P (x ∷ xs) h = All-insert_sorted P x (sort xs) h.0 (All-sort P xs h.1)

  In-insert_sorted_left : (a x : A) (xs : List A) → In a (insert_sorted x xs) → In a (x ∷ xs)
  unfolding insert_sorted
  In-insert_sorted_left a x [] m = m
  In-insert_sorted_left a x (y ∷ ys) m = ground (arith, In-insert_sorted_left a x ys)

  In-insert_sorted_right : (a x : A) (xs : List A) → In a (x ∷ xs) → In a (insert_sorted x xs)
  unfolding insert_sorted
  In-insert_sorted_right a x [] m = m
  In-insert_sorted_right a x (y ∷ ys) m = ground (arith, In-insert_sorted_right a x ys)

  pub In-sort_left : (a : A) (xs : List A) → In a (sort xs) → In a xs
  unfolding sort
  In-sort_left a [] m = m
  In-sort_left a (x ∷ xs) m = elim (In-insert_sorted_left a x (sort xs) m) [
    | inl e ↦ inl e
    | inr n ↦ inr (In-sort_left a xs n)
  ]

  pub In-sort_right : (a : A) (xs : List A) → In a xs → In a (sort xs)
  unfolding sort
  In-sort_right a (x ∷ xs) (inl e) = In-insert_sorted_right a x (sort xs) (inl e)
  In-sort_right a (x ∷ xs) (inr m) =
      In-insert_sorted_right a x (sort xs) (inr (In-sort_right a xs m))
  In-sort_right a [] m = absurd m

-- What `less` has to be: irreflexive on pairs, and "not less" is transitive.
pub record IsWeakOrder {A : Type 0} (less : A → A → Bool) : Type 0 where
  pub asym : (x y : A) → less x y ≡ true → less y x ≡ false
  pub neg_trans : (x y z : A) → less x y ≡ false → less y z ≡ false → less x z ≡ false

module _ {A : Type 0} (less : A → A → Bool) (order : IsWeakOrder less) where
  IsSortedBy-insert_sorted :
      (x : A) (xs : List A) → IsSortedBy less xs → IsSortedBy less (insert_sorted less x xs)
  unfolding insert_sorted
  IsSortedBy-insert_sorted x [] h = (tt, tt)
  IsSortedBy-insert_sorted x (y ∷ ys) h = elim (Bool-cases (less y x)) [
    | inl e ↦ rw e (
      All-insert_sorted less (λ z. less z y ≡ false) x ys (order.asym y x e) h.0,
      IsSortedBy-insert_sorted x ys h.1,
    )
    | inr e ↦ rw e (
      (
        e,
        All-mono (λ z. less z y ≡ false) (λ z. less z x ≡ false) ys
            (λ z q. order.neg_trans z y x q e) h.0,
      ),
      h,
    )
  ]

  -- The sorted list is in order.
  pub sort-IsSortedBy : (xs : List A) → IsSortedBy less (sort less xs)
  unfolding sort
  sort-IsSortedBy [] = tt
  sort-IsSortedBy (x ∷ xs) = IsSortedBy-insert_sorted x (sort less xs) (sort-IsSortedBy xs)

  irrefl : (x : A) → less x x ≡ false
  irrefl x = elim (Bool-cases (less x x)) [ inl e ↦ order.asym x x e | inr e ↦ e ]

  head_least :
      (s : List A) (x : A) (rest : List A)
      → IsSortedBy less s
      → s ≡ x ∷ rest
      → In x s × All (λ y. less y x ≡ false) s
  head_least [] x rest h e = cc
  head_least (y ∷ ys) x rest h e =
      let q : y ≡ x = cc e in
      subst (λ z. In z (y ∷ ys) × All (λ w. less w z ≡ false) (y ∷ ys)) q
        (inl refl, (irrefl y, h.0))

  -- The first of the sorted list is an element of the list, and none is less.
  pub sort-head :
      (xs : List A) (x : A) (rest : List A)
      → sort less xs ≡ x ∷ rest
      → In x xs × All (λ y. less y x ≡ false) xs
  sort-head xs x rest e =
      let (i, a) = head_least (sort less xs) x rest (sort-IsSortedBy xs) e in
      (
        In-sort_left less x xs i,
        All-of_In (λ y. less y x ≡ false) xs
            (λ y m. All-In (λ z. less z x ≡ false) y (sort less xs) a (In-sort_right less y xs m)),
      )
