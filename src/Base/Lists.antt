-- ===== src/Base/Lists.antt =====
-- Lists measured by native numbers, Boolean filters, and predicates on lists by recursion.
use Prim.Native.Nat.{ℕ, suc, ◌+◌, ◌≤◌}
use mathlib.Core.Path.{◌≡◌, refl, ap, subst, ◌∙◌}
use mathlib.Core.Logic.{◌⊎◌, inl, inr}
use mathlib.Core.Bool.{Bool, true, false, not}
use mathlib.Core.List.{List, [], ◌∷◌, ◌++◌}
use native.Mathlib.Omega.{arith}
use cluster_api_provider_ocn.Base.Tests.{Bool-cases, if◌then◌else◌}

module _ {ℓ} {A : Type ℓ} where
  abbrev pub length : List A → ℕ
  length [] = 0
  length (x ∷ xs) = suc (length xs)

  abbrev pub filter : (A → Bool) → List A → List A
  filter p [] = []
  filter p (x ∷ xs) = let rest = filter p xs in if p x then x ∷ rest else rest

  abbrev pub any : (A → Bool) → List A → Bool
  any p [] = false
  any p (x ∷ xs) = let rest = any p xs in if p x then true else rest

  abbrev pub is_empty : List A → Bool
  is_empty [] = true
  is_empty (x ∷ xs) = false

  pub length-append : (xs ys : List A) → length (xs ++ ys) ≡ length xs + length ys
  length-append [] ys = omega arith
  length-append (x ∷ xs) ys = omega (arith, length-append xs ys)

  pub length-filter : (p : A → Bool) (xs : List A) → length (filter p xs) ≤ length xs
  length-filter p [] = omega arith
  length-filter p (x ∷ xs) = ground (arith, length-filter p xs)

  pub length-filter-not :
      (p : A → Bool) (xs : List A)
      → length (filter p xs) + length (filter (λ x. not (p x)) xs) ≡ length xs
  length-filter-not p [] = omega arith
  length-filter-not p (x ∷ xs) = ground (arith, length-filter-not p xs)

-- Every element, and some element, as types that compute on the list.
abbrev pub All {ℓ} : {A : Type ℓ} → (A → Type 0) → List A → Type 0
All P [] = Unit
All P (x ∷ xs) = P x × All P xs

abbrev pub Any {ℓ} : {A : Type ℓ} → (A → Type 0) → List A → Type 0
Any P [] = ⊥
Any P (x ∷ xs) = P x ⊎ Any P xs

abbrev pub In : {A : Type 0} → A → List A → Type 0
In a = Any (λ x. x ≡ a)

module _ {A : Type 0} where
  pub All-In : (P : A → Type 0) (a : A) (xs : List A) → All P xs → In a xs → P a
  All-In P a [] h m = absurd m
  All-In P a (x ∷ xs) h (inl e) = subst P e h.0
  All-In P a (x ∷ xs) h (inr m) = All-In P a xs h.1 m

  pub All-of_In : (P : A → Type 0) (xs : List A) → ((a : A) → In a xs → P a) → All P xs
  All-of_In P [] h = tt
  All-of_In P (x ∷ xs) h = (h x (inl refl), All-of_In P xs (λ a m. h a (inr m)))

  pub All-mono : (P Q : A → Type 0) (xs : List A) → ((a : A) → P a → Q a) → All P xs → All Q xs
  All-mono P Q [] f h = tt
  All-mono P Q (x ∷ xs) f h = (f x h.0, All-mono P Q xs f h.1)

  pub All-filter : (P : A → Type 0) (p : A → Bool) (xs : List A) → All P xs → All P (filter p xs)
  All-filter P p [] h = tt
  All-filter P p (x ∷ xs) h = elim (Bool-cases (p x)) [
    | inl e ↦ rw e (h.0, All-filter P p xs h.1)
    | inr e ↦ rw e (All-filter P p xs h.1)
  ]

  -- What a filter keeps is in the list and passes its test, and conversely.
  pub In-filter_left :
      (p : A → Bool) (a : A) (xs : List A) → In a (filter p xs) → In a xs × (p a ≡ true)
  In-filter_left p a [] m = absurd m
  In-filter_left p a (x ∷ xs) m = elim (Bool-cases (p x)) [
    | inl e ↦ kept e (In-filter_left p a xs) (rw e at m)
    | inr e ↦ skip (In-filter_left p a xs (rw e at m))
  ]
    where
      skip : In a xs × (p a ≡ true) → In a (x ∷ xs) × (p a ≡ true)
      skip (n, t) = (inr n, t)

      kept :
          p x ≡ true
          → (In a (filter p xs) → In a xs × (p a ≡ true))
          → In a (x ∷ filter p xs)
          → In a (x ∷ xs) × (p a ≡ true)
      kept e rest (inl q) = (inl q, rw (← q) e)
      kept e rest (inr n) = skip (rest n)

  pub In-filter_right :
      (p : A → Bool) (a : A) (xs : List A) → In a xs → p a ≡ true → In a (filter p xs)
  In-filter_right p a [] m t = absurd m
  In-filter_right p a (x ∷ xs) (inl e) t = rw (ap p e ∙ t) (inl e)
  In-filter_right p a (x ∷ xs) (inr m) t = elim (Bool-cases (p x)) [
    | inl e ↦ rw e (inr (In-filter_right p a xs m t))
    | inr e ↦ rw e (In-filter_right p a xs m t)
  ]

  -- A filter that keeps nothing rejects every element.
  pub filter-nil : (p : A → Bool) (xs : List A) → filter p xs ≡ [] → All (λ x. p x ≡ false) xs
  filter-nil p [] h = tt
  filter-nil p (x ∷ xs) h = elim (Bool-cases (p x)) [
    | inl e ↦ absurd (cons_nil (rw e at h))
    | inr e ↦ (e, filter-nil p xs (rw e at h))
  ]
    where
      cons_nil : x ∷ filter p xs ≡ [] → ⊥
      cons_nil q = cc

  pub filter_mono :
      (p q : A → Bool) (xs : List A) → ((a : A) → p a ≡ q a) → filter p xs ≡ filter q xs
  filter_mono p q [] h = refl
  filter_mono p q (x ∷ xs) h = rw (h x, filter_mono p q xs h)

  pub any-Any : (p : A → Bool) (xs : List A) → any p xs ≡ true → (a : A) × (In a xs) × (p a ≡ true)
  any-Any p [] h = cc
  any-Any p (x ∷ xs) h = elim (Bool-cases (p x)) [
    | inl e ↦ (x, inl refl, e)
    | inr e ↦ (let (a, m, t) = any-Any p xs (rw e at h) in (a, inr m, t))
  ]

  pub any-false : (p : A → Bool) (xs : List A) → any p xs ≡ false → All (λ a. p a ≡ false) xs
  any-false p [] h = tt
  any-false p (x ∷ xs) h = elim (Bool-cases (p x)) [
    | inl e ↦ cc (rw e at h)
    | inr e ↦ (e, any-false p xs (rw e at h))
  ]

module _ {A : Type 0} where
  pub All-zip :
      (P Q R : A → Type 0) (xs : List A)
      → ((a : A) → P a → Q a → R a)
      → All P xs
      → All Q xs
      → All R xs
  All-zip P Q R [] f h k = tt
  All-zip P Q R (x ∷ xs) f h k = (f x h.0 k.0, All-zip P Q R xs f h.1 k.1)

  pub All-append : (P : A → Type 0) (xs ys : List A) → All P xs → All P ys → All P (xs ++ ys)
  All-append P [] ys h k = k
  All-append P (x ∷ xs) ys h k = (h.0, All-append P xs ys h.1 k)

  pub All-append_left : (P : A → Type 0) (xs ys : List A) → All P (xs ++ ys) → All P xs
  All-append_left P [] ys h = tt
  All-append_left P (x ∷ xs) ys h = (h.0, All-append_left P xs ys h.1)

  pub All-append_right : (P : A → Type 0) (xs ys : List A) → All P (xs ++ ys) → All P ys
  All-append_right P [] ys h = h
  All-append_right P (x ∷ xs) ys h = All-append_right P xs ys h.1

  -- Some element passes the test, or all fail it.
  pub Any-or-All :
      (p : A → Bool) (xs : List A)
      → ((a : A) × (In a xs) × (p a ≡ true)) ⊎ All (λ a. p a ≡ false) xs
  Any-or-All p xs = elim (Bool-cases (any p xs)) [
    | inl e ↦ inl (any-Any p xs e)
    | inr e ↦ inr (any-false p xs e)
  ]
