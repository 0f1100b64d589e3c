-- ===== src/Base/Text.antt =====
-- The order of Go strings: byte-wise comparison, a strict total order.
use Prim.Native.Nat.{ℕ, Ordering, compare as compare_ℕ}
use Prim.Native.Char.{code}
use Prim.Native.String.compare
use Prim.Native.String.{String, [], ◌∷◌, compare, then}
use mathlib.Core.Path.{◌≡◌, refl}
use mathlib.Core.Logic.{inl, inr}
use mathlib.Core.Bool.{Bool, true, false}
use native.Mathlib.Omega.{arith}
use text.Mathlib.Text.{is_lt}
use cluster_api_provider_ocn.Base.Tests.{Bool-cases}
use text.Mathlib.TextEquality.{path_by_compare}
use text.Mathlib.TextPositions.{compare_refl}

-- s < t
unfoldable pub str_lt : String → String → Bool
str_lt s t = is_lt (compare s t)

abbrev flip : Ordering → Ordering
flip Ordering.lt = Ordering.gt
flip Ordering.eq = Ordering.eq
flip Ordering.gt = Ordering.lt

flip-compare_ℕ : (m n : ℕ) → compare_ℕ n m ≡ flip (compare_ℕ m n)
flip-compare_ℕ m n = ground arith

flip-then : (o p : Ordering) → flip (then o p) ≡ then (flip o) (flip p)
flip-then Ordering.lt p = refl
flip-then Ordering.eq p = refl
flip-then Ordering.gt p = refl

flip-compare : (s t : String) → compare t s ≡ flip (compare s t)
flip-compare [] [] = rw compare.nil-nil
flip-compare [] (d ∷ t) = rw (compare.cons-nil d t, compare.nil-cons d t)
flip-compare (c ∷ s) [] = rw (compare.cons-nil c s, compare.nil-cons c s)
flip-compare (c ∷ s) (d ∷ t) = rw (
  compare.cons-cons d c t s,
  compare.cons-cons c d s t,
  flip-then,
  flip-compare_ℕ (code c) (code d),
  flip-compare s t,
)

-- How the answers of three comparisons hang together, on heads and on tails.
lt_trans_step :
    (a b e : ℕ) (p q r : Ordering)
    → then (compare_ℕ a b) p ≡ Ordering.lt
    → then (compare_ℕ b e) q ≡ Ordering.lt
    → (p ≡ Ordering.lt → q ≡ Ordering.lt → r ≡ Ordering.lt)
    → then (compare_ℕ a e) r ≡ Ordering.lt
lt_trans_step a b e p q r h k ih = ground arith

compare_lt_trans :
    (s t u : String)
    → compare s t ≡ Ordering.lt
    → compare t u ≡ Ordering.lt
    → compare s u ≡ Ordering.lt
compare_lt_trans [] [] u h k = cc
compare_lt_trans [] (d ∷ t) [] h k = cc (k, compare.cons-nil d t)
compare_lt_trans [] (d ∷ t) (e ∷ u) h k = compare.nil-cons e u
compare_lt_trans (c ∷ s) [] u h k = cc (h, compare.cons-nil c s)
compare_lt_trans (c ∷ s) (d ∷ t) [] h k = cc (k, compare.cons-nil d t)
compare_lt_trans (c ∷ s) (d ∷ t) (e ∷ u) h k = rw compare.cons-cons (
    lt_trans_step (code c) (code d) (code e) (compare s t) (compare t u) (compare s u)
      (rw compare.cons-cons at h) (rw compare.cons-cons at k) (compare_lt_trans s t u))

pub str_lt_asym : (s t : String) → str_lt s t ≡ true → str_lt t s ≡ false
unfolding str_lt
str_lt_asym s t h = ground (arith, flip-compare s t)

pub str_lt_trans : (s t u : String) → str_lt s t ≡ true → str_lt t u ≡ true → str_lt s u ≡ true
unfolding str_lt
str_lt_trans s t u h k = ground (arith, compare_lt_trans s t u)

-- Two strings neither of which comes first are equal.
pub str_lt_tri : (s t : String) → str_lt s t ≡ false → str_lt t s ≡ false → s ≡ t
unfolding str_lt
str_lt_tri s t h k = path_by_compare s t (ground (arith, flip-compare s t))

pub str_lt_irrefl : (s : String) → str_lt s s ≡ false
unfolding str_lt
str_lt_irrefl s = ground (arith, compare_refl s)

pub str_lt_neg_trans :
    (s t u : String) → str_lt s t ≡ false → str_lt t u ≡ false → str_lt s u ≡ false
str_lt_neg_trans s t u h k = elim (Bool-cases (str_lt t s)) [
  | inl e ↦ ground (arith, str_lt_trans t s u)
  | inr e ↦ rw (str_lt_tri s t h e) k
]
