-- ===== src/Conditions/Patch/Difference.antt =====
-- The operations of NewPatch against what the two objects have.
use cluster_api_provider_ocn.Base.{
  ◌⊎◌, ◌≢◌, ℕ, suc, String, ◌≡◌, refl, ap, ◌∙◌, subst, true, false, Option, none, some, List, [],
  ◌∷◌, ◌++◌, ◌==◌, eq_iff, eq_refl, Bool-cases, Option-cases, All, inl, inr, arith, In, All-zip,
  All-append, All-append_left, All-append_right, All-In, All-mono,
}
use cluster_api_provider_ocn.Meta.{TimeApi}
use cluster_api_provider_ocn.Conditions.Defs.{Condition, Object, has_same_state}
use cluster_api_provider_ocn.Conditions.Getter.{get, find_condition}
use cluster_api_provider_ocn.Conditions.Setter.Order.{IsDistinct, Differs}
use cluster_api_provider_ocn.Conditions.Patch.{
  PatchOperation, add_condition, change_condition, remove_condition, ApplyOptions, apply_operation,
  apply_operations, deep_equal, add_or_change, remove_missing, collect,
}
use cluster_api_provider_ocn.Conditions.Patch.Merging.{
  target, agree, Avoids, DistinctTargets, has_same_state_refl, apply_operation-frame,
  apply_operations_step,
}

-- What an operation expects to find.
abbrev pub origin : PatchOperation → Option Condition
origin (add_condition after) = none
origin (change_condition before after) = some before
origin (remove_condition before) = some before

abbrev pub Fits : Object → PatchOperation → Type 0
Fits latest p = get latest (target p) ≡ origin p

deep_equal_refl : (c : Condition) → deep_equal c c ≡ true
unfolding deep_equal
deep_equal_refl c = ground (arith, has_same_state_refl c)

Avoids-sym : (t : String) (p : PatchOperation) → Avoids t p → (t == target p) ≡ false
Avoids-sym t p h = ground (arith, eq_iff t (target p), eq_iff (target p) t)

module _ ⦃time : TimeApi⦄ where
  apply_operation-Fits :
      (now : ℕ) (o : ApplyOptions) (p : PatchOperation) (latest : Object)
      → Fits latest p
      → (apply_operation now o p latest).1 ≡ none
  unfolding apply_operation
  apply_operation-Fits now o (add_condition after) latest h = ground arith
  apply_operation-Fits now o (change_condition before after) latest h =
      ground (arith, deep_equal_refl before)
  apply_operation-Fits now o (remove_condition before) latest h =
      ground (arith, has_same_state_refl before)

  -- A patch that finds what it expects meets no conflict.
  pub apply_operations-Fits :
      (now : ℕ → ℕ) (o : ApplyOptions) (ps : List PatchOperation) (latest : Object)
      → DistinctTargets ps
      → All (Fits latest) ps
      → (apply_operations now o ps latest).1 ≡ none
  apply_operations-Fits now o [] latest d h = unfold apply_operations in refl
  apply_operations-Fits now o (p ∷ ps) latest d h =
      ap (λ r. r.1)
        (apply_operations_step now o p ps latest (apply_operation-Fits (now 0) o p latest h.0))
      ∙ apply_operations-Fits (λ i. now (suc i)) o ps (apply_operation (now 0) o p latest).0 d.1
          (All-zip (Avoids (target p)) (Fits latest) (Fits (apply_operation (now 0) o p latest).0)
            ps
            (λ q a f.
              apply_operation-frame (now 0) o p latest (target q) (Avoids-sym (target p) q a) ∙ f)
            d.0 h.1)

deep_equal-has_same_state : (c b : Condition) → deep_equal c b ≡ true → has_same_state b c ≡ true
unfolding deep_equal has_same_state
deep_equal-has_same_state c b h = ground (
  arith,
  eq_iff c.condition_type b.condition_type,
  eq_iff b.condition_type c.condition_type,
  eq_iff c.status b.status,
  eq_iff b.status c.status,
  eq_iff c.reason b.reason,
  eq_iff b.reason c.reason,
  eq_iff c.severity b.severity,
  eq_iff b.severity c.severity,
  eq_iff c.message b.message,
  eq_iff b.message c.message,
)

pub find_condition-In :
    (c : Condition) (cs : List Condition)
    → IsDistinct cs
    → In c cs
    → find_condition c.condition_type cs ≡ some c
unfolding find_condition
find_condition-In c [] d m = absurd m
find_condition-In c (e ∷ es) d (inl q) = rw (q, eq_refl c.condition_type)
find_condition-In c (e ∷ es) d (inr m) = ground (
  arith,
  All-In (Differs e) c es d.0 m,
  eq_iff e.condition_type c.condition_type,
  eq_iff c.condition_type e.condition_type,
  find_condition-In c es d.1 m,
)

pub find_condition-some :
    (t : String) (cs : List Condition) (c : Condition)
    → find_condition t cs ≡ some c
    → In c cs × (c.condition_type ≡ t)
unfolding find_condition
find_condition-some t [] c h = cc
find_condition-some t (e ∷ es) c h =
    ground (arith, eq_iff e.condition_type t, find_condition-some t es c)

module _ (f : Condition → List PatchOperation) where
  pub All-collect :
      (P : PatchOperation → Type 0) (cs : List Condition)
      → ((c : Condition) → In c cs → All P (f c))
      → All P (collect f cs)
  unfolding collect
  All-collect P [] h = tt
  All-collect P (c ∷ cs) h =
      All-append P (f c) (collect f cs) (h c (inl refl)) (All-collect P cs (λ d m. h d (inr m)))

  pub All-collect-In :
      (P : PatchOperation → Type 0) (c : Condition) (cs : List Condition)
      → In c cs
      → All P (collect f cs)
      → All P (f c)
  unfolding collect
  All-collect-In P c [] m h = absurd m
  All-collect-In P c (d ∷ ds) (inl q) h =
      subst (λ x. All P (f x)) q (All-append_left P (f d) (collect f ds) h)
  All-collect-In P c (d ∷ ds) (inr m) h =
      All-collect-In P c ds m (All-append_right P (f d) (collect f ds) h)

pub DistinctTargets-append :
    (ps qs : List PatchOperation)
    → DistinctTargets ps
    → DistinctTargets qs
    → All (λ p. All (Avoids (target p)) qs) ps
    → DistinctTargets (ps ++ qs)
DistinctTargets-append [] qs h k x = k
DistinctTargets-append (p ∷ ps) qs h k x =
    (All-append (Avoids (target p)) ps qs h.0 x.0, DistinctTargets-append ps qs h.1 k x.1)

-- A loop whose body makes at most one operation, about the type of its condition.
module _ (f : Condition → List PatchOperation)
    (about : (c : Condition) → All (λ p. target p ≡ c.condition_type) (f c))
    (single : (c : Condition) → DistinctTargets (f c)) where
  Avoids-collect :
      (c : Condition) (cs : List Condition)
      → All (Differs c) cs
      → All (Avoids c.condition_type) (collect f cs)
  Avoids-collect c cs h = All-collect f (Avoids c.condition_type) cs λ d m.
      All-mono (λ p. target p ≡ d.condition_type) (Avoids c.condition_type) (f d)
        (λ p e. rw e (All-In (Differs c) d cs h m)) (about d)

  pub DistinctTargets-collect :
      (cs : List Condition) → IsDistinct cs → DistinctTargets (collect f cs)
  unfolding collect
  DistinctTargets-collect [] d = tt
  DistinctTargets-collect (c ∷ cs) d =
      DistinctTargets-append (f c) (collect f cs) (single c) (DistinctTargets-collect cs d.1) (
        All-mono (λ p. target p ≡ c.condition_type) (λ p. All (Avoids (target p)) (collect f cs))
          (f c) (λ p e. rw e (Avoids-collect c cs d.0)) (about c))

-- The three answers of the loop body of NewPatch, and the two of its second loop.
module _ (before : Object) (c : Condition) where
  abbrev Adds : Type 0
  Adds = (get before c.condition_type ≡ none) × (add_or_change before c ≡ add_condition c ∷ [])

  abbrev Changes : Condition → Type 0
  Changes b =
      (get before c.condition_type ≡ some b) × (add_or_change before c ≡ change_condition b c ∷ [])

  abbrev Keeps : Condition → Type 0
  Keeps b =
      (get before c.condition_type ≡ some b)
      × (deep_equal c b ≡ true)
      × (add_or_change before c ≡ [])

  add_or_change-cases : Adds ⊎ ((b : Condition) × (Changes b ⊎ Keeps b))
  unfolding add_or_change
  add_or_change-cases = elim (Option-cases (get before c.condition_type)) [
    | inl e ↦ inl (e, ground arith)
    | inr (b, e) ↦ inr (
      b,
      elim (Bool-cases (deep_equal c b)) [
        | inl q ↦ inr (e, q, ground arith)
        | inr q ↦ inl (e, ground arith)
      ],
    )
  ]

  pub All-add_or_change :
      (P : PatchOperation → Type 0)
      → (get before c.condition_type ≡ none → P (add_condition c))
      → ((b : Condition) → get before c.condition_type ≡ some b → P (change_condition b c))
      → All P (add_or_change before c)
  All-add_or_change P add change = elim add_or_change-cases [
    | inl (e, q) ↦ rw q (add e, tt)
    | inr (b, inl (e, q)) ↦ rw q (change b e, tt)
    | inr (b, inr (e, k, q)) ↦ rw q tt
  ]

  pub single_add_or_change : DistinctTargets (add_or_change before c)
  single_add_or_change = elim add_or_change-cases [
    | inl (e, q) ↦ rw q (tt, tt)
    | inr (b, inl (e, q)) ↦ rw q (tt, tt)
    | inr (b, inr (e, k, q)) ↦ rw q tt
  ]

  -- No operation for a condition means that the object has it.
  pub add_or_change-Avoids :
      All (Avoids c.condition_type) (add_or_change before c)
      → agree (get before c.condition_type) (some c) ≡ true
  add_or_change-Avoids h = elim add_or_change-cases [
    | inl (e, q) ↦ cc (eq_refl c.condition_type, (rw q at h).0)
    | inr (b, inl (e, q)) ↦ cc (eq_refl c.condition_type, (rw q at h).0)
    | inr (b, inr (e, k, q)) ↦ rw e (deep_equal-has_same_state c b k)
  ]

module _ (after : Object) (c : Condition) where
  remove_missing-cases :
      ((get after c.condition_type ≡ none) × (remove_missing after c ≡ remove_condition c ∷ []))
      ⊎ ((t : Condition) × (get after c.condition_type ≡ some t) × (remove_missing after c ≡ []))
  unfolding remove_missing
  remove_missing-cases = elim (Option-cases (get after c.condition_type)) [
    | inl e ↦ inl (e, ground arith)
    | inr (t, e) ↦ inr (t, e, ground arith)
  ]

  pub All-remove_missing :
      (P : PatchOperation → Type 0)
      → (get after c.condition_type ≡ none → P (remove_condition c))
      → All P (remove_missing after c)
  All-remove_missing P remove = elim remove_missing-cases [
    | inl (e, q) ↦ rw q (remove e, tt)
    | inr (t, e, q) ↦ rw q tt
  ]

  pub single_remove_missing : DistinctTargets (remove_missing after c)
  single_remove_missing = elim remove_missing-cases [
    | inl (e, q) ↦ rw q (tt, tt)
    | inr (t, e, q) ↦ rw q tt
  ]

  pub remove_missing-Avoids :
      All (Avoids c.condition_type) (remove_missing after c) → get after c.condition_type ≢ none
  remove_missing-Avoids h = elim remove_missing-cases [
    | inl (e, q) ↦ cc (eq_refl c.condition_type, (rw q at h).0)
    | inr (t, e, q) ↦ cc e
  ]
