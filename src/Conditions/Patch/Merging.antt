-- ===== src/Conditions/Patch/Merging.antt =====
-- What Apply leaves on the latest object, whatever happened to it since the patch was made.
use cluster_api_provider_ocn.Base.{
  ℕ, suc, String, ◌≡◌, refl, sym, subst, Bool, true, false, Option, none, some, List, [], ◌∷◌, ◌==◌,
  eq_iff, eq_refl, Option-cases, All, inl, inr, arith,
}
use cluster_api_provider_ocn.Meta.{TimeApi, truncate_second}
use cluster_api_provider_ocn.Conditions.Defs.{Condition, Object, has_same_state}
use cluster_api_provider_ocn.Conditions.Getter.{get}
use cluster_api_provider_ocn.Conditions.Setter.{set, delete, with_transition_time}
use cluster_api_provider_ocn.Conditions.Setter.Laws.{
  has_same_state-says_same, get-set, get-delete, settled,
}
use cluster_api_provider_ocn.Conditions.Patch.{
  PatchOperation, add_condition, change_condition, remove_condition, PatchError, ApplyOptions,
  apply_operation, apply_operations,
}

-- The type that an operation is about, and the condition that it is to leave there.
abbrev pub target : PatchOperation → String
target (add_condition after) = after.condition_type
target (change_condition before after) = after.condition_type
target (remove_condition before) = before.condition_type

abbrev pub outcome : PatchOperation → Option Condition
outcome (add_condition after) = some after
outcome (change_condition before after) = some after
outcome (remove_condition before) = none

-- Both absent, or equal in all but the transition time.
abbrev pub agree : Option Condition → Option Condition → Bool
agree none none = true
agree (some a) (some b) = has_same_state a b
agree none (some b) = false
agree (some a) none = false

abbrev pub Targets : String → PatchOperation → Type 0
Targets t p = (target p == t) ≡ true

abbrev pub Avoids : String → PatchOperation → Type 0
Avoids t p = (target p == t) ≡ false

-- The object has what the patch is to leave on it.
abbrev pub Holds : Object → List PatchOperation → Type 0
Holds latest = All (λ p. agree (get latest (target p)) (outcome p) ≡ true)

-- No two operations are about one type.
abbrev pub DistinctTargets : List PatchOperation → Type 0
DistinctTargets [] = Unit
DistinctTargets (p ∷ ps) = All (Avoids (target p)) ps × DistinctTargets ps

pub has_same_state_refl : (c : Condition) → has_same_state c c ≡ true
unfolding has_same_state
has_same_state_refl c = ground (
  arith,
  eq_refl c.condition_type,
  eq_refl c.status,
  eq_refl c.reason,
  eq_refl c.severity,
  eq_refl c.message,
)

has_same_state_stamped :
    (now : ℕ) (c : Condition)
    → has_same_state (record c { last_transition_time = truncate_second now }) c ≡ true
unfolding has_same_state
has_same_state_stamped now c = unfold has_same_state in has_same_state_refl c

module _ ⦃time : TimeApi⦄ where
  has_same_state-settled :
      (now : ℕ) (c : Condition) (o : Option Condition) → has_same_state (settled now c o) c ≡ true
  unfolding with_transition_time
  has_same_state-settled now c none =
      ground (arith, has_same_state_stamped now c, has_same_state_refl c)
  has_same_state-settled now c (some e) =
      ground (arith, has_same_state_stamped now c, has_same_state-says_same e c)

  agree-set :
      (now : ℕ) (to : Object) (c : Condition)
      → agree (get (set now to (some c)) c.condition_type) (some c) ≡ true
  agree-set now to c =
      rw (get-set now to c c.condition_type, eq_refl c.condition_type)
        (has_same_state-settled now c (get to c.condition_type))

  agree-delete : (to : Object) (t : String) → agree (get (delete to t) t) none ≡ true
  agree-delete to t = rw (get-delete to t t, eq_refl t)

  -- An operation that meets no conflict leaves its outcome.
  pub apply_operation-outcome :
      (now : ℕ) (o : ApplyOptions) (p : PatchOperation) (latest : Object)
      → (apply_operation now o p latest).1 ≡ none
      → agree (get (apply_operation now o p latest).0 (target p)) (outcome p) ≡ true
  unfolding apply_operation
  apply_operation-outcome now o (add_condition after) latest h =
      ground (arith, agree-set now latest after)
  apply_operation-outcome now o (change_condition before after) latest h =
      ground (arith, agree-set now latest after)
  apply_operation-outcome now o (remove_condition before) latest h =
      ground (arith, agree-delete latest before.condition_type)

  -- An operation touches no type but its own, conflict or not.
  pub apply_operation-frame :
      (now : ℕ) (o : ApplyOptions) (p : PatchOperation) (latest : Object) (t : String)
      → Avoids t p
      → get (apply_operation now o p latest).0 t ≡ get latest t
  unfolding apply_operation
  apply_operation-frame now o (add_condition after) latest t h =
      ground (arith, get-set now latest after t)
  apply_operation-frame now o (change_condition before after) latest t h =
      ground (arith, get-set now latest after t)
  apply_operation-frame now o (remove_condition before) latest t h = ground (
    arith,
    get-delete latest before.condition_type t,
    eq_iff before.condition_type t,
    eq_iff t before.condition_type,
  )

  -- No type is touched that the patch does not name, conflict or not.
  pub apply_operations-frame :
      (now : ℕ → ℕ) (o : ApplyOptions) (ps : List PatchOperation) (latest : Object) (t : String)
      → All (Avoids t) ps
      → get (apply_operations now o ps latest).0 t ≡ get latest t
  unfolding apply_operations
  apply_operations-frame now o [] latest t h = refl
  apply_operations-frame now o (p ∷ ps) latest t h = ground (
    arith,
    apply_operation-frame (now 0) o p latest t,
    apply_operations-frame (λ i. now (suc i)) o ps (apply_operation (now 0) o p latest).0 t h.1,
  )

  pub apply_operations_step :
      (now : ℕ → ℕ) (o : ApplyOptions) (p : PatchOperation) (ps : List PatchOperation)
      (latest : Object)
      → (apply_operation (now 0) o p latest).1 ≡ none
      → apply_operations now o (p ∷ ps) latest
        ≡ apply_operations (λ i. now (suc i)) o ps (apply_operation (now 0) o p latest).0
  unfolding apply_operations
  apply_operations_step now o p ps latest h = ground arith

  apply_operations_stop :
      (now : ℕ → ℕ) (o : ApplyOptions) (p : PatchOperation) (ps : List PatchOperation)
      (latest : Object) {e : PatchError}
      → (apply_operation (now 0) o p latest).1 ≡ some e
      → (apply_operations now o (p ∷ ps) latest).1 ≡ some e
  unfolding apply_operations
  apply_operations_stop now o p ps latest h = ground arith

  -- When the operations of a patch are about distinct types, applying them without a conflict
  -- leaves on the object what each of them is to leave, but for transition times.
  pub apply_operations-outcome :
      (now : ℕ → ℕ) (o : ApplyOptions) (ps : List PatchOperation) (latest : Object)
      → DistinctTargets ps
      → (apply_operations now o ps latest).1 ≡ none
      → Holds (apply_operations now o ps latest).0 ps
  apply_operations-outcome now o [] latest d h = tt
  apply_operations-outcome now o (p ∷ ps) latest d h =
      let next = (apply_operation (now 0) o p latest).0 in
      elim (Option-cases (apply_operation (now 0) o p latest).1) [
        | inl e ↦
            let step = apply_operations_step now o p ps latest e in
            subst (λ r. Holds r.0 (p ∷ ps)) (sym step)
              (
                rw (apply_operations-frame (λ i. now (suc i)) o ps next (target p) d.0)
                    (apply_operation-outcome (now 0) o p latest e),
                apply_operations-outcome (λ i. now (suc i)) o ps next d.1 (rw step at h),
              )
        | inr (y, e) ↦ cc (apply_operations_stop now o p ps latest e)
      ]
