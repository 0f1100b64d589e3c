-- ===== src/Conditions/Patch.antt =====
-- util/conditions/patch.go: the difference of two lists of conditions, and its three-way merge into
-- a third. A nil object or option is `none`. The i-th Set of a run reads the clock as `now i`.
-- A merge that meets a conflict has already written the operations before it, so the object is part
-- of the answer.
pub mod Merging
pub mod Difference
pub mod RoundTrip
use cluster_api_provider_ocn.Base.{
  ℕ, suc, String, Bool, true, false, ◌&&◌, ◌||◌, Option, none, some, List, [], ◌∷◌, ◌++◌, ◌==◌,
  ◌=ℕ◌, if◌then◌else◌, any, not,
}
use cluster_api_provider_ocn.Meta.{TimeApi}
use cluster_api_provider_ocn.Conditions.Defs.{Condition, Object, has_same_state}
use cluster_api_provider_ocn.Conditions.Getter.{get}
use cluster_api_provider_ocn.Conditions.Setter.{set, delete}

pub data PatchOperation : Type 0 where
  add_condition : (after : Condition) → PatchOperation
  change_condition : (before after : Condition) → PatchOperation
  remove_condition : (before : Condition) → PatchOperation

pub data PatchError : Type 0 where
  before_nil after_nil latest_nil option_nil : PatchError
  add_conflict change_conflict deleted_conflict remove_conflict : String → PatchError

pub data Result (A : Type 0) : Type 0 where
  ok : A → Result A
  err : PatchError → Result A

-- reflect.DeepEqual on two conditions.
unfoldable pub deep_equal : Condition → Condition → Bool
deep_equal i j = has_same_state i j && i.last_transition_time =ℕ j.last_transition_time

-- The operation for one condition of the target, if it needs one.
unfoldable pub add_or_change : Object → Condition → List PatchOperation
add_or_change before target = elim (get before target.condition_type) [
  | none ↦ add_condition target ∷ []
  | some current ↦
      if not (deep_equal target current) then change_condition current target ∷ [] else []
]

unfoldable pub remove_missing : Object → Condition → List PatchOperation
remove_missing after base = elim (get after base.condition_type) [
  | none ↦ remove_condition base ∷ []
  | some target ↦ []
]

-- A loop that appends the operations of each condition.
unfoldable pub collect : (Condition → List PatchOperation) → List Condition → List PatchOperation
collect f [] = []
collect f (c ∷ cs) = f c ++ collect f cs

unfoldable pub new_patch : Option Object → Option Object → Result (List PatchOperation)
new_patch none after = err before_nil
new_patch (some before) none = err after_nil
new_patch (some before) (some after) = ok (
    collect (add_or_change before) after.conditions
    ++ collect (remove_missing after) before.conditions)

pub record ApplyOptions : Type 0 where
  pub owned_conditions : List String
  pub force_overwrite : Bool

-- &applyOptions{}
abbrev pub no_options : ApplyOptions
no_options = record { owned_conditions = []; force_overwrite = false }

unfoldable pub is_owned_condition : ApplyOptions → String → Bool
is_owned_condition o t = any (λ i. i == t) o.owned_conditions

abbrev pub ApplyOption : Type 0
ApplyOption = ApplyOptions → ApplyOptions

unfoldable pub with_owned_conditions : List String → ApplyOption
with_owned_conditions t c = record c { owned_conditions = t }

unfoldable pub with_force_overwrite : Bool → ApplyOption
with_force_overwrite v c = record c { force_overwrite = v }

-- The loop over the options.
unfoldable pub apply_options : List (Option ApplyOption) → ApplyOptions → Result ApplyOptions
apply_options [] c = ok c
apply_options (none ∷ os) c = err option_nil
apply_options (some o ∷ os) c = apply_options os (o c)

-- The controller's value wins for this type.
unfoldable pub overwrites : ApplyOptions → String → Bool
overwrites o t = o.force_overwrite || is_owned_condition o t

module _ ⦃time : TimeApi⦄ where
  -- The body of the loop of Apply, by the kind of operation.
  unfoldable pub apply_operation :
      ℕ → ApplyOptions → PatchOperation → Object → Object × Option PatchError
  apply_operation now o (add_condition after) latest =
      if overwrites o after.condition_type
      then (set now latest (some after), none)
      else (elim (get latest after.condition_type) [
        | none ↦ (set now latest (some after), none)
        | some current ↦
            if has_same_state current after
            then (latest, none)
            else (latest, some (add_conflict after.condition_type))
      ])
  apply_operation now o (change_condition before after) latest =
      if overwrites o after.condition_type
      then (set now latest (some after), none)
      else (elim (get latest after.condition_type) [
        | none ↦ (latest, some (deleted_conflict after.condition_type))
        | some current ↦
            if deep_equal current before
            then (set now latest (some after), none)
            else if has_same_state current after
            then (latest, none)
            else (latest, some (change_conflict after.condition_type))
      ])
  apply_operation now o (remove_condition before) latest =
      if overwrites o before.condition_type
      then (delete latest before.condition_type, none)
      else (elim (get latest before.condition_type) [
        | none ↦ (delete latest before.condition_type, none)
        | some current ↦
            if has_same_state current before
            then (delete latest before.condition_type, none)
            else (latest, some (remove_conflict before.condition_type))
      ])

  -- The first conflict ends the loop.
  unfoldable pub apply_operations :
      (ℕ → ℕ) → ApplyOptions → List PatchOperation → Object → Object × Option PatchError
  apply_operations now o [] latest = (latest, none)
  apply_operations now o (p ∷ ps) latest =
      let (next, e) = apply_operation (now 0) o p latest in
      let rest = apply_operations (λ i. now (suc i)) o ps next in
      elim e [ none ↦ rest | some x ↦ (next, some x) ]

  unfoldable pub apply :
      (ℕ → ℕ)
      → List PatchOperation
      → Option Object
      → List (Option ApplyOption)
      → Option Object × Option PatchError
  apply now [] latest options = (latest, none)
  apply now (p ∷ ps) none options = (none, some latest_nil)
  apply now (p ∷ ps) (some latest) options = elim (apply_options options no_options) [
    | err e ↦ (some latest, some e)
    | ok o ↦ (let (l, e) = apply_operations now o (p ∷ ps) latest in (some l, e))
  ]
