-- ===== src/Conditions/Summary.antt =====
-- util/conditions/getter.go and setter.go: the Ready condition as the summary of an object's other
-- conditions, the mirror of another object's Ready condition, and the aggregate of many.
use cluster_api_provider_ocn.Base.{
  ℕ, String, Bool, true, false, not, Option, none, some, List, [], ◌∷◌, ◌==◌, if◌then◌else◌, any,
  filter, length, map,
}
use cluster_api_provider_ocn.Meta.{TimeApi}
use cluster_api_provider_ocn.Fmt.{FmtApi}
use cluster_api_provider_ocn.Conditions.Defs.{Condition, Object, ready_condition}
use cluster_api_provider_ocn.Conditions.Getter.{get}
use cluster_api_provider_ocn.Conditions.Setter.{set, true_condition, false_condition}
use cluster_api_provider_ocn.Conditions.Merge.{
  MergeOptions, MergeOption, no_merge_options, apply_merge_options, merge,
}

-- The inner loops of summary: the type is in the list.
unfoldable pub is_listed : List String → String → Bool
is_listed ts t = any (λ u. t == u) ts

-- The outer loop: all conditions but Ready, or those of the given types.
unfoldable pub in_scope : Option (List String) → List Condition → List Condition
in_scope types = filter (λ c.
    if c.condition_type == ready_condition
    then false
    else (elim types [ none ↦ true | some ts ↦ is_listed ts c.condition_type ]))

-- A step counter that is wanted only for some types is dropped when another type is in scope.
unfoldable pub keep_step_counter : Option (List String) → List Condition → Bool → Bool
keep_step_counter none cs wanted = wanted
keep_step_counter (some ts) cs wanted =
    if any (λ c. not (is_listed ts c.condition_type)) cs then false else wanted

unfoldable pub step_total : MergeOptions → List Condition → ℕ
step_total o cs = elim o.add_step_counter_if_only_condition_types [
  | some ts ↦ length ts
  | none ↦ elim o.condition_types [ some ts ↦ length ts | none ↦ length cs ]
]

unfoldable pub summary_options : MergeOptions → List Condition → MergeOptions
summary_options o cs =
    let wanted =
      keep_step_counter o.add_step_counter_if_only_condition_types cs o.add_step_counter in
    record o {
      add_step_counter = wanted;
      step_counter = if wanted then step_total o cs else o.step_counter;
    }

module _ ⦃fmt : FmtApi⦄ where
  unfoldable pub summary : Object → List MergeOption → Option Condition
  summary from options =
      let o = apply_merge_options options no_merge_options in
      let cs = in_scope o.condition_types from.conditions in
      merge (map (λ c. (some c, from)) cs) ready_condition (summary_options o cs)

  unfoldable pub aggregate : List Object → String → List MergeOption → Option Condition
  aggregate from target options = merge (map (λ x. (get x ready_condition, x)) from) target (
      apply_merge_options options
        (record no_merge_options { add_step_counter = true; step_counter = length from }))

pub record MirrorOptions : Type 0 where
  pub fallback_to : Option Bool
  pub fallback_reason : String
  pub fallback_severity : String
  pub fallback_message : String

abbrev pub no_mirror_options : MirrorOptions
no_mirror_options = record {
  fallback_to = none;
  fallback_reason = "";
  fallback_severity = "";
  fallback_message = "";
}

abbrev pub MirrorOption : Type 0
MirrorOption = MirrorOptions → MirrorOptions

unfoldable pub with_fallback_value : Bool → String → String → String → MirrorOption
with_fallback_value value reason severity message c = record c {
  fallback_to = some value;
  fallback_reason = reason;
  fallback_severity = severity;
  fallback_message = message;
}

unfoldable pub apply_mirror_options : List MirrorOption → MirrorOptions → MirrorOptions
apply_mirror_options [] c = c
apply_mirror_options (o ∷ os) c = apply_mirror_options os (o c)

module _ ⦃fmt : FmtApi⦄ where
  -- The condition that stands in for a missing Ready condition.
  unfoldable pub fallback : String → MirrorOptions → Option Condition
  fallback target o = elim o.fallback_to [
    | none ↦ none
    | some true ↦ some (true_condition target)
    | some false ↦ some (
        false_condition target o.fallback_reason o.fallback_severity
          (fmt.sprintf o.fallback_message))
  ]

  unfoldable pub mirror : Object → String → List MirrorOption → Option Condition
  mirror from target options =
      let o = apply_mirror_options options no_mirror_options in
      let condition : Option Condition = elim (get from ready_condition) [
        | some c ↦ some c
        | none ↦ fallback target o
      ] in
      elim condition [ none ↦ none | some c ↦ some (record c { condition_type = target }) ]

module _ ⦃time : TimeApi⦄ ⦃fmt : FmtApi⦄ where
  unfoldable pub set_summary : ℕ → Object → List MergeOption → Object
  set_summary now to options = set now to (summary to options)

  unfoldable pub set_mirror : ℕ → Object → String → Object → List MirrorOption → Object
  set_mirror now to target from options = set now to (mirror from target options)

  unfoldable pub set_aggregate : ℕ → Object → String → List Object → List MergeOption → Object
  set_aggregate now to target from options = set now to (aggregate from target options)
