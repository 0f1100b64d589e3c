-- ===== src/Conditions/Merge.antt =====
-- util/conditions/merge.go and merge_strategies.go: one condition that stands for many. A
-- localizedCondition whose Condition is nil is `(none, getter)`.
pub mod Absent
pub mod Groups
pub mod Priority
use text.Mathlib.Text.{find?}
use cluster_api_provider_ocn.Base.{
  ℕ, String, ◌<>◌, Bool, true, false, not, ◌&&◌, Option, none, some, List, [], ◌∷◌, ◌++◌, ◌==◌, ltb,
  if◌then◌else◌, str_lt, sort, length, any, is_some, filter,
}
use cluster_api_provider_ocn.Fmt.{FmtApi}
use cluster_api_provider_ocn.Conditions.Defs.{
  Condition, Object, ready_condition, condition_true, condition_false, condition_unknown,
  severity_error, severity_warning, severity_info, severity_none, lexicographic_less,
}
use cluster_api_provider_ocn.Conditions.Getter.{get}
use cluster_api_provider_ocn.Conditions.Setter.{true_condition, false_condition, unknown_condition}

pub record LocalizedCondition : Type 0 where
  pub condition : Condition
  pub getter : Object

pub record ConditionGroup : Type 0 where
  pub status : String
  pub severity : String
  pub conditions : List LocalizedCondition

pub record MergeOptions : Type 0 where
  pub condition_types : Option (List String)
  pub add_source_ref : Bool
  pub add_step_counter : Bool
  pub add_step_counter_if_only_condition_types : Option (List String)
  pub step_counter : ℕ

abbrev pub MergeOption : Type 0
MergeOption = MergeOptions → MergeOptions

-- &mergeOptions{}
abbrev pub no_merge_options : MergeOptions
no_merge_options = record {
  condition_types = none;
  add_source_ref = false;
  add_step_counter = false;
  add_step_counter_if_only_condition_types = none;
  step_counter = 0;
}

unfoldable pub with_conditions : List String → MergeOption
with_conditions t c = record c { condition_types = some t }

unfoldable pub with_step_counter : MergeOption
with_step_counter c = record c { add_step_counter = true }

unfoldable pub with_step_counter_if : Bool → MergeOption
with_step_counter_if value c = record c { add_step_counter = value }

unfoldable pub with_step_counter_if_only : List String → MergeOption
with_step_counter_if_only t c = record c { add_step_counter_if_only_condition_types = some t }

unfoldable pub add_source_ref : MergeOption
add_source_ref c = record c { add_source_ref = true }

-- The loop over the options.
unfoldable pub apply_merge_options : List MergeOption → MergeOptions → MergeOptions
apply_merge_options [] c = c
apply_merge_options (o ∷ os) c = apply_merge_options os (o c)

-- mergePriority, on the two fields that it reads.
unfoldable pub priority : String → String → ℕ
priority status severity =
    if status == condition_false
    then (if severity == severity_error
        then 0
        else if severity == severity_warning
        then 1
        else if severity == severity_info
        then 2
        else 99)
    else if status == condition_true
    then 3
    else if status == condition_unknown
    then 4
    else 99

unfoldable pub merge_priority : ConditionGroup → ℕ
unfolding priority
merge_priority g = priority g.status g.severity

-- Less of conditionGroups.
unfoldable pub group_less : ConditionGroup → ConditionGroup → Bool
group_less g h = ltb (merge_priority g) (merge_priority h)

-- The order of the conditions of the top group.
unfoldable pub localized_less : LocalizedCondition → LocalizedCondition → Bool
localized_less a b =
    if not (a.condition.condition_type == b.condition.condition_type)
    then lexicographic_less a.condition b.condition
    else str_lt a.getter.name b.getter.name

-- The group is for conditions of this status and severity.
unfoldable pub is_group_of : String → String → ConditionGroup → Bool
is_group_of status severity g = g.status == status && g.severity == severity

-- The inner loop of getConditionGroups: the condition goes to its group, or to a new one.
unfoldable pub add_to_groups : LocalizedCondition → List ConditionGroup → List ConditionGroup
add_to_groups c [] =
    record { status = c.condition.status; severity = c.condition.severity; conditions = c ∷ [] }
    ∷ []
add_to_groups c (g ∷ gs) =
    let rest = add_to_groups c gs in
    if is_group_of c.condition.status c.condition.severity g
    then record g { conditions = g.conditions ++ (c ∷ []) } ∷ gs
    else g ∷ rest

-- The outer loop, which skips what has no condition.
unfoldable pub group_all :
    List (Option Condition × Object) → List ConditionGroup → List ConditionGroup
group_all [] groups = groups
group_all ((none, from) ∷ cs) groups = group_all cs groups
group_all ((some c, from) ∷ cs) groups =
    group_all cs (add_to_groups (record { condition = c; getter = from }) groups)

unfoldable pub sort_top : List ConditionGroup → List ConditionGroup
sort_top [] = []
sort_top (g ∷ gs) = record g { conditions = sort localized_less g.conditions } ∷ gs

unfoldable pub get_condition_groups : List (Option Condition × Object) → List ConditionGroup
get_condition_groups conditions = sort_top (sort group_less (group_all conditions []))

unfoldable pub top_group : List ConditionGroup → Option ConditionGroup
top_group [] = none
top_group (g ∷ gs) = some g

unfoldable pub get_by_status_and_severity :
    String → String → List ConditionGroup → Option ConditionGroup
get_by_status_and_severity status severity [] = none
get_by_status_and_severity status severity (g ∷ gs) =
    if is_group_of status severity g then some g else get_by_status_and_severity status severity gs

unfoldable pub true_group : List ConditionGroup → Option ConditionGroup
true_group = get_by_status_and_severity condition_true severity_none

unfoldable pub error_group : List ConditionGroup → Option ConditionGroup
error_group = get_by_status_and_severity condition_false severity_error

unfoldable pub warning_group : List ConditionGroup → Option ConditionGroup
warning_group = get_by_status_and_severity condition_false severity_warning

unfoldable pub find_type : String → List LocalizedCondition → Option LocalizedCondition
find_type p [] = none
find_type p (c ∷ cs) = if c.condition.condition_type == p then some c else find_type p cs

-- The two loops over the priorities and the top group.
unfoldable pub find_by_priority :
    List String → List LocalizedCondition → LocalizedCondition → LocalizedCondition
find_by_priority [] cs first = first
find_by_priority (p ∷ ps) cs first =
    let rest = find_by_priority ps cs first in elim (find_type p cs) [ none ↦ rest | some c ↦ c ]

unfoldable pub first_of_group : List LocalizedCondition → List String → Option LocalizedCondition
first_of_group [] order = none
first_of_group (c ∷ []) order = some c
first_of_group (c ∷ d ∷ cs) order = some (find_by_priority order (c ∷ d ∷ cs) c)

unfoldable pub get_first_condition :
    List ConditionGroup → Option (List String) → Option LocalizedCondition
get_first_condition g order = elim (top_group g) [
  | none ↦ none
  | some top ↦ first_of_group top.conditions (elim order [ none ↦ [] | some o ↦ o ])
]

unfoldable pub localize_reason : String → Object → String
localize_reason reason from =
    if is_some (find? reason "@") then reason else reason <> " @ " <> from.kind <> "/" <> from.name

unfoldable pub get_first_reason : List ConditionGroup → Option (List String) → Bool → String
get_first_reason g order source_ref = elim (get_first_condition g order) [
  | none ↦ ""
  | some c ↦ if source_ref then localize_reason c.condition.reason c.getter else c.condition.reason
]

unfoldable pub get_reason : List ConditionGroup → MergeOptions → String
get_reason groups options = get_first_reason groups options.condition_types options.add_source_ref

unfoldable pub get_first_message : List ConditionGroup → Option (List String) → String
get_first_message groups order = elim (get_first_condition groups order) [
  | none ↦ ""
  | some c ↦ c.condition.message
]

module _ ⦃fmt : FmtApi⦄ where
  unfoldable pub get_step_counter_message : List ConditionGroup → ℕ → String
  get_step_counter_message groups to =
      let ct : ℕ = elim (true_group groups) [ none ↦ 0 | some g ↦ length g.conditions ] in
      fmt.itoa ct <> " of " <> fmt.itoa to <> " completed"

  unfoldable pub get_message : List ConditionGroup → MergeOptions → String
  get_message groups options =
      if options.add_step_counter
      then get_step_counter_message groups options.step_counter
      else get_first_message groups options.condition_types

  -- The message goes through FalseCondition and UnknownCondition as a format with no arguments.
  unfoldable pub merge : List (Option Condition × Object) → String → MergeOptions → Option Condition
  merge conditions target options =
      let g = get_condition_groups conditions in
      elim (top_group g) [
        | none ↦ none
        | some top ↦
            if top.status == condition_true
            then some (true_condition target)
            else if top.status == condition_false
            then some (
                false_condition target (get_reason g options) top.severity
                  (fmt.sprintf (get_message g options)))
            else some (
                unknown_condition target (get_reason g options)
                  (fmt.sprintf (get_message g options)))
      ]
