-- ===== src/Examples/ConditionRuns.antt =====
-- The theorems of util/conditions at concrete conditions.
use cluster_api_provider_ocn.Base.{
  ℕ, String, ◌≡◌, ◌≤◌, ◌<◌, ◌<>◌, refl, true, none, some, List, [], ◌∷◌, All, if◌then◌else◌, ◌==◌,
  ◌↔◌, Option, eq_iff, arith, zero, suc,
}
use cluster_api_provider_ocn.Meta.{wall_clock}
use cluster_api_provider_ocn.Fmt.{plain_fmt}
use cluster_api_provider_ocn.Conditions.Defs.{Condition, Object, lexicographic_less, has_same_state}
use cluster_api_provider_ocn.Conditions.Getter.{get}
use cluster_api_provider_ocn.Conditions.Setter.{set, delete}
use cluster_api_provider_ocn.Conditions.Setter.Laws.{settled, get-set}
use cluster_api_provider_ocn.Conditions.Setter.Order.{set-IsOrdered, Ascends, set_same_state}
use cluster_api_provider_ocn.Conditions.Patch.{
  PatchOperation, add_condition, change_condition, remove_condition, ok, no_options, new_patch,
  apply_options, apply_operations, apply,
}
use cluster_api_provider_ocn.Conditions.Patch.Merging.{
  agree, Holds, apply_operations-frame, apply_operations-outcome,
}
use cluster_api_provider_ocn.Conditions.Patch.RoundTrip.{Merged, three_way_merge, patch_round_trip}
use cluster_api_provider_ocn.Conditions.Merge.{
  get_condition_groups, get_step_counter_message, merge, no_merge_options, priority,
}
use cluster_api_provider_ocn.Conditions.Merge.Groups.{tally}
use cluster_api_provider_ocn.Conditions.Merge.Priority.{Recognised, merge-highest}
use cluster_api_provider_ocn.Examples.ConditionData.{
  available, broken, machine_a, machine_b, empty_machine,
}

get-set_example : get (set ⦃time = wall_clock⦄ 9 machine_a (some broken)) "Ready" ≡ (
    if "Available" == "Ready"
    then some (settled ⦃time = wall_clock⦄ 9 broken (get machine_a "Available"))
    else get machine_a "Ready")
get-set_example = get-set ⦃time = wall_clock⦄ 9 machine_a broken "Ready"

set-IsOrdered_example : Ascends (set ⦃time = wall_clock⦄ 9 empty_machine (some broken)).conditions
set-IsOrdered_example = set-IsOrdered ⦃time = wall_clock⦄ 9 empty_machine broken tt

set_same_state_example : set ⦃time = wall_clock⦄ 9 machine_a (some available) ≡ machine_a
unfolding lexicographic_less get has_same_state
set_same_state_example =
    set_same_state ⦃time = wall_clock⦄ 9 machine_a available available ((refl, tt), (tt, tt)) refl
      refl

apply_operations-frame_example :
    get
      (apply_operations ⦃time = wall_clock⦄
        (λ n. n)
        no_options
        (change_condition available broken ∷ [])
        machine_a).0
      "Ready"
    ≡ get machine_a "Ready"
apply_operations-frame_example =
    apply_operations-frame ⦃time = wall_clock⦄ (λ n. n) no_options
      (change_condition available broken ∷ []) machine_a "Ready" (refl, tt)

apply_operations-outcome_example :
    Holds
      (apply_operations ⦃time = wall_clock⦄
        (λ n. n)
        no_options
        (change_condition available broken ∷ [])
        machine_a).0
      (change_condition available broken ∷ [])
unfolding apply_operations cluster_api_provider_ocn.Conditions.Patch.apply_operation
    cluster_api_provider_ocn.Conditions.Patch.overwrites
    cluster_api_provider_ocn.Conditions.Patch.is_owned_condition get
    cluster_api_provider_ocn.Conditions.Patch.deep_equal has_same_state
apply_operations-outcome_example =
    apply_operations-outcome ⦃time = wall_clock⦄ (λ n. n) no_options
      (change_condition available broken ∷ []) machine_a (tt, tt) refl

abbrev l_example : Object
l_example =
    (apply_operations ⦃time = wall_clock⦄ (λ n. n) no_options
      (change_condition available broken ∷ []) machine_a).0

three_way_merge_example :
    Merged ⦃time = wall_clock⦄ machine_a machine_b machine_a l_example "Available"
unfolding new_patch apply_options apply cluster_api_provider_ocn.Conditions.Patch.collect
    cluster_api_provider_ocn.Conditions.Patch.add_or_change get
    cluster_api_provider_ocn.Conditions.Patch.deep_equal has_same_state
    cluster_api_provider_ocn.Conditions.Patch.remove_missing apply_operations
    cluster_api_provider_ocn.Conditions.Patch.apply_operation
    cluster_api_provider_ocn.Conditions.Patch.overwrites
    cluster_api_provider_ocn.Conditions.Patch.is_owned_condition
three_way_merge_example =
    three_way_merge ⦃time = wall_clock⦄ (λ n. n) [] machine_a machine_b machine_a l_example
      (change_condition available broken ∷ []) no_options "Available" ((refl, tt), (tt, tt))
      ((refl, tt), (tt, tt)) refl refl refl

patch_round_trip_example :
    (l : Object) × (apply ⦃time = wall_clock⦄
        (λ n. n)
        (change_condition available broken ∷ [])
        (some machine_a)
        []
      ≡ (some l, none))
    × ((t : String) → agree (get l t) (get machine_b t) ≡ true)
unfolding new_patch apply_options cluster_api_provider_ocn.Conditions.Patch.collect
    cluster_api_provider_ocn.Conditions.Patch.add_or_change get
    cluster_api_provider_ocn.Conditions.Patch.deep_equal has_same_state
    cluster_api_provider_ocn.Conditions.Patch.remove_missing
patch_round_trip_example =
    patch_round_trip ⦃time = wall_clock⦄ (λ n. n) [] machine_a machine_b
      (change_condition available broken ∷ []) no_options ((refl, tt), (tt, tt))
      ((refl, tt), (tt, tt)) refl refl

recognised : Recognised ((some broken, machine_b) ∷ [])
unfolding priority
recognised st sv h = ground (arith, eq_iff "False" st, eq_iff "Error" sv)

abbrev merged_ready : Condition
merged_ready = record broken { condition_type = "Ready"; last_transition_time = 0 }

merge-highest_example :
    (merged_ready.condition_type ≡ "Ready")
    × ((st : String) × (sv : String) × (0 < tally st sv ((some broken, machine_b) ∷ []))
        × (priority st sv ≡ priority merged_ready.status merged_ready.severity))
    × ((st sv : String)
        → 0 < tally st sv ((some broken, machine_b) ∷ [])
        → priority merged_ready.status merged_ready.severity ≤ priority st sv)
unfolding merge cluster_api_provider_ocn.Conditions.Merge.top_group get_condition_groups
    cluster_api_provider_ocn.Conditions.Merge.sort_top cluster_api_provider_ocn.Base.sort
    cluster_api_provider_ocn.Conditions.Merge.group_all
    cluster_api_provider_ocn.Conditions.Merge.add_to_groups
    cluster_api_provider_ocn.Conditions.Setter.false_condition
    cluster_api_provider_ocn.Conditions.Merge.get_reason
    cluster_api_provider_ocn.Conditions.Merge.get_message
    cluster_api_provider_ocn.Conditions.Merge.get_first_reason
    cluster_api_provider_ocn.Conditions.Merge.get_first_message
    cluster_api_provider_ocn.Conditions.Merge.get_first_condition
    cluster_api_provider_ocn.Conditions.Merge.first_of_group
merge-highest_example =
    merge-highest ⦃fmt = plain_fmt⦄ ((some broken, machine_b) ∷ []) "Ready" no_merge_options
      merged_ready recognised refl
