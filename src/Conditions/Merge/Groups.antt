-- ===== src/Conditions/Merge/Groups.antt =====
-- The groups of a merge against counts of the conditions by status and severity.
use native.Mathlib.Nat.{zero-add}
use cluster_api_provider_ocn.Base.{
  ℕ, suc, ◌+◌, String, ◌≡◌, refl, ap, ◌∙◌, Bool, true, false, ◌&&◌, Option, none, some, List, [],
  ◌∷◌, ◌==◌, eq_iff, if◌then◌else◌, length, length-append, sort, insert_sorted, length-sort, arith,
  ◌<>◌,
}
use cluster_api_provider_ocn.Fmt.{FmtApi}
use cluster_api_provider_ocn.Conditions.Defs.{Condition, Object, condition_true, severity_none}
use cluster_api_provider_ocn.Conditions.Merge.{
  LocalizedCondition, ConditionGroup, merge_priority, group_less, localized_less, is_group_of,
  add_to_groups, group_all, sort_top, get_condition_groups, get_by_status_and_severity, true_group,
  get_step_counter_message,
}

-- How many conditions of the input have this status and severity.
abbrev pub tally : String → String → List (Option Condition × Object) → ℕ
tally status severity [] = 0
tally status severity ((none, from) ∷ cs) = tally status severity cs
tally status severity ((some c, from) ∷ cs) =
    let rest = tally status severity cs in
    if c.status == status && c.severity == severity then suc rest else rest

abbrev pub size_of : Option ConditionGroup → ℕ
size_of none = 0
size_of (some g) = length g.conditions

abbrev pub group_size : String → String → List ConditionGroup → ℕ
group_size status severity gs = size_of (get_by_status_and_severity status severity gs)

abbrev one_if : Bool → ℕ
one_if true = 1
one_if false = 0

group_size-add_to_groups :
    (st sv : String) (c : LocalizedCondition) (gs : List ConditionGroup)
    → group_size st sv (add_to_groups c gs)
      ≡ group_size st sv gs + one_if (c.condition.status == st && c.condition.severity == sv)
unfolding add_to_groups get_by_status_and_severity is_group_of
group_size-add_to_groups st sv c [] = ground arith
group_size-add_to_groups st sv c (g ∷ gs) = ground (
  arith,
  group_size-add_to_groups st sv c gs,
  length-append g.conditions (c ∷ []),
  eq_iff g.status c.condition.status,
  eq_iff g.status st,
  eq_iff c.condition.status st,
  eq_iff g.severity c.condition.severity,
  eq_iff g.severity sv,
  eq_iff c.condition.severity sv,
)

group_size-group_all :
    (st sv : String) (cs : List (Option Condition × Object)) (gs : List ConditionGroup)
    → group_size st sv (group_all cs gs) ≡ group_size st sv gs + tally st sv cs
unfolding group_all
group_size-group_all st sv [] gs = omega arith
group_size-group_all st sv ((none, from) ∷ cs) gs = group_size-group_all st sv cs gs
group_size-group_all st sv ((some c, from) ∷ cs) gs = ground (
  arith,
  group_size-group_all st sv cs (add_to_groups (record { condition = c; getter = from }) gs),
  group_size-add_to_groups st sv (record { condition = c; getter = from }) gs,
)

-- Groups of one status and severity are not reordered.
group_less_same :
    (st sv : String) (g h : ConditionGroup)
    → is_group_of st sv g ≡ true
    → is_group_of st sv h ≡ true
    → group_less g h ≡ false
unfolding group_less merge_priority is_group_of
group_less_same st sv g h p q =
    ground
      (arith, eq_iff g.status st, eq_iff h.status st, eq_iff g.severity sv, eq_iff h.severity sv)

get_by-insert_sorted :
    (st sv : String) (g : ConditionGroup) (gs : List ConditionGroup)
    → get_by_status_and_severity st sv (insert_sorted group_less g gs)
      ≡ get_by_status_and_severity st sv (g ∷ gs)
unfolding get_by_status_and_severity insert_sorted
get_by-insert_sorted st sv g [] = refl
get_by-insert_sorted st sv g (h ∷ hs) =
    ground (arith, get_by-insert_sorted st sv g hs, group_less_same st sv h g)

get_by-cons :
    (st sv : String) (g : ConditionGroup) (gs hs : List ConditionGroup)
    → get_by_status_and_severity st sv gs ≡ get_by_status_and_severity st sv hs
    → get_by_status_and_severity st sv (g ∷ gs) ≡ get_by_status_and_severity st sv (g ∷ hs)
unfolding get_by_status_and_severity
get_by-cons st sv g gs hs e = rw e

get_by-sort :
    (st sv : String) (gs : List ConditionGroup)
    → get_by_status_and_severity st sv (sort group_less gs) ≡ get_by_status_and_severity st sv gs
unfolding sort
get_by-sort st sv [] = refl
get_by-sort st sv (g ∷ gs) =
    get_by-insert_sorted st sv g (sort group_less gs)
    ∙ get_by-cons st sv g (sort group_less gs) gs (get_by-sort st sv gs)

group_size-sort_top :
    (st sv : String) (gs : List ConditionGroup)
    → group_size st sv (sort_top gs) ≡ group_size st sv gs
unfolding sort_top get_by_status_and_severity is_group_of
group_size-sort_top st sv [] = refl
group_size-sort_top st sv (g ∷ gs) = ground (arith, length-sort localized_less g.conditions)

-- The group of a status and severity is as large as the number of conditions that have them.
pub group_size-get_condition_groups :
    (st sv : String) (cs : List (Option Condition × Object))
    → group_size st sv (get_condition_groups cs) ≡ tally st sv cs
unfolding get_condition_groups get_by_status_and_severity
group_size-get_condition_groups st sv cs =
    group_size-sort_top st sv (sort group_less (group_all cs []))
    ∙ ap size_of (get_by-sort st sv (group_all cs []))
    ∙ group_size-group_all st sv cs []
    ∙ zero-add (tally st sv cs)

-- The x in the message "x of y completed" is the number of conditions that are True.
pub get_step_counter_message-tally :
    ⦃fmt : FmtApi⦄
    → (cs : List (Option Condition × Object)) (to : ℕ)
    → get_step_counter_message (get_condition_groups cs) to
      ≡ fmt.itoa (tally condition_true severity_none cs) <> " of " <> fmt.itoa to <> " completed"
unfolding get_step_counter_message true_group
get_step_counter_message-tally cs to =
    ground (arith, group_size-get_condition_groups condition_true severity_none cs)
