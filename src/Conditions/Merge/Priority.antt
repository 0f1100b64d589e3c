-- ===== src/Conditions/Merge/Priority.antt =====
-- The priority of a merged condition against those of the conditions that it stands for.
use native.Mathlib.Nat.{le_refl}
use cluster_api_provider_ocn.Base.{
  ◌≤◌, ◌<◌, String, ◌≡◌, ◌≢◌, refl, ap, sym, subst, true, false, Option, none, some, List, [], ◌∷◌,
  ◌==◌, eq_iff, eq_refl, if◌then◌else◌, length, length-append, sort, sort-IsSortedBy, All-sort,
  length-sort, arith, Bool-cases, inl, inr, Option-cases, IsWeakOrder, IsSortedBy, All, All-mono,
  In, All-In,
}
use cluster_api_provider_ocn.Fmt.{FmtApi}
use cluster_api_provider_ocn.Conditions.Defs.{Condition, Object, condition_true, condition_false}
use cluster_api_provider_ocn.Conditions.Setter.{true_condition, false_condition, unknown_condition}
use cluster_api_provider_ocn.Conditions.Merge.{
  LocalizedCondition, ConditionGroup, MergeOptions, priority, merge_priority, group_less,
  localized_less, is_group_of, add_to_groups, group_all, sort_top, top_group, get_condition_groups,
  get_by_status_and_severity, merge, get_reason, get_message,
}
use cluster_api_provider_ocn.Conditions.Merge.Groups.{
  tally, size_of, group_size, group_size-get_condition_groups,
}

abbrev Nonempty : ConditionGroup → Type 0
Nonempty g = 0 < length g.conditions

add_to_groups-Nonempty :
    (c : LocalizedCondition) (gs : List ConditionGroup)
    → All Nonempty gs
    → All Nonempty (add_to_groups c gs)
unfolding add_to_groups
add_to_groups-Nonempty c [] h = (omega arith, tt)
add_to_groups-Nonempty c (g ∷ gs) h =
    elim (Bool-cases (is_group_of c.condition.status c.condition.severity g)) [
      | inl e ↦ rw e (omega (arith, length-append g.conditions (c ∷ [])), h.1)
      | inr e ↦ rw e (h.0, add_to_groups-Nonempty c gs h.1)
    ]

group_all-Nonempty :
    (cs : List (Option Condition × Object)) (gs : List ConditionGroup)
    → All Nonempty gs
    → All Nonempty (group_all cs gs)
unfolding group_all
group_all-Nonempty [] gs h = h
group_all-Nonempty ((none, from) ∷ cs) gs h = group_all-Nonempty cs gs h
group_all-Nonempty ((some c, from) ∷ cs) gs h =
    group_all-Nonempty cs (add_to_groups (record { condition = c; getter = from }) gs)
      (add_to_groups-Nonempty (record { condition = c; getter = from }) gs h)

get_by-some :
    (st sv : String) (gs : List ConditionGroup) (g : ConditionGroup)
    → get_by_status_and_severity st sv gs ≡ some g
    → In g gs × (is_group_of st sv g ≡ true)
unfolding get_by_status_and_severity
get_by-some st sv [] g h = cc
get_by-some st sv (x ∷ xs) g h = ground (arith, get_by-some st sv xs g)

group_size-pos :
    (st sv : String) (gs : List ConditionGroup)
    → 0 < group_size st sv gs
    → (g : ConditionGroup) × (In g gs) × (is_group_of st sv g ≡ true)
group_size-pos st sv gs h = elim (Option-cases (get_by_status_and_severity st sv gs)) [
  | inl e ↦ absurd (omega (arith, ap size_of e))
  | inr (g, e) ↦ (let (m, k) = get_by-some st sv gs g e in (g, m, k))
]

priority_of_group :
    (st sv : String) (g : ConditionGroup)
    → is_group_of st sv g ≡ true
    → merge_priority g ≡ priority st sv
unfolding merge_priority is_group_of
priority_of_group st sv g h = ground (arith, eq_iff g.status st, eq_iff g.severity sv)

group_less_asym : (x y : ConditionGroup) → group_less x y ≡ true → group_less y x ≡ false
unfolding group_less
group_less_asym x y h = ground arith

group_less_neg_trans :
    (x y z : ConditionGroup)
    → group_less x y ≡ false
    → group_less y z ≡ false
    → group_less x z ≡ false
unfolding group_less
group_less_neg_trans x y z h k = ground arith

abbrev group_order : IsWeakOrder group_less
group_order = record { asym = group_less_asym; neg_trans = group_less_neg_trans }

not_less : (g h : ConditionGroup) → group_less h g ≡ false → merge_priority g ≤ merge_priority h
unfolding group_less
not_less g h e = ground arith

abbrev Foremost : ConditionGroup → List ConditionGroup → Type 0
Foremost top gs =
    All (λ h. merge_priority top ≤ merge_priority h) gs
    × (0 < group_size top.status top.severity gs)

head_size :
    (g : ConditionGroup) (gs : List ConditionGroup)
    → Nonempty g
    → 0 < group_size g.status g.severity (sort_top (g ∷ gs))
unfolding sort_top get_by_status_and_severity is_group_of
head_size g gs h =
    ground (arith, length-sort localized_less g.conditions, eq_refl g.status, eq_refl g.severity)

-- The head of sorted groups has the highest priority, and holds a condition.
head_Foremost :
    (s : List ConditionGroup) (top : ConditionGroup)
    → IsSortedBy group_less s
    → All Nonempty s
    → top_group (sort_top s) ≡ some top
    → Foremost top (sort_top s)
unfolding sort_top top_group merge_priority
head_Foremost [] top h n e = cc
head_Foremost (g ∷ gs) top h n e =
    let q : record g { conditions = sort localized_less g.conditions } ≡ top = cc e in
    subst (λ t. Foremost t (sort_top (g ∷ gs))) q
      (
        (
          le_refl (priority g.status g.severity),
          All-mono (λ x. group_less x g ≡ false) (λ x. merge_priority g ≤ merge_priority x) gs
              (λ x. not_less g x) h.0,
        ),
        head_size g gs n.0,
      )

top_Foremost :
    (cs : List (Option Condition × Object)) (top : ConditionGroup)
    → top_group (get_condition_groups cs) ≡ some top
    → Foremost top (get_condition_groups cs)
unfolding get_condition_groups
top_Foremost cs top e =
    head_Foremost (sort group_less (group_all cs [])) top
      (sort-IsSortedBy group_less group_order (group_all cs []))
      (All-sort group_less Nonempty (group_all cs []) (group_all-Nonempty cs [] tt)) e

-- The top group has conditions of its status and severity, and no condition has a higher priority.
abbrev Represents : List (Option Condition × Object) → ConditionGroup → Type 0
Represents cs top =
    (0 < tally top.status top.severity cs)
    × ((st sv : String) → 0 < tally st sv cs → merge_priority top ≤ priority st sv)

top_Represents :
    (cs : List (Option Condition × Object)) (top : ConditionGroup)
    → top_group (get_condition_groups cs) ≡ some top
    → Represents cs top
top_Represents cs top e =
    let (first, size) = top_Foremost cs top e in
    (
      rw (← group_size-get_condition_groups top.status top.severity cs) size,
      λ st sv h.
          let (g, m, k) =
            group_size-pos st sv (get_condition_groups cs)
              (rw (group_size-get_condition_groups st sv cs) h) in
          rw (← priority_of_group st sv g k) (
            All-In (λ x. merge_priority top ≤ merge_priority x) g (get_condition_groups cs) first
              m),
    )

abbrev pub Recognised : List (Option Condition × Object) → Type 0
Recognised cs = (st sv : String) → 0 < tally st sv cs → priority st sv ≤ 4

-- The condition that merge makes of the top group.
abbrev made_from : ConditionGroup → String → String → String → Condition
made_from top t reason message =
    if top.status == condition_true
    then true_condition t
    else if top.status == condition_false
    then false_condition t reason top.severity message
    else unknown_condition t reason message

abbrev Stands : Condition → ConditionGroup → String → Type 0
Stands r top t =
    (merge_priority top ≤ 4 → priority r.status r.severity ≡ merge_priority top)
    × (r.condition_type ≡ t)

made_from-Stands :
    (top : ConditionGroup) (t reason message : String)
    → Stands (made_from top t reason message) top t
unfolding merge_priority priority true_condition false_condition unknown_condition
made_from-Stands top t reason message = elim (Bool-cases (top.status == condition_true)) [
  | inl e ↦ rw (e, (eq_iff top.status condition_true).0 e) (λ h. refl, refl)
  | inr e ↦ (elim (Bool-cases (top.status == condition_false)) [
    | inl f ↦ rw (e, f) (λ h. refl, refl)
    | inr f ↦ rw (e, f) (λ h. ground arith, refl)
  ])
]

module _ ⦃fmt : FmtApi⦄ where
  merge-top_group :
      (cs : List (Option Condition × Object)) (t : String) (o : MergeOptions) (r : Condition)
      → merge cs t o ≡ some r
      → (top : ConditionGroup) × (top_group (get_condition_groups cs) ≡ some top) × Stands r top t
  unfolding merge
  merge-top_group cs t o r h = elim (Option-cases (top_group (get_condition_groups cs))) [
    | inl e ↦ ground arith
    | inr (top, e) ↦
        (let reason = get_reason (get_condition_groups cs) o in
          let message = fmt.sprintf (get_message (get_condition_groups cs) o) in
          let q : made_from top t reason message ≡ r = ground arith in
          (top, e, subst (λ c. Stands c top t) q (made_from-Stands top t reason message)))
  ]

  -- If every condition has one of the statuses and severities of the Cluster API, the merged
  -- condition has the priority of one of them, and none of them has a higher one.
  pub merge-highest :
      (cs : List (Option Condition × Object)) (t : String) (o : MergeOptions) (r : Condition)
      → Recognised cs
      → merge cs t o ≡ some r
      → (r.condition_type ≡ t)
        × ((st : String) × (sv : String) × (0 < tally st sv cs)
            × (priority st sv ≡ priority r.status r.severity))
        × ((st sv : String) → 0 < tally st sv cs → priority r.status r.severity ≤ priority st sv)
  unfolding merge_priority
  merge-highest cs t o r k h =
      let (top, e, stands) = merge-top_group cs t o r h in
      let (same, about) = stands in
      let (held, least) = top_Represents cs top e in
      let q = same (k top.status top.severity held) in
      (about, (top.status, top.severity, held, sym q), λ st sv m. rw q (least st sv m))

add_to_groups-ne-nil : (c : LocalizedCondition) (gs : List ConditionGroup) → add_to_groups c gs ≢ []
unfolding add_to_groups
add_to_groups-ne-nil c [] h = cc
add_to_groups-ne-nil c (g ∷ gs) h = ground arith
