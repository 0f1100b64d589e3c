-- ===== src/Conditions/Merge/Absent.antt =====
-- When a merge has no result.
use cluster_api_provider_ocn.Base.{
  ◌≡◌, refl, ◌∙◌, sym, Option, none, some, List, [], ◌∷◌, String, All, arith, ◌↔◌, eq_refl, sort,
}
use cluster_api_provider_ocn.Fmt.{FmtApi}
use cluster_api_provider_ocn.Conditions.Defs.{Condition, Object}
use cluster_api_provider_ocn.Conditions.Merge.{
  ConditionGroup, MergeOptions, group_all, sort_top, top_group, get_condition_groups, merge,
  get_by_status_and_severity,
}
use cluster_api_provider_ocn.Conditions.Merge.Groups.{
  tally, group_size, group_size-get_condition_groups,
}

abbrev pub IsAbsent : Option Condition × Object → Type 0
IsAbsent c = c.0 ≡ none

group_all-absent :
    (cs : List (Option Condition × Object)) (gs : List ConditionGroup)
    → All IsAbsent cs
    → group_all cs gs ≡ gs
unfolding group_all
group_all-absent [] gs h = refl
group_all-absent ((none, from) ∷ cs) gs h = group_all-absent cs gs h.1
group_all-absent ((some c, from) ∷ cs) gs h = cc h.0

IsAbsent-tally :
    (cs : List (Option Condition × Object))
    → ((st sv : String) → tally st sv cs ≡ 0)
    → All IsAbsent cs
IsAbsent-tally [] h = tt
IsAbsent-tally ((none, from) ∷ cs) h = (refl, IsAbsent-tally cs h)
IsAbsent-tally ((some c, from) ∷ cs) h =
    absurd (ground (arith, h c.status c.severity, eq_refl c.status, eq_refl c.severity))

group_size-no_top :
    (st sv : String) (gs : List ConditionGroup) → top_group gs ≡ none → group_size st sv gs ≡ 0
unfolding top_group get_by_status_and_severity
group_size-no_top st sv [] h = refl
group_size-no_top st sv (g ∷ gs) h = cc

no_groups :
    (cs : List (Option Condition × Object))
    → All IsAbsent cs
    → top_group (get_condition_groups cs) ≡ none
unfolding get_condition_groups top_group sort_top sort
no_groups cs h = rw (group_all-absent cs [] h)

module _ ⦃fmt : FmtApi⦄ where
  merge_no_top :
      (cs : List (Option Condition × Object)) (t : String) (o : MergeOptions)
      → (merge cs t o ≡ none) ↔ (top_group (get_condition_groups cs) ≡ none)
  unfolding merge
  merge_no_top cs t o = (λ h. ground arith, λ h. ground arith)

  -- A merge has no result exactly when none of the objects has a condition.
  pub merge-none :
      (cs : List (Option Condition × Object)) (t : String) (o : MergeOptions)
      → (merge cs t o ≡ none) ↔ All IsAbsent cs
  merge-none cs t o = (
    λ h. IsAbsent-tally cs λ st sv.
        sym (group_size-get_condition_groups st sv cs)
        ∙ group_size-no_top st sv (get_condition_groups cs) ((merge_no_top cs t o).0 h),
    λ h. (merge_no_top cs t o).1 (no_groups cs h),
  )
