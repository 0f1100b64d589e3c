-- ===== src/Conditions/Patch/RoundTrip.antt =====
-- Applying a patch: to the object that it was made from, and to an object that changed meanwhile.
use cluster_api_provider_ocn.Base.{
  ◌⊎◌, ◌≡◌, ◌≢◌, ℕ, refl, sym, true, Option, none, some, List, [], ◌∷◌, ◌++◌, Option-cases, All,
  inl, inr, String, In, All-append, All-append_left, All-append_right, Any-or-All, All-In, ◌==◌,
  eq_iff, arith, subst,
}
use cluster_api_provider_ocn.Meta.{TimeApi}
use cluster_api_provider_ocn.Conditions.Defs.{Condition, Object}
use cluster_api_provider_ocn.Conditions.Getter.{get}
use cluster_api_provider_ocn.Conditions.Setter.Order.{IsDistinct}
use cluster_api_provider_ocn.Conditions.Patch.{
  PatchOperation, ApplyOption, ApplyOptions, no_options, ok, apply_options, apply, apply_operations,
  add_or_change, remove_missing, collect, new_patch,
}
use cluster_api_provider_ocn.Conditions.Patch.Merging.{
  target, outcome, agree, Avoids, DistinctTargets, apply_operations-frame, apply_operations-outcome,
}
use cluster_api_provider_ocn.Conditions.Patch.Difference.{
  Fits, apply_operations-Fits, find_condition-In, find_condition-some, All-collect, All-collect-In,
  DistinctTargets-append, DistinctTargets-collect, All-add_or_change, single_add_or_change,
  add_or_change-Avoids, All-remove_missing, single_remove_missing, remove_missing-Avoids,
}

get-some :
    (x : Object) (t : String) (c : Condition)
    → get x t ≡ some c
    → In c x.conditions × (c.condition_type ≡ t)
unfolding get
get-some x t c h = find_condition-some t x.conditions c h

module _ (before after : Object) (before_distinct : IsDistinct before.conditions)
    (after_distinct : IsDistinct after.conditions) where
  abbrev difference : List PatchOperation
  difference =
      collect (add_or_change before) after.conditions
      ++ collect (remove_missing after) before.conditions

  get-after : (c : Condition) → In c after.conditions → get after c.condition_type ≡ some c
  unfolding get
  get-after c m = find_condition-In c after.conditions after_distinct m

  get-before : (c : Condition) → In c before.conditions → get before c.condition_type ≡ some c
  unfolding get
  get-before c m = find_condition-In c before.conditions before_distinct m

  difference-Fits : All (Fits before) difference
  difference-Fits =
      All-append (Fits before) (collect (add_or_change before) after.conditions)
        (collect (remove_missing after) before.conditions)
        (All-collect (add_or_change before) (Fits before) after.conditions
          (λ c m. All-add_or_change before c (Fits before) (λ e. e) (λ b e. e)))
        (All-collect (remove_missing after) (Fits before) before.conditions
          (λ c m. All-remove_missing after c (Fits before) (λ e. get-before c m)))

  abbrev Aims : PatchOperation → Type 0
  Aims p = outcome p ≡ get after (target p)

  -- Every operation aims at what the other object has.
  difference-Aims : All Aims difference
  difference-Aims =
      All-append Aims (collect (add_or_change before) after.conditions)
        (collect (remove_missing after) before.conditions)
        (All-collect (add_or_change before) Aims after.conditions (λ c m.
          All-add_or_change before c Aims (λ e. sym (get-after c m)) (λ b e. sym (get-after c m))))
        (All-collect (remove_missing after) Aims before.conditions
          (λ c m. All-remove_missing after c Aims (λ e. sym e)))

  about_add_or_change :
      (c : Condition) → All (λ p. target p ≡ c.condition_type) (add_or_change before c)
  about_add_or_change c =
      All-add_or_change before c (λ p. target p ≡ c.condition_type) (λ e. refl) (λ b e. refl)

  about_remove_missing :
      (c : Condition) → All (λ p. target p ≡ c.condition_type) (remove_missing after c)
  about_remove_missing c = All-remove_missing after c (λ p. target p ≡ c.condition_type) (λ e. refl)

  -- A removal is never about a type that the other loop handles.
  removals_apart :
      (c : Condition)
      → In c after.conditions
      → All (Avoids c.condition_type) (collect (remove_missing after) before.conditions)
  removals_apart c m =
      All-collect (remove_missing after) (Avoids c.condition_type) before.conditions λ d n.
        All-remove_missing after d (Avoids c.condition_type)
          λ e. ground (arith, eq_iff d.condition_type c.condition_type, get-after c m)

  difference-DistinctTargets : DistinctTargets difference
  difference-DistinctTargets =
      DistinctTargets-append (collect (add_or_change before) after.conditions)
        (collect (remove_missing after) before.conditions)
        (DistinctTargets-collect (add_or_change before) about_add_or_change
          (single_add_or_change before) after.conditions after_distinct)
        (DistinctTargets-collect (remove_missing after) about_remove_missing
          (single_remove_missing after) before.conditions before_distinct)
        (All-collect (add_or_change before)
          (λ p. All (Avoids (target p)) (collect (remove_missing after) before.conditions))
          after.conditions
          (λ c m.
            All-add_or_change before c
              (λ p. All (Avoids (target p)) (collect (remove_missing after) before.conditions))
              (λ e. removals_apart c m) (λ b e. removals_apart c m)))

  kept :
      (c : Condition)
      → In c after.conditions
      → All (Avoids c.condition_type) difference
      → agree (get before c.condition_type) (get after c.condition_type) ≡ true
  kept c m h = rw (get-after c m) (
      add_or_change-Avoids before c (
        All-collect-In (add_or_change before) (Avoids c.condition_type) c after.conditions m (
          All-append_left (Avoids c.condition_type)
            (collect (add_or_change before) after.conditions)
            (collect (remove_missing after) before.conditions) h)))

  not_removed :
      (b : Condition)
      → In b before.conditions
      → All (Avoids b.condition_type) difference
      → get after b.condition_type ≢ none
  not_removed b m h = remove_missing-Avoids after b (
      All-collect-In (remove_missing after) (Avoids b.condition_type) b before.conditions m (
        All-append_right (Avoids b.condition_type) (collect (add_or_change before) after.conditions)
          (collect (remove_missing after) before.conditions) h))

  -- A type that no operation is about is the same on both objects.
  difference_complete :
      (t : String) → All (Avoids t) difference → agree (get before t) (get after t) ≡ true
  difference_complete t h = elim (Option-cases (get after t)) [
    | inl e ↦ (elim (Option-cases (get before t)) [
      | inl f ↦ rw (e, f)
      | inr (b, f) ↦
          (let (m, q) = get-some before t b f in
            absurd (not_removed b m (subst (λ u. All (Avoids u) difference) (sym q) h) (rw q e)))
    ])
    | inr (c, e) ↦
        (let (m, q) = get-some after t c e in
          subst (λ u. agree (get before u) (get after u) ≡ true) q
            (kept c m (subst (λ u. All (Avoids u) difference) (sym q) h)))
  ]

module _ ⦃time : TimeApi⦄ where
  -- Where the operations of a patch end without a conflict, each type has the state of the object
  -- that the patch leads to, or both objects of the patch agree on it and it is as it was.
  abbrev pub Merged : Object → Object → Object → Object → String → Type 0
  Merged before after latest l t =
      (agree (get l t) (get after t) ≡ true)
      ⊎ ((agree (get before t) (get after t) ≡ true) × (get l t ≡ get latest t))

  difference-Merged :
      (now : ℕ → ℕ) (o : ApplyOptions) (before after : Object) (b : IsDistinct before.conditions)
      (a : IsDistinct after.conditions) (latest : Object)
      → (apply_operations now o (difference before after b a) latest).1 ≡ none
      → (t : String)
      → Merged before after latest (apply_operations now o (difference before after b a) latest).0 t
  difference-Merged now o before after b a latest h t =
      let ps = difference before after b a in
      let l = (apply_operations now o ps latest).0 in
      elim (Any-or-All (λ p. target p == t) ps) [
        | inl (p, m, q) ↦ inl (
            subst (λ u. agree (get l u) (get after u) ≡ true) ((eq_iff (target p) t).0 q)
              (subst (λ c. agree (get l (target p)) c ≡ true)
                (All-In (Aims before after b a) p ps (difference-Aims before after b a) m)
                (All-In (λ r. agree (get l (target r)) (outcome r) ≡ true) p ps
                  (apply_operations-outcome now o ps latest
                    (difference-DistinctTargets before after b a) h)
                  m)))
        | inr n ↦
            inr
              (difference_complete before after b a t n, apply_operations-frame now o ps latest t n)
      ]

  agree_of_Merged :
      (before after l : Object) (t : String)
      → Merged before after before l t
      → agree (get l t) (get after t) ≡ true
  agree_of_Merged before after l t (inl e) = e
  agree_of_Merged before after l t (inr (e, u)) = rw u e

  -- The part of Apply behind its tests.
  apply-some :
      (now : ℕ → ℕ) (ps : List PatchOperation) (latest : Object)
      (options : List (Option ApplyOption)) (o : ApplyOptions)
      → apply_options options no_options ≡ ok o
      → apply now ps (some latest) options
        ≡ (some (apply_operations now o ps latest).0, (apply_operations now o ps latest).1)
  unfolding apply apply_operations
  apply-some now [] latest options o h = refl
  apply-some now (p ∷ ps) latest options o h = ground arith

  -- When the patch from `before` to `after`, objects whose conditions have distinct types, is
  -- applied to any object and there is no conflict, each type ends as `after` has it, or it is as in
  -- the patched object and `before` and `after` agree on it. Transition times are left aside.
  pub three_way_merge :
      (now : ℕ → ℕ) (options : List (Option ApplyOption)) (before after latest l : Object)
      (ps : List PatchOperation) (o : ApplyOptions) (t : String)
      → IsDistinct before.conditions
      → IsDistinct after.conditions
      → new_patch (some before) (some after) ≡ ok ps
      → apply_options options no_options ≡ ok o
      → apply now ps (some latest) options ≡ (some l, none)
      → Merged before after latest l t
  unfolding new_patch
  three_way_merge now options before after latest l ps o t b a h k e =
      let q : difference before after b a ≡ ps = cc h in
      let r = apply-some now ps latest options o k in
      let still : (apply_operations now o (difference before after b a) latest).1 ≡ none =
        cc (e, q, r) in
      let there : (apply_operations now o (difference before after b a) latest).0 ≡ l =
        cc (e, q, r) in
      subst (λ x. Merged before after latest x t) there
        (difference-Merged now o before after b a latest still t)

  -- Between objects whose conditions have distinct types the patch, applied to the first, always
  -- succeeds and gives the conditions of the second, but for transition times.
  pub patch_round_trip :
      (now : ℕ → ℕ) (options : List (Option ApplyOption)) (before after : Object)
      (ps : List PatchOperation) (o : ApplyOptions)
      → IsDistinct before.conditions
      → IsDistinct after.conditions
      → new_patch (some before) (some after) ≡ ok ps
      → apply_options options no_options ≡ ok o
      → (l : Object) × (apply now ps (some before) options ≡ (some l, none))
        × ((t : String) → agree (get l t) (get after t) ≡ true)
  unfolding new_patch
  patch_round_trip now options before after ps o b a h k =
      let d = difference before after b a in
      let q : d ≡ ps = cc h in
      let done : (apply_operations now o d before).1 ≡ none =
        apply_operations-Fits now o d before (difference-DistinctTargets before after b a)
          (difference-Fits before after b a) in
      (
        (apply_operations now o d before).0,
        cc (apply-some now ps before options o k, q, done),
        λ t.
            agree_of_Merged before after (apply_operations now o d before).0 t
              (difference-Merged now o before after b a before done t),
      )
