-- ===== src/Conditions/Setter/Order.antt =====
-- The order of the conditions of an object: Ready first, then by type, each type once.
use cluster_api_provider_ocn.Base.{
  ℕ, ◌≡◌, ◌≢◌, ◌⊎◌, str_lt, refl, Bool, true, false, not, some, List, [], ◌∷◌, ◌++◌, ◌==◌, eq_iff,
  if◌then◌else◌, filter, sort, insert_sorted, All-insert_sorted, Bool-cases, inl, inr, All,
  All-mono, All-filter, str_lt_trans, str_lt_irrefl, str_lt_tri, arith, String, All-sort,
}
use cluster_api_provider_ocn.Meta.{TimeApi, truncate_second}
use cluster_api_provider_ocn.Conditions.Defs.{Condition, Object, lexicographic_less, has_same_state}
use cluster_api_provider_ocn.Conditions.Setter.Laws.{
  condition_type-with_transition_time, exists_type-find_condition, less_asym,
}
use cluster_api_provider_ocn.Conditions.Getter.{get, find_condition}
use cluster_api_provider_ocn.Conditions.Setter.{
  update_existing, exists_type, with_transition_time, set_conditions, set, delete,
}

-- Each condition comes before all that follow it.
abbrev pub IsOrdered : List Condition → Type 0
IsOrdered [] = Unit
IsOrdered (c ∷ cs) = All (λ d. lexicographic_less c d ≡ true) cs × IsOrdered cs

abbrev pub Differs : Condition → Condition → Type 0
Differs c d = (d.condition_type == c.condition_type) ≡ false

-- No two conditions have the same type.
abbrev pub IsDistinct : List Condition → Type 0
IsDistinct [] = Unit
IsDistinct (c ∷ cs) = All (Differs c) cs × IsDistinct cs

-- A condition stands before another: it is the only one that is Ready, or neither is and its type is
-- the lower text.
abbrev pub Precedes : Condition → Condition → Type 0
Precedes c d =
    ((c.condition_type ≡ "Ready") × (d.condition_type ≢ "Ready"))
    ⊎ ((c.condition_type ≢ "Ready")
        × (d.condition_type ≢ "Ready")
        × (str_lt c.condition_type d.condition_type ≡ true))

abbrev pub Ascends : List Condition → Type 0
Ascends [] = Unit
Ascends (c ∷ cs) = All (Precedes c) cs × Ascends cs

less-Precedes : (c d : Condition) → lexicographic_less c d ≡ true → Precedes c d
unfolding lexicographic_less
less-Precedes c d h =
    ground (arith, h, eq_iff c.condition_type "Ready", eq_iff d.condition_type "Ready")

IsOrdered-Ascends : (cs : List Condition) → IsOrdered cs → Ascends cs
IsOrdered-Ascends [] h = tt
IsOrdered-Ascends (c ∷ cs) h = (
  All-mono (λ d. lexicographic_less c d ≡ true) (Precedes c) cs (less-Precedes c) h.0,
  IsOrdered-Ascends cs h.1,
)

less_trans :
    (x y z : Condition)
    → lexicographic_less x y ≡ true
    → lexicographic_less y z ≡ true
    → lexicographic_less x z ≡ true
unfolding lexicographic_less
less_trans x y z h k =
    ground (arith, str_lt_trans x.condition_type y.condition_type z.condition_type)

less_total :
    (x y : Condition) → Differs x y → lexicographic_less y x ≡ false → lexicographic_less x y ≡ true
unfolding lexicographic_less
less_total x y d h = ground (
  arith,
  str_lt_tri x.condition_type y.condition_type,
  eq_iff y.condition_type x.condition_type,
  eq_iff y.condition_type "Ready",
  eq_iff x.condition_type "Ready",
)

IsOrdered-insert_sorted :
    (x : Condition) (xs : List Condition)
    → All (Differs x) xs
    → IsOrdered xs
    → IsOrdered (insert_sorted lexicographic_less x xs)
unfolding insert_sorted
IsOrdered-insert_sorted x [] d h = (tt, tt)
IsOrdered-insert_sorted x (y ∷ ys) d h = elim (Bool-cases (lexicographic_less y x)) [
  | inl e ↦ rw e (
    All-insert_sorted lexicographic_less (λ z. lexicographic_less y z ≡ true) x ys e h.0,
    IsOrdered-insert_sorted x ys d.1 h.1,
  )
  | inr e ↦ rw e (
    (
      less_total x y d.0 e,
      All-mono (λ z. lexicographic_less y z ≡ true) (λ z. lexicographic_less x z ≡ true) ys
          (λ z q. less_trans x y z (less_total x y d.0 e) q) h.0,
    ),
    h,
  )
]

-- Sorting conditions of distinct types puts them in order.
pub IsOrdered-sort : (xs : List Condition) → IsDistinct xs → IsOrdered (sort lexicographic_less xs)
unfolding sort
IsOrdered-sort [] d = tt
IsOrdered-sort (x ∷ xs) d =
    IsOrdered-insert_sorted x (sort lexicographic_less xs)
      (All-sort lexicographic_less (Differs x) xs d.0) (IsOrdered-sort xs d.1)

less-Differs : (x y : Condition) → lexicographic_less x y ≡ true → Differs x y
unfolding lexicographic_less
less-Differs x y h =
    ground (arith, eq_iff y.condition_type x.condition_type, str_lt_irrefl x.condition_type)

pub IsOrdered-IsDistinct : (xs : List Condition) → IsOrdered xs → IsDistinct xs
IsOrdered-IsDistinct [] h = tt
IsOrdered-IsDistinct (x ∷ xs) h = (
  All-mono (λ y. lexicographic_less x y ≡ true) (Differs x) xs (less-Differs x) h.0,
  IsOrdered-IsDistinct xs h.1,
)

Differs-update_existing :
    (now : ℕ) (x c : Condition) (cs : List Condition)
    → All (Differs x) cs
    → All (Differs x) (update_existing now c cs)
unfolding update_existing
Differs-update_existing now x c [] h = tt
Differs-update_existing now x c (e ∷ es) h =
    ground (arith, Differs-update_existing now x c es, eq_iff e.condition_type c.condition_type)

IsDistinct-update_existing :
    (now : ℕ) (c : Condition) (cs : List Condition)
    → IsDistinct cs
    → IsDistinct (update_existing now c cs)
unfolding update_existing
IsDistinct-update_existing now c [] h = tt
IsDistinct-update_existing now c (e ∷ es) h =
    elim (Bool-cases (e.condition_type == c.condition_type)) [
      | inl q ↦ rw q (kept ((eq_iff e.condition_type c.condition_type).0 q))
      | inr q ↦
          rw q (Differs-update_existing now e c es h.0, IsDistinct-update_existing now c es h.1)
    ]
  where
    kept :
        e.condition_type ≡ c.condition_type
        → IsDistinct (
            if has_same_state e c
            then e ∷ es
            else record c { last_transition_time = truncate_second now } ∷ es)
    kept t = elim (Bool-cases (has_same_state e c)) [ inl s ↦ rw s h | inr s ↦ rw (s, ← t) h ]

Differs-append :
    (x c : Condition) (cs : List Condition)
    → All (Differs x) cs
    → Differs x c
    → All (Differs x) (cs ++ (c ∷ []))
Differs-append x c [] h d = (d, tt)
Differs-append x c (e ∷ es) h d = (h.0, Differs-append x c es h.1 d)

IsDistinct-append :
    (c : Condition) (cs : List Condition)
    → exists_type c.condition_type cs ≡ false
    → IsDistinct cs
    → IsDistinct (cs ++ (c ∷ []))
unfolding exists_type
IsDistinct-append c [] h d = (tt, tt)
IsDistinct-append c (e ∷ es) h d = (
  Differs-append e c es d.0 (
      ground (
        arith,
        eq_iff e.condition_type c.condition_type,
        eq_iff c.condition_type e.condition_type,
      )),
  IsDistinct-append c es (ground arith) d.1,
)

module _ ⦃time : TimeApi⦄ where
  IsOrdered-set_conditions :
      (now : ℕ) (c : Condition) (cs : List Condition)
      → IsDistinct cs
      → IsOrdered (set_conditions now c cs)
  unfolding set_conditions
  IsOrdered-set_conditions now c cs h =
      IsOrdered-sort _ (elim (Bool-cases (exists_type c.condition_type cs)) [
        | inl e ↦ rw e (IsDistinct-update_existing now c cs h)
        | inr e ↦ rw e (
            IsDistinct-append (with_transition_time now c) cs
              (rw condition_type-with_transition_time e) h)
      ])

  -- Given a condition, Set leaves conditions of distinct types with each before all that follow it:
  -- the Ready condition before every other, and of two others the one whose type is the lower text.
  pub set-IsOrdered :
      (now : ℕ) (to : Object) (c : Condition)
      → IsDistinct to.conditions
      → Ascends (set now to (some c)).conditions
  unfolding set
  set-IsOrdered now to c h = IsOrdered-Ascends _ (IsOrdered-set_conditions now c to.conditions h)

IsOrdered-filter :
    (p : Condition → Bool) (cs : List Condition) → IsOrdered cs → IsOrdered (filter p cs)
IsOrdered-filter p [] h = tt
IsOrdered-filter p (c ∷ cs) h = elim (Bool-cases (p c)) [
  | inl e ↦
      rw e (All-filter (λ d. lexicographic_less c d ≡ true) p cs h.0, IsOrdered-filter p cs h.1)
  | inr e ↦ rw e (IsOrdered-filter p cs h.1)
]

-- Delete keeps ordered conditions in order.
pub delete-IsOrdered :
    (to : Object) (t : String) → IsOrdered to.conditions → IsOrdered (delete to t).conditions
unfolding delete
delete-IsOrdered to t h = IsOrdered-filter (λ c. not (c.condition_type == t)) to.conditions h

insert_sorted_first :
    (c : Condition) (cs : List Condition)
    → All (λ d. lexicographic_less c d ≡ true) cs
    → insert_sorted lexicographic_less c cs ≡ c ∷ cs
unfolding insert_sorted
insert_sorted_first c [] h = refl
insert_sorted_first c (d ∷ cs) h = rw (less_asym c d h.0)

-- Conditions that are in order stay as they are when sorted.
sort_of_IsOrdered : (cs : List Condition) → IsOrdered cs → sort lexicographic_less cs ≡ cs
unfolding sort
sort_of_IsOrdered [] h = refl
sort_of_IsOrdered (c ∷ cs) h = rw (sort_of_IsOrdered cs h.1) (insert_sorted_first c cs h.0)

update_existing_same :
    (now : ℕ) (c e : Condition) (cs : List Condition)
    → find_condition c.condition_type cs ≡ some e
    → has_same_state e c ≡ true
    → update_existing now c cs ≡ cs
unfolding update_existing find_condition
update_existing_same now c e [] h s = refl
update_existing_same now c e (d ∷ ds) h s = ground (arith, update_existing_same now c e ds)

module _ ⦃time : TimeApi⦄ where
  -- Setting a condition whose state an ordered object already has changes nothing, not even the
  -- transition time.
  pub set_same_state :
      (now : ℕ) (to : Object) (c e : Condition)
      → IsOrdered to.conditions
      → get to c.condition_type ≡ some e
      → has_same_state e c ≡ true
      → set now to (some c) ≡ to
  unfolding set set_conditions get
  set_same_state now to c e o h s = rw (
    exists_type-find_condition c.condition_type to.conditions,
    h,
    update_existing_same now c e to.conditions h s,
    sort_of_IsOrdered to.conditions o,
  )
