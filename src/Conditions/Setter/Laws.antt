-- ===== src/Conditions/Setter/Laws.antt =====
-- What reading finds after Set and Delete, and the order in which Set leaves the conditions.
use cluster_api_provider_ocn.Base.{
  ℕ, String, ◌≡◌, refl, ◌∙◌, true, false, not, Option, none, some, List, [], ◌∷◌, ◌++◌, ◌==◌, Bool,
  ◌&&◌, ap, eq_iff, eq_refl, if◌then◌else◌, filter, sort, insert_sorted, IsWeakOrder, Bool-cases,
  Option-cases, is_some, inl, inr, str_lt_asym, str_lt_neg_trans, str_lt_irrefl, arith,
}
use cluster_api_provider_ocn.Meta.{TimeApi, truncate_second}
use cluster_api_provider_ocn.Conditions.Defs.{Condition, Object, lexicographic_less, has_same_state}
use cluster_api_provider_ocn.Conditions.Getter.{get, find_condition}
use cluster_api_provider_ocn.Conditions.Setter.{
  update_existing, exists_type, with_transition_time, set_conditions, set, delete,
}

pub less_asym : (x y : Condition) → lexicographic_less x y ≡ true → lexicographic_less y x ≡ false
unfolding lexicographic_less
less_asym x y h = ground (arith, str_lt_asym x.condition_type y.condition_type)

pub less_neg_trans :
    (x y z : Condition)
    → lexicographic_less x y ≡ false
    → lexicographic_less y z ≡ false
    → lexicographic_less x z ≡ false
unfolding lexicographic_less
less_neg_trans x y z h k =
    ground (arith, str_lt_neg_trans x.condition_type y.condition_type z.condition_type)

abbrev pub lexicographic_order : IsWeakOrder lexicographic_less
lexicographic_order = record { asym = less_asym; neg_trans = less_neg_trans }

-- Conditions of one type are not reordered.
less_same_type :
    (x y : Condition) → x.condition_type ≡ y.condition_type → lexicographic_less x y ≡ false
unfolding lexicographic_less
less_same_type x y e = rw e (ground (arith, str_lt_irrefl y.condition_type))

find_condition-insert_sorted :
    (t : String) (x : Condition) (xs : List Condition)
    → find_condition t (insert_sorted lexicographic_less x xs) ≡ find_condition t (x ∷ xs)
unfolding find_condition insert_sorted
find_condition-insert_sorted t x [] = refl
find_condition-insert_sorted t x (y ∷ ys) = ground (
  arith,
  find_condition-insert_sorted t x ys,
  less_same_type y x,
  eq_iff y.condition_type t,
  eq_iff x.condition_type t,
)

find_condition-cons :
    (t : String) (x : Condition) (xs ys : List Condition)
    → find_condition t xs ≡ find_condition t ys
    → find_condition t (x ∷ xs) ≡ find_condition t (x ∷ ys)
unfolding find_condition
find_condition-cons t x xs ys h = rw h

pub find_condition-sort :
    (t : String) (xs : List Condition)
    → find_condition t (sort lexicographic_less xs) ≡ find_condition t xs
unfolding sort
find_condition-sort t [] = refl
find_condition-sort t (x ∷ xs) =
    find_condition-insert_sorted t x (sort lexicographic_less xs)
    ∙ find_condition-cons t x (sort lexicographic_less xs) xs (find_condition-sort t xs)

pub find_condition-filter :
    (t u : String) (cs : List Condition)
    → find_condition u (filter (λ c. not (c.condition_type == t)) cs)
      ≡ (if u == t then none else find_condition u cs)
unfolding find_condition
find_condition-filter t u [] = ground arith
find_condition-filter t u (c ∷ cs) = ground (
  arith,
  find_condition-filter t u cs,
  eq_iff c.condition_type t,
  eq_iff c.condition_type u,
  eq_iff u t,
)

-- Equal in type and in all that a condition says, whatever the times.
abbrev pub says_same : Condition → Condition → Bool
says_same e c =
    e.condition_type == c.condition_type
    && e.status == c.status
    && e.reason == c.reason
    && e.severity == c.severity
    && e.message == c.message

pub has_same_state-says_same : (e c : Condition) → has_same_state e c ≡ says_same e c
unfolding has_same_state
has_same_state-says_same e c = refl

-- The condition that a type has after Set, from the one that was there: the old one where it says the
-- same; otherwise the given one, whose own time is kept only where the type had no condition and the
-- time is not zero.
abbrev pub settled : ⦃time : TimeApi⦄ → ℕ → Condition → Option Condition → Condition
settled ⦃time⦄ now c none = record c {
  last_transition_time =
      if time.is_zero (some c.last_transition_time)
      then truncate_second now
      else c.last_transition_time;
}
settled now c (some e) =
    if says_same e c then e else record c { last_transition_time = truncate_second now }

find_condition-update_existing_ne :
    (now : ℕ) (c : Condition) (t : String) (cs : List Condition)
    → (c.condition_type == t) ≡ false
    → find_condition t (update_existing now c cs) ≡ find_condition t cs
unfolding find_condition update_existing
find_condition-update_existing_ne now c t [] h = refl
find_condition-update_existing_ne now c t (e ∷ es) h = ground (
  arith,
  find_condition-update_existing_ne now c t es h,
  eq_iff e.condition_type c.condition_type,
  eq_iff e.condition_type t,
  eq_iff c.condition_type t,
)

find_condition-append_ne :
    (c : Condition) (t : String) (cs : List Condition)
    → (c.condition_type == t) ≡ false
    → find_condition t (cs ++ (c ∷ [])) ≡ find_condition t cs
unfolding find_condition
find_condition-append_ne c t [] h = rw h
find_condition-append_ne c t (e ∷ es) h = rw (find_condition-append_ne c t es h)

find_condition-append_self :
    (c : Condition) (t : String) (cs : List Condition)
    → c.condition_type ≡ t
    → find_condition t cs ≡ none
    → find_condition t (cs ++ (c ∷ [])) ≡ some c
unfolding find_condition
find_condition-append_self c t [] q h = rw (q, eq_refl t)
find_condition-append_self c t (e ∷ es) q h = ground (arith, find_condition-append_self c t es)

pub exists_type-find_condition :
    (t : String) (cs : List Condition) → exists_type t cs ≡ is_some (find_condition t cs)
unfolding find_condition exists_type
exists_type-find_condition t [] = refl
exists_type-find_condition t (e ∷ es) = ground (arith, exists_type-find_condition t es)

find_condition-update_existing_self :
    (now : ℕ) (c : Condition) (cs : List Condition) (old : Condition)
    → find_condition c.condition_type cs ≡ some old
    → find_condition c.condition_type (update_existing now c cs)
      ≡ some
          (if says_same old c then old else record c { last_transition_time = truncate_second now })
unfolding find_condition update_existing has_same_state
find_condition-update_existing_self now c [] old h = cc
find_condition-update_existing_self now c (e ∷ es) old h =
    ground (arith, find_condition-update_existing_self now c es old, eq_refl c.condition_type)

module _ ⦃time : TimeApi⦄ where
  pub condition_type-with_transition_time :
      (now : ℕ) (c : Condition) → (with_transition_time now c).condition_type ≡ c.condition_type
  unfolding with_transition_time
  condition_type-with_transition_time now c = ground arith

  with_transition_time-settled :
      (now : ℕ) (c : Condition) → with_transition_time now c ≡ settled now c none
  unfolding with_transition_time
  with_transition_time-settled now c =
      elim (Bool-cases (time.is_zero (some c.last_transition_time))) [
        | inl e ↦ rw e refl
        | inr e ↦ rw e refl
      ]

  find_condition-set_conditions_ne :
      (now : ℕ) (c : Condition) (t : String) (cs : List Condition)
      → (c.condition_type == t) ≡ false
      → find_condition t (set_conditions now c cs) ≡ find_condition t cs
  unfolding set_conditions
  find_condition-set_conditions_ne now c t cs h = rw find_condition-sort (
      ground (
        arith,
        find_condition-update_existing_ne now c t cs,
        find_condition-append_ne (with_transition_time now c) t cs,
        condition_type-with_transition_time now c,
      ))

  find_condition-set_conditions_self :
      (now : ℕ) (c : Condition) (cs : List Condition)
      → find_condition c.condition_type (set_conditions now c cs)
        ≡ some (settled now c (find_condition c.condition_type cs))
  unfolding set_conditions
  find_condition-set_conditions_self now c cs =
      rw find_condition-sort (elim (Option-cases (find_condition c.condition_type cs)) [
        | inl e ↦
            rw (exists_type-find_condition c.condition_type cs, e)
              (find_condition-append_self (with_transition_time now c) c.condition_type cs
                  (condition_type-with_transition_time now c) e
                ∙ ap (λ z. some z) (with_transition_time-settled now c))
        | inr (old, e) ↦
            rw (exists_type-find_condition c.condition_type cs, e)
              (find_condition-update_existing_self now c cs old e)
      ])

  -- After Set of a condition its type has what it had, if that has the same status, reason, severity
  -- and message. If it had another condition it has the given one, with the present time to the second.
  -- If it had none it has the given one, with its own time or, where that is zero, the present time to
  -- the second. Every other type has what it had.
  pub get-set :
      (now : ℕ) (to : Object) (c : Condition) (t : String)
      → get (set now to (some c)) t ≡ (
          if c.condition_type == t
          then some (settled now c (get to c.condition_type))
          else get to t)
  unfolding get set
  get-set now to c t = elim (Bool-cases (c.condition_type == t)) [
    | inl e ↦
        rw (e, ← (eq_iff c.condition_type t).0 e)
          (find_condition-set_conditions_self now c to.conditions)
    | inr e ↦ rw e (find_condition-set_conditions_ne now c t to.conditions e)
  ]

-- After Delete the type has no condition, and every other type has what it had.
pub get-delete :
    (to : Object) (t u : String) → get (delete to t) u ≡ (if u == t then none else get to u)
unfolding get delete
get-delete to t u = find_condition-filter t u to.conditions
