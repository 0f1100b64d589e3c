-- ===== src/Conditions/Setter.antt =====
-- util/conditions/setter.go: writing conditions. The receivers and arguments are not nil, except
-- for the condition of Set, which its callers may leave out. `now` is the answer of time.Now().
pub mod Laws
pub mod Order
use cluster_api_provider_ocn.Base.{
  ℕ, String, Bool, not, Option, none, some, List, [], ◌∷◌, ◌++◌, ◌==◌, if◌then◌else◌, filter, any,
  sort,
}
use cluster_api_provider_ocn.Meta.{TimeApi, truncate_second}
use cluster_api_provider_ocn.Conditions.Defs.{
  Condition, Object, condition_true, condition_false, condition_unknown, lexicographic_less,
  has_same_state,
}

-- The loop of Set: the first condition of the type is replaced if its state differs.
unfoldable pub update_existing : ℕ → Condition → List Condition → List Condition
update_existing now c [] = []
update_existing now c (e ∷ es) =
    let rest = update_existing now c es in
    if e.condition_type == c.condition_type
    then (if has_same_state e c
        then e ∷ es
        else record c { last_transition_time = truncate_second now } ∷ es)
    else e ∷ rest

unfoldable pub exists_type : String → List Condition → Bool
exists_type t = any (λ e. e.condition_type == t)

module _ ⦃time : TimeApi⦄ where
  -- A new condition gets a transition time if it has none.
  unfoldable pub with_transition_time : ℕ → Condition → Condition
  with_transition_time now c =
      if time.is_zero (some c.last_transition_time)
      then record c { last_transition_time = truncate_second now }
      else c

  unfoldable pub set_conditions : ℕ → Condition → List Condition → List Condition
  set_conditions now c cs = sort lexicographic_less (
      if exists_type c.condition_type cs
      then update_existing now c cs
      else cs ++ (with_transition_time now c ∷ []))

  unfoldable pub set : ℕ → Object → Option Condition → Object
  set now to none = to
  set now to (some c) = record to { conditions = set_conditions now c to.conditions }

unfoldable pub true_condition : String → Condition
true_condition t = record {
  condition_type = t;
  status = condition_true;
  severity = "";
  last_transition_time = 0;
  reason = "";
  message = "";
}

-- The message is the formatted one.
unfoldable pub false_condition : String → String → String → String → Condition
false_condition t reason severity message = record {
  condition_type = t;
  status = condition_false;
  severity = severity;
  last_transition_time = 0;
  reason = reason;
  message = message;
}

unfoldable pub unknown_condition : String → String → String → Condition
unknown_condition t reason message = record {
  condition_type = t;
  status = condition_unknown;
  severity = "";
  last_transition_time = 0;
  reason = reason;
  message = message;
}

module _ ⦃time : TimeApi⦄ where
  unfoldable pub mark_true : ℕ → Object → String → Object
  mark_true now to t = set now to (some (true_condition t))

  unfoldable pub mark_unknown : ℕ → Object → String → String → String → Object
  mark_unknown now to t reason message = set now to (some (unknown_condition t reason message))

  unfoldable pub mark_false : ℕ → Object → String → String → String → String → Object
  mark_false now to t reason severity message =
      set now to (some (false_condition t reason severity message))

unfoldable pub delete : Object → String → Object
delete to t = record to { conditions = filter (λ c. not (c.condition_type == t)) to.conditions }
