-- ===== src/Conditions/Getter.antt =====
-- util/conditions/getter.go: reading the conditions of an object.
use cluster_api_provider_ocn.Base.{
  ℕ, String, Bool, true, false, Option, none, some, List, [], ◌∷◌, ◌==◌, if◌then◌else◌, is_some,
}
use cluster_api_provider_ocn.Conditions.Defs.{
  Condition, Object, condition_true, condition_false, condition_unknown,
}

-- The loop of Get.
unfoldable pub find_condition : String → List Condition → Option Condition
find_condition t [] = none
find_condition t (c ∷ cs) = if c.condition_type == t then some c else find_condition t cs

unfoldable pub get : Object → String → Option Condition
unfolding find_condition
get from t = find_condition t from.conditions

unfoldable pub has : Object → String → Bool
unfolding get
has from t = is_some (get from t)

unfoldable pub is_true : Object → String → Bool
unfolding get
is_true from t = elim (get from t) [ none ↦ false | some c ↦ c.status == condition_true ]

unfoldable pub is_false : Object → String → Bool
unfolding get
is_false from t = elim (get from t) [ none ↦ false | some c ↦ c.status == condition_false ]

unfoldable pub is_unknown : Object → String → Bool
unfolding get
is_unknown from t = elim (get from t) [ none ↦ true | some c ↦ c.status == condition_unknown ]

unfoldable pub get_reason : Object → String → String
unfolding get
get_reason from t = elim (get from t) [ none ↦ "" | some c ↦ c.reason ]

unfoldable pub get_message : Object → String → String
unfolding get
get_message from t = elim (get from t) [ none ↦ "" | some c ↦ c.message ]

unfoldable pub get_severity : Object → String → Option String
unfolding get
get_severity from t = elim (get from t) [ none ↦ none | some c ↦ some c.severity ]

unfoldable pub get_last_transition_time : Object → String → Option ℕ
unfolding get
get_last_transition_time from t = elim (get from t) [
  | none ↦ none
  | some c ↦ some c.last_transition_time
]
