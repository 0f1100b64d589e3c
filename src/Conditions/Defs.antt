-- ===== src/Conditions/Defs.antt =====
-- The condition type of the Cluster API, with the comparisons of util/conditions/setter.go.
use cluster_api_provider_ocn.Base.{ℕ, String, Bool, ◌&&◌, ◌||◌, not, List, ◌==◌, str_lt}

-- clusterv1.Condition. Status and severity are strings there too.
pub record Condition : Type 0 where
  pub condition_type : String
  pub status : String
  pub severity : String
  pub last_transition_time : ℕ
  pub reason : String
  pub message : String

-- What the package reads of an object: kind, name and conditions.
pub record Object : Type 0 where
  pub kind : String
  pub name : String
  pub conditions : List Condition

abbrev pub ready_condition : String
ready_condition = "Ready"

abbrev pub condition_true : String
condition_true = "True"

abbrev pub condition_false : String
condition_false = "False"

abbrev pub condition_unknown : String
condition_unknown = "Unknown"

abbrev pub severity_error : String
severity_error = "Error"

abbrev pub severity_warning : String
severity_warning = "Warning"

abbrev pub severity_info : String
severity_info = "Info"

abbrev pub severity_none : String
severity_none = ""

-- The Ready condition goes first, the others follow by type.
unfoldable pub lexicographic_less : Condition → Condition → Bool
lexicographic_less i j =
    (i.condition_type == ready_condition || str_lt i.condition_type j.condition_type)
    && not (j.condition_type == ready_condition)

-- Equal in all fields but the transition time.
unfoldable pub has_same_state : Condition → Condition → Bool
has_same_state i j =
    i.condition_type == j.condition_type
    && i.status == j.status
    && i.reason == j.reason
    && i.severity == j.severity
    && i.message == j.message
