-- ===== src/Examples/ConditionData.antt =====
-- Conditions and objects for the examples of util/conditions.
use cluster_api_provider_ocn.Base.{[], ◌∷◌}
use cluster_api_provider_ocn.Conditions.Defs.{Condition, Object}

abbrev pub ready : Condition
ready = record {
  condition_type = "Ready";
  status = "True";
  severity = "";
  last_transition_time = 5;
  reason = "";
  message = "";
}

abbrev pub available : Condition
available = record {
  condition_type = "Available";
  status = "True";
  severity = "";
  last_transition_time = 6;
  reason = "";
  message = "";
}

abbrev pub broken : Condition
broken = record {
  condition_type = "Available";
  status = "False";
  severity = "Error";
  last_transition_time = 7;
  reason = "Broken";
  message = "disk";
}

abbrev pub machine_a : Object
machine_a = record { kind = "Machine"; name = "a"; conditions = ready ∷ available ∷ [] }

abbrev pub machine_b : Object
machine_b = record { kind = "Machine"; name = "b"; conditions = ready ∷ broken ∷ [] }

abbrev pub empty_machine : Object
empty_machine = record { kind = "Machine"; name = "c"; conditions = [] }
