-- ===== src/Examples/MachineData.antt =====
-- Machines, failure domains and answers for the examples of the control plane.
use cluster_api_provider_ocn.Base.{
  ℕ, String, ◌≡◌, ap, refl, ◌==◌, true, false, none, some, List, [], ◌∷◌, Option, map, any,
  if◌then◌else◌,
}
use cluster_api_provider_ocn.Conditions.Defs.{Condition}
use cluster_api_provider_ocn.Machines.{Machine, same_failure_domain}
use cluster_api_provider_ocn.Machines.Collection.{Machines}
use cluster_api_provider_ocn.FailureDomains.{FailureDomains, is_known}
use cluster_api_provider_ocn.ControlPlane.{DomainApi, ControlPlane}
use cluster_api_provider_ocn.ControlPlane.Scaling.{Remote, deleted}

abbrev pub holds : String → Condition
holds t = record {
  condition_type = t;
  status = "True";
  severity = "";
  last_transition_time = 3;
  reason = "";
  message = "";
}

abbrev pub fails : String → Condition
fails t = record {
  condition_type = t;
  status = "False";
  severity = "Error";
  last_transition_time = 4;
  reason = "Down";
  message = "";
}

abbrev pub machine : String → ℕ → String → List Condition → Machine
machine name created domain conditions = record {
  object = record { kind = "Machine"; name = name; conditions = conditions };
  creation_timestamp = created;
  deletion_timestamp = none;
  annotations = [];
  failure_domain = some domain;
  version = some "v1.25.7";
  node_ref = some name;
  certificates_expiry_date = none;
}

abbrev all_healthy : List Condition
all_healthy =
    holds "APIServerPodHealthy"
    ∷ holds "ControllerManagerPodHealthy"
    ∷ holds "SchedulerPodHealthy"
    ∷ holds "EtcdPodHealthy"
    ∷ holds "EtcdMemberHealthy"
    ∷ []

abbrev pub m1 : Machine
m1 = machine "m1" 10 "east" all_healthy

abbrev pub m2 : Machine
m2 = machine "m2" 20 "east" all_healthy

abbrev pub m3 : Machine
m3 = machine "m3" 30 "west" all_healthy

abbrev pub sick : Machine
sick = machine "m1" 10 "east" (fails "HealthCheckSucceeded" ∷ fails "OwnerRemediated" ∷ [])

-- Back to healthy, and still marked for a remediation.
abbrev pub mended : Machine
mended = machine "m1" 10 "east" (holds "HealthCheckSucceeded" ∷ fails "OwnerRemediated" ∷ [])

abbrev pub three : Machines
three = m1 ∷ m2 ∷ m3 ∷ []

abbrev pub domains : FailureDomains
domains = ("east", true) ∷ ("west", true) ∷ []

abbrev pub control_plane : Machines → ControlPlane
control_plane ms = record {
  replicas = some 3;
  rollout_before = none;
  rollout_after = none;
  external_etcd = none;
  status_failure_domains = domains;
  machines = ms;
  reconciliation_time = 100;
}

abbrev pub ids : FailureDomains → List (Option String)
ids = map (λ fd. some fd.0)

pub ids-some :
    (fds : FailureDomains) (id : String)
    → any (λ fd. same_failure_domain fd (some id)) (ids fds) ≡ is_known fds id
unfolding is_known same_failure_domain
ids-some [] id = refl
ids-some (fd ∷ fds) id = ap (λ r. if fd.0 == id then true else r) (ids-some fds id)

pub ids-none : (fds : FailureDomains) → any (λ fd. same_failure_domain fd none) (ids fds) ≡ false
unfolding same_failure_domain
ids-none [] = refl
ids-none (fd ∷ fds) = ids-none fds

abbrev pub all_domains : DomainApi
all_domains = record {
  filter_control_plane = λ fds. fds;
  get_ids = ids;
  filter_distinct = λ fds d. d;
  get_ids-some = ids-some;
  get_ids-none = ids-none;
}

-- Every call succeeds.
abbrev pub willing : Remote
willing = record {
  owned_machines = some three;
  generate = λ b fd. true;
  workload_cluster = true;
  etcd_members = some ("m1" ∷ "m2" ∷ "m3" ∷ []);
  forward = λ m n. true;
  remove_member = λ m. true;
  version_parses = true;
  remove_from_config = λ m. true;
  delete = λ m. deleted;
  patch_helper = λ m. true;
  patch = λ m. true;
}
