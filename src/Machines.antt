-- ===== src/Machines.antt =====
-- util/collections: sets of machines and the filters on them. `none` is a nil machine. A Go map
-- from name to machine is the list of its values in the order of an iteration; that order is
-- arbitrary in Go, so the theorems are about every list.
pub mod Collection
pub mod Oldest
use cluster_api_provider_ocn.Base.{
  ℕ, ◌+◌, ◌-◌, ◌*◌, ◌%◌, String, Bool, true, false, not, ◌&&◌, Option, none, some, List, [], ◌∷◌,
  ◌==◌, ltb, if◌then◌else◌, any,
}
use cluster_api_provider_ocn.Meta.{TimeApi}
use cluster_api_provider_ocn.Conditions.Defs.{Object}
use cluster_api_provider_ocn.Conditions.Getter.{is_true, is_false}

-- The fields of clusterv1.Machine that the control plane code reads.
pub record Machine : Type 0 where
  pub object : Object
  pub open object use *
  pub creation_timestamp : ℕ
  pub deletion_timestamp : Option ℕ
  pub annotations : List (String × String)
  pub failure_domain : Option String
  pub version : Option String
  pub node_ref : Option String
  pub certificates_expiry_date : Option ℕ

abbrev pub health_check_succeeded : String
health_check_succeeded = "HealthCheckSucceeded"

abbrev pub owner_remediated : String
owner_remediated = "OwnerRemediated"

abbrev pub Func : Type 0
Func = Option Machine → Bool

-- And
unfoldable pub and_filter : List Func → Func
and_filter [] m = true
and_filter (f ∷ fs) m = if not (f m) then false else and_filter fs m

-- Or
unfoldable pub or_filter : List Func → Func
or_filter [] m = false
or_filter (f ∷ fs) m = if f m then true else or_filter fs m

-- Not
unfoldable pub not_filter : Func → Func
not_filter f m = not (f m)

-- One round of the loop of InFailureDomains.
unfoldable pub same_failure_domain : Option String → Option String → Bool
same_failure_domain none none = true
same_failure_domain none (some d) = false
same_failure_domain (some fd) none = false
same_failure_domain (some fd) (some d) = fd == d

unfoldable pub in_failure_domains : List (Option String) → Func
in_failure_domains fds none = false
in_failure_domains fds (some m) = any (λ fd. same_failure_domain fd m.failure_domain) fds

module _ ⦃time : TimeApi⦄ where
  unfoldable pub active_machines : Func
  active_machines none = false
  active_machines (some m) = time.is_zero m.deletion_timestamp

  unfoldable pub has_deletion_timestamp : Func
  has_deletion_timestamp none = false
  has_deletion_timestamp (some m) = not (time.is_zero m.deletion_timestamp)

unfoldable pub has_unhealthy_condition : Func
has_unhealthy_condition none = false
has_unhealthy_condition (some m) =
    is_false m.object health_check_succeeded && is_false m.object owner_remediated

unfoldable pub is_ready : Func
is_ready none = false
is_ready (some m) = is_true m.object "Ready"

module _ ⦃time : TimeApi⦄ where
  unfoldable pub should_rollout_after : Option ℕ → Option ℕ → Func
  should_rollout_after reconciliation_time rollout_after none = false
  should_rollout_after reconciliation_time rollout_after (some m) =
      time.before (some m.creation_timestamp) rollout_after
      && time.before rollout_after reconciliation_time

-- controlplanev1.RolloutBefore; the days are an int32 that the webhook wants to be positive.
pub record RolloutBefore : Type 0 where
  pub certificates_expiry_days : Option ℕ

-- time.Duration(days) * 24 * time.Hour, a 64-bit product.
abbrev pub expiry_duration : ℕ → ℕ
expiry_duration days = days * 86400000000000 % 18446744073709551616

-- time.Time.Add of a 64-bit duration, read as signed.
abbrev pub add_duration : ℕ → ℕ → ℕ
add_duration t d = if ltb d 9223372036854775808 then t + d else t - (18446744073709551616 - d)

unfoldable pub should_rollout_before : ℕ → Option RolloutBefore → Func
should_rollout_before reconciliation_time none m = false
should_rollout_before reconciliation_time (some b) none = false
should_rollout_before reconciliation_time (some b) (some m) = elim b.certificates_expiry_days [
  | none ↦ false
  | some days ↦ elim m.certificates_expiry_date [
    | none ↦ false
    | some expiry ↦ ltb expiry (add_duration reconciliation_time (expiry_duration days))
  ]
]

unfoldable pub has_annotation_key : String → Func
has_annotation_key key none = false
has_annotation_key key (some m) = any (λ a. a.0 == key) m.annotations

unfoldable pub matches_kubernetes_version : String → Func
matches_kubernetes_version v none = false
matches_kubernetes_version v (some m) = elim m.version [ none ↦ false | some w ↦ w == v ]

-- `parses` tells whether semver.ParseTolerant takes a version.
unfoldable pub with_version : (String → Bool) → Func
with_version parses none = false
with_version parses (some m) = elim m.version [ none ↦ false | some v ↦ parses v ]

unfoldable pub healthy_api_server : Func
healthy_api_server none = false
healthy_api_server (some m) = is_true m.object "APIServerPodHealthy"
