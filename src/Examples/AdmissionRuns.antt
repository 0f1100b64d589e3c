-- ===== src/Examples/AdmissionRuns.antt =====
-- The theorems of the admission at concrete control planes.
use cluster_api_provider_ocn.Admission.Spec.{
  validate_kubeadm_control_plane_spec, validate_rollout_strategy, check_strategy, surge_of,
  default_rollout_strategy, default_strategy, default_typed, default_rolling_update, check_spec,
  check_replicas, check_stacked, external_etcd, check_dns, check_etcd_change,
  check_infrastructure_ref, check_local_etcd, check_surge, image_tag_is_valid, int_value_of,
  is_tag_char, validate_cluster_configuration, validate_rollout_before, value_or_default,
}
use cluster_api_provider_ocn.Base.{String, ◌≡◌, refl, true, false, none, some, [], ◌∷◌, All, ◌↔◌}
use cluster_api_provider_ocn.Versions.{
  all_suffix_chars, find_submatch, is_digit, is_suffix_char, match_numbers, parse_groups,
  parse_major_minor_patch, parse_uint, take_char, take_digits, take_number, codes,
}
use cluster_api_provider_ocn.Admission.{
  pos, File, OcneConfigSpec, RolloutStrategy, OcneControlPlaneSpec,
}
use cluster_api_provider_ocn.Admission.Paths.{
  allowed, check_paths, match_from, paths, Fields, no_fields, add_field, value, object, paths_match,
}
use cluster_api_provider_ocn.Admission.Paths.Matching.{Agrees, paths_match-Agrees}
use cluster_api_provider_ocn.Admission.Config.{
  check_disk_setup, check_encoding, check_file, check_files, check_filesystem, check_inactive,
  check_partition, check_secret, check_unsupported, check_user, default_ocne_config_spec, validate,
  validate_ignition, validate_users, validate_files,
}
use cluster_api_provider_ocn.Admission.Config.Accepting.{
  HasSource, DistinctPaths, validate_files-accepts,
}
use cluster_api_provider_ocn.Admission.Upgrade.{
  ceil_version, check_core_dns, check_from, check_migration, check_skew, check_to,
  get_default_registry, has_default_repository, validate_core_dns_version, validate_version,
  release, uses_old_registry,
}
use cluster_api_provider_ocn.Admission.Upgrade.Skew.{uses_old_registry-never}
use cluster_api_provider_ocn.Admission.Update.{
  update_decision, decide, default_replicas, allowed_paths, check_socket, check_sockets,
  default_namespace, update_errors, validate_ocne_socket, validate_ocne_version_on_upgrade,
  with_prefix, panicked, validate_create, validate_update, default_kubeadm_control_plane_spec,
}
use cluster_api_provider_ocn.Admission.Update.Accepted.{Accepts, validate_update-Accepts}
use cluster_api_provider_ocn.Admission.Update.Defaulted.{default_idempotent}
use cluster_api_provider_ocn.Admission.Update.Panicking.{LacksSurge, validate_create-default}
use cluster_api_provider_ocn.Examples.VersionRuns.{plain_semver}

paths_match-Agrees_example :
    (paths_match ("metadata" ∷ "*" ∷ []) ("metadata" ∷ "labels" ∷ "a" ∷ []) ≡ true)
    ↔ Agrees ("metadata" ∷ "*" ∷ []) ("metadata" ∷ "labels" ∷ "a" ∷ [])
paths_match-Agrees_example =
    paths_match-Agrees ("metadata" ∷ "*" ∷ []) ("metadata" ∷ "labels" ∷ "a" ∷ []) (λ e. cc e)

abbrev script : File
script = record {
  path = "/run.sh";
  owner = "";
  permissions = "";
  encoding = "";
  append = false;
  content = "true";
  content_from = none;
}

abbrev config : OcneConfigSpec
config = record {
  cluster_configuration = none;
  init_configuration = none;
  join_configuration = none;
  files = script ∷ record script { path = "/stop.sh" } ∷ [];
  users = [];
  disk_setup = none;
  format = "";
  use_experimental_retry_join = false;
  ignition = false;
}

validate_files-accepts_example :
    (validate_files [] config ≡ []) ↔ (All HasSource config.files × DistinctPaths config.files)
validate_files-accepts_example = validate_files-accepts [] config

uses_old_registry-never_example :
    uses_old_registry plain_semver none (release 1 24 7) (release 1 24 9) ≡ false
uses_old_registry-never_example =
    uses_old_registry-never plain_semver none (release 1 24 7) (release 1 24 9) refl

abbrev plane : String → OcneControlPlaneSpec
plane v = record {
  replicas = some (pos 3);
  version = codes v;
  infrastructure_ref = record {
    api_version = "v1";
    ref_kind = "Template";
    ref_name = "t";
    ref_namespace = "";
  };
  control_plane_config = config;
  certificates_expiry_days = some (pos 30);
  rollout_strategy = some (record { strategy_type = ""; rolling_update = none });
}

default_idempotent_example :
    default_kubeadm_control_plane_spec "ns"
      (default_kubeadm_control_plane_spec "ns" (plane "1.25.7"))
    ≡ default_kubeadm_control_plane_spec "ns" (plane "1.25.7")
default_idempotent_example = default_idempotent "ns" (plane "1.25.7")

abbrev on_delete : RolloutStrategy
on_delete = record { strategy_type = "OnDelete"; rolling_update = none }

validate_create-default_example :
    (validate_create none plain_semver
        (λ a b. true)
        (λ s. pos 0)
        false
        "ns"
        (default_kubeadm_control_plane_spec "ns"
          (record (plane "1.25.7") { rollout_strategy = some on_delete }))
      ≡ panicked)
    ↔ LacksSurge (λ s. pos 0) on_delete
validate_create-default_example =
    validate_create-default none plain_semver (λ a b. true) (λ s. pos 0) false "ns"
      (record (plane "1.25.7") { rollout_strategy = some on_delete }) on_delete refl

-- The patch of an update of the version.
abbrev difference : Fields
difference = add_field "spec" (object (add_field "version" value no_fields)) no_fields

abbrev next_plane : OcneControlPlaneSpec
next_plane = default_kubeadm_control_plane_spec "ns" (plane "1.26.0")

validate_update-Accepts_example :
    (diff : Fields) × (some difference ≡ some diff)
    × Accepts none plain_semver
        (λ a b. true)
        (λ s. pos 0)
        false
        next_plane
        (default_kubeadm_control_plane_spec "ns" (plane "1.25.7"))
        diff
unfolding validate_update validate_kubeadm_control_plane_spec validate_rollout_strategy
    default_kubeadm_control_plane_spec check_strategy surge_of default_rollout_strategy
    default_strategy default_typed default_rolling_update update_decision decide check_spec
    check_replicas default_replicas check_stacked external_etcd check_disk_setup check_encoding
    check_file check_files check_filesystem check_inactive check_partition check_secret
    check_unsupported check_user default_ocne_config_spec validate validate_files validate_ignition
    validate_users allowed check_paths match_from paths paths_match check_dns check_etcd_change
    check_infrastructure_ref check_local_etcd check_surge image_tag_is_valid int_value_of
    is_tag_char validate_cluster_configuration validate_rollout_before value_or_default
    allowed_paths check_socket check_sockets default_namespace update_errors validate_ocne_socket
    validate_ocne_version_on_upgrade with_prefix ceil_version check_core_dns check_from
    check_migration check_skew check_to get_default_registry has_default_repository
    uses_old_registry validate_core_dns_version validate_version all_suffix_chars find_submatch
    is_digit is_suffix_char match_numbers parse_groups parse_major_minor_patch parse_uint take_char
    take_digits take_number
validate_update-Accepts_example =
    validate_update-Accepts none plain_semver (λ a b. true) (λ s. pos 0) false "ns" next_plane
      (default_kubeadm_control_plane_spec "ns" (plane "1.25.7")) (some difference) refl
