-- ===== src/Admission/Update.antt =====
-- ocne_control_plane_webhook.go: Default, ValidateCreate and ValidateUpdate. Arguments stand for what
-- comes from elsewhere: the merge patch of the two objects, the metadata of OCNE, and the feature gate.
pub mod Accepted
pub mod Defaulted
pub mod Panicking
use cluster_api_provider_ocn.Base.{
  ℕ, String, Bool, true, false, not, ◌&&◌, ◌||◌, Option, none, some, List, [], ◌∷◌, ◌++◌, ◌==◌,
  ◌=ℕ◌, if◌then◌else◌, is_empty, map,
}
use cluster_api_provider_ocn.Versions.{Version, SemverApi}
use cluster_api_provider_ocn.Admission.{
  Segment, FieldError, invalid, below, when, ℤ, pos, ImageMeta, ClusterConfiguration,
  OcneControlPlaneSpec, OcneConfigSpec, InfrastructureRef,
}
use cluster_api_provider_ocn.Admission.Paths.{Fields, paths, check_paths}
use cluster_api_provider_ocn.Admission.Config.{validate, default_ocne_config_spec}
use cluster_api_provider_ocn.Admission.Spec.{
  validate_kubeadm_control_plane_spec, validate_cluster_configuration, default_rollout_strategy,
}
use cluster_api_provider_ocn.Admission.Upgrade.{
  OcneMetadata, default_ocne_image_repository, validate_version, validate_core_dns_version,
}

-- NewInvalid with its errors, NewInternalError, and a call that does not return an error.
pub data Decision : Type 0 where
  admitted internal_failure panicked : Decision
  rejected : List FieldError → Decision

-- What is allowed beneath the configuration of the control plane.
abbrev config_paths : List (List String)
config_paths =
    ("clusterConfiguration" ∷ "etcd" ∷ "local" ∷ "imageRepository" ∷ [])
    ∷ ("clusterConfiguration" ∷ "etcd" ∷ "local" ∷ "imageTag" ∷ [])
    ∷ ("clusterConfiguration" ∷ "etcd" ∷ "local" ∷ "extraArgs" ∷ "*" ∷ [])
    ∷ ("clusterConfiguration" ∷ "dns" ∷ "imageRepository" ∷ [])
    ∷ ("clusterConfiguration" ∷ "dns" ∷ "imageTag" ∷ [])
    ∷ ("clusterConfiguration" ∷ "imageRepository" ∷ [])
    ∷ ("clusterConfiguration" ∷ "apiServer" ∷ "*" ∷ [])
    ∷ ("clusterConfiguration" ∷ "controllerManager" ∷ "*" ∷ [])
    ∷ ("clusterConfiguration" ∷ "scheduler" ∷ "*" ∷ [])
    ∷ ("initConfiguration" ∷ "nodeRegistration" ∷ "*" ∷ [])
    ∷ ("initConfiguration" ∷ "patches" ∷ "directory" ∷ [])
    ∷ ("initConfiguration" ∷ "skipPhases" ∷ [])
    ∷ ("joinConfiguration" ∷ "nodeRegistration" ∷ "*" ∷ [])
    ∷ ("joinConfiguration" ∷ "patches" ∷ "directory" ∷ [])
    ∷ ("joinConfiguration" ∷ "skipPhases" ∷ [])
    ∷ ("preOCNECommands" ∷ [])
    ∷ ("postOCNECommands" ∷ [])
    ∷ ("files" ∷ [])
    ∷ ("verbosity" ∷ [])
    ∷ ("users" ∷ [])
    ∷ ("ntp" ∷ "*" ∷ [])
    ∷ ("ignition" ∷ "*" ∷ [])
    ∷ ("diskSetup" ∷ "*" ∷ [])
    ∷ []

-- What is allowed beneath spec elsewhere.
abbrev spec_paths : List (List String)
spec_paths =
    ("machineTemplate" ∷ "metadata" ∷ "*" ∷ [])
    ∷ ("machineTemplate" ∷ "infrastructureRef" ∷ "apiVersion" ∷ [])
    ∷ ("machineTemplate" ∷ "infrastructureRef" ∷ "name" ∷ [])
    ∷ ("machineTemplate" ∷ "infrastructureRef" ∷ "kind" ∷ [])
    ∷ ("machineTemplate" ∷ "nodeDrainTimeout" ∷ [])
    ∷ ("machineTemplate" ∷ "nodeVolumeDetachTimeout" ∷ [])
    ∷ ("machineTemplate" ∷ "nodeDeletionTimeout" ∷ [])
    ∷ ("replicas" ∷ [])
    ∷ ("version" ∷ [])
    ∷ ("rolloutAfter" ∷ [])
    ∷ ("rolloutBefore" ∷ "*" ∷ [])
    ∷ ("rolloutStrategy" ∷ "*" ∷ [])
    ∷ ("moduleOperator" ∷ [])
    ∷ ("moduleOperator" ∷ "*" ∷ [])
    ∷ ("verrazzanoPlatformOperator" ∷ [])
    ∷ ("verrazzanoPlatformOperator" ∷ "*" ∷ [])
    ∷ []

-- The format may be set to its default.
unfoldable pub allowed_paths : OcneConfigSpec → OcneConfigSpec → List (List String)
allowed_paths new prev =
    ("metadata" ∷ "*" ∷ [])
    ∷ (map (λ p. "spec" ∷ "controlPlaneConfig" ∷ p) config_paths
        ++ (map (λ p. "spec" ∷ p) spec_paths
            ++ (if prev.format == "" && new.format == "cloud-config"
                then ("spec" ∷ "controlPlaneConfig" ∷ "format" ∷ []) ∷ []
                else [])))

-- Two texts by their codes.
abbrev pub same_codes : List ℕ → List ℕ → Bool
same_codes [] [] = true
same_codes [] (d ∷ ds) = false
same_codes (c ∷ cs) [] = false
same_codes (c ∷ cs) (d ∷ ds) = c =ℕ d && same_codes cs ds

-- An image of OCNE's repository has the tag of the metadata.
unfoldable pub check_image : FieldError → List ℕ → ImageMeta → List FieldError
check_image e tag image =
    when
      (image.image_repository == default_ocne_image_repository
        && not (same_codes image.image_tag tag))
      e

unfoldable pub check_ocne_data : OcneMetadata → ClusterConfiguration → List FieldError
check_ocne_data m c =
    (if is_empty c.dns.image_tag
      then []
      else check_image (invalid (below [] ("dns" ∷ "imageTag" ∷ []))) m.core_dns c.dns)
    ++ elim c.local [
      | none ↦ []
      | some image ↦
          check_image (invalid (below [] ("etcd" ∷ "local" ∷ "imageTag" ∷ []))) m.etcd_tag image
    ]

abbrev pub default_ocne_socket : String
default_ocne_socket = "/var/run/crio/crio.sock"

unfoldable pub check_socket : String → String → List FieldError
check_socket name socket =
    when (not (socket == "") && not (socket == default_ocne_socket))
      (invalid (below [] (name ∷ "nodeRegistration" ∷ "criSocket" ∷ [])))

unfoldable pub check_sockets : Option String → Option String → List FieldError
check_sockets none join = []
check_sockets (some init) none = []
check_sockets (some init) (some join) =
    check_socket "initConfiguration" init ++ check_socket "joinConfiguration" join

unfoldable pub validate_ocne_socket : OcneConfigSpec → List FieldError
validate_ocne_socket c = check_sockets c.init_configuration c.join_configuration

unfoldable pub decide : List FieldError → Decision
decide [] = admitted
decide (e ∷ errors) = rejected (e ∷ errors)

-- GetOCNEMetadata: none where it fails.
module _ (metadata : Option (List ℕ → OcneMetadata)) where
  unfoldable pub validate_ocne_data : Option ClusterConfiguration → List ℕ → List FieldError
  validate_ocne_data none version = []
  validate_ocne_data (some c) version = elim metadata [
    | none ↦ []
    | some m ↦ check_ocne_data (m version) c
  ]

  unfoldable pub validate_ocne_version_on_upgrade : OcneControlPlaneSpec → List FieldError
  validate_ocne_version_on_upgrade s = elim metadata [
    | none ↦ []
    | some m ↦ when ((m s.version).kubeadm == "") (invalid (below [] ("spec" ∷ "version" ∷ [])))
  ]

  module _ (semver : SemverApi) (valid_up_migration : Version → Version → Bool) (atoi : String → ℤ)
      (ignition_enabled : Bool) where
    abbrev configuration_path : List Segment
    configuration_path = below [] ("spec" ∷ "controlPlaneConfig" ∷ "clusterConfiguration" ∷ [])

    abbrev config_errors : OcneControlPlaneSpec → List FieldError
    config_errors s =
        validate_ocne_socket s.control_plane_config
        ++ validate ignition_enabled (below [] ("spec" ∷ "controlPlaneConfig" ∷ []))
            s.control_plane_config

    unfoldable pub validate_create : String → OcneControlPlaneSpec → Decision
    validate_create namespace s =
        elim (validate_kubeadm_control_plane_spec atoi s namespace (below [] ("spec" ∷ []))) [
          | none ↦ panicked
          | some errors ↦ decide (
              errors
              ++ (validate_cluster_configuration s.control_plane_config.cluster_configuration none
                    configuration_path
                  ++ (validate_ocne_data s.control_plane_config.cluster_configuration s.version
                      ++ config_errors s)))
        ]

    -- What comes after the changed paths.
    unfoldable pub update_errors : OcneControlPlaneSpec → OcneControlPlaneSpec → List FieldError
    update_errors s prev =
        validate_version semver s prev.version
        ++ (validate_cluster_configuration s.control_plane_config.cluster_configuration
              prev.control_plane_config.cluster_configuration configuration_path
            ++ (validate_ocne_version_on_upgrade s
                ++ (validate_ocne_socket s.control_plane_config
                    ++ (validate_core_dns_version semver valid_up_migration s prev
                        ++ validate ignition_enabled (below [] ("spec" ∷ "controlPlaneConfig" ∷ []))
                            s.control_plane_config))))

    unfoldable pub update_decision :
        List FieldError → OcneControlPlaneSpec → OcneControlPlaneSpec → Option Fields → Decision
    update_decision errors s prev none = internal_failure
    update_decision errors s prev (some diff) = decide (
        errors
        ++ (check_paths (allowed_paths s.control_plane_config prev.control_plane_config)
              (paths [] diff)
            ++ update_errors s prev))

    unfoldable pub validate_update :
        String → OcneControlPlaneSpec → OcneControlPlaneSpec → Option Fields → Decision
    validate_update namespace s prev difference =
        elim (validate_kubeadm_control_plane_spec atoi s namespace (below [] ("spec" ∷ []))) [
          | none ↦ panicked
          | some errors ↦ update_decision errors s prev difference
        ]

unfoldable pub with_prefix : List ℕ → List ℕ
with_prefix [] = b'v' ∷ []
with_prefix (c ∷ cs) = if c =ℕ b'v' then c ∷ cs else b'v' ∷ (c ∷ cs)

unfoldable pub default_replicas : Option ℤ → Option ℤ
default_replicas none = some (pos 1)
default_replicas (some r) = some r

unfoldable pub default_namespace : String → InfrastructureRef → InfrastructureRef
default_namespace namespace r =
    if r.ref_namespace == "" then record r { ref_namespace = namespace } else r

unfoldable pub default_kubeadm_control_plane_spec :
    String → OcneControlPlaneSpec → OcneControlPlaneSpec
default_kubeadm_control_plane_spec namespace s = record s {
  replicas = default_replicas s.replicas;
  infrastructure_ref = default_namespace namespace s.infrastructure_ref;
  version = with_prefix s.version;
  control_plane_config = default_ocne_config_spec s.control_plane_config;
  rollout_strategy = some (default_rollout_strategy s.rollout_strategy);
}
