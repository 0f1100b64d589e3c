-- ===== src/Admission/Upgrade.antt =====
-- ocne_control_plane_webhook.go: which changes of the version an update may make, and GetDefaultRegistry
-- of internal/util/ocne/ocne.go. The migration of CoreDNS and the metadata of OCNE are arguments.
pub mod Skew
use cluster_api_provider_ocn.Base.{
  ℕ, ◌+◌, ◌%◌, ◌^◌, String, Bool, true, false, not, ◌&&◌, ◌||◌, Option, none, some, List, [], ◌∷◌,
  ◌++◌, ◌==◌, if◌then◌else◌, is_empty,
}
use cluster_api_provider_ocn.Versions.{
  Version, Comparison, less, equal, greater, different, SemverApi, parse_major_minor_patch,
}
use cluster_api_provider_ocn.Admission.{
  Segment, FieldError, forbidden, invalid, internal_error, below, when, ImageMeta,
  ClusterConfiguration, OcneControlPlaneSpec, OcneConfigSpec,
}

-- The path of the version, and that of the tag of CoreDNS.
abbrev version_error : (List Segment → FieldError) → FieldError
version_error error = error (below [] ("spec" ∷ "version" ∷ []))

-- A version without pre-release and build identifiers.
abbrev pub release : ℕ → ℕ → ℕ → Version
release a b c = record { major = a; minor = b; patch = c; pre = []; build = [] }

abbrev pub is_below : Comparison → Bool
is_below less = true
is_below equal = false
is_below greater = false
is_below different = false

abbrev pub is_equal : Comparison → Bool
is_equal less = false
is_equal equal = true
is_equal greater = false
is_equal different = false

abbrev pub default_image_repository : String
default_image_repository = "registry.k8s.io"

abbrev pub old_default_image_repository : String
old_default_image_repository = "k8s.gcr.io"

abbrev pub default_ocne_image_repository : String
default_ocne_image_repository = "container-registry.oracle.com/olcne"

abbrev pub min_kubernetes_version_image_registry_migration : Version
min_kubernetes_version_image_registry_migration = release 1 24 8

abbrev pub next_kubernetes_version_image_registry_migration : Version
next_kubernetes_version_image_registry_migration = release 1 25 7

-- OCNEMetadata of a version: the tags of its images, and its package of kubeadm.
pub record OcneMetadata : Type 0 where
  pub core_dns : List ℕ
  pub etcd_tag : List ℕ
  pub kubeadm : String

module _ (semver : SemverApi) where
  -- LT, LTE, GTE and Equals of semver.Version
  abbrev pub lt : Version → Version → Bool
  lt a b = is_below (semver.compare a b)

  abbrev pub equals : Version → Version → Bool
  equals a b = is_equal (semver.compare a b)

  abbrev pub lte : Version → Version → Bool
  lte a b = lt a b || equals a b

  abbrev pub gte : Version → Version → Bool
  gte a b = not (lt a b)

  unfoldable pub get_default_registry : Version → String
  get_default_registry v =
      if lte v (release 1 22 16)
      then old_default_image_repository
      else if gte v (release 1 22 17) && lt v (release 1 23 0)
      then default_image_repository
      else if gte v (release 1 23 0) && lte v (release 1 23 14)
      then old_default_image_repository
      else if gte v (release 1 23 15) && lt v (release 1 24 0)
      then default_image_repository
      else if gte v (release 1 24 0) && lte v (release 1 24 7)
      then old_default_image_repository
      else default_ocne_image_repository

  -- There is no cluster configuration, or it has no image repository.
  unfoldable pub has_default_repository : Option ClusterConfiguration → Bool
  has_default_repository none = true
  has_default_repository (some c) = c.cluster_image_repository == ""

  -- The last check of validateVersion.
  unfoldable pub uses_old_registry : Option ClusterConfiguration → Version → Version → Bool
  uses_old_registry c from to =
      has_default_repository c
      && (not (equals to from)
          && (gte to min_kubernetes_version_image_registry_migration
              && (lt to next_kubernetes_version_image_registry_migration
                  && get_default_registry to == old_default_image_repository)))

  -- Two minor versions on; the number is a uint64.
  unfoldable pub ceil_version : Version → Version
  ceil_version from = release from.major ((from.minor + 2) % 2 ^ 64) 0

  unfoldable pub check_skew : Option ClusterConfiguration → Version → Version → List FieldError
  check_skew c from to =
      if not (equals from to) && equals to (release 1 19 0)
      then version_error forbidden ∷ []
      else when (gte to (ceil_version from)) (version_error forbidden)
        ++ when (uses_old_registry c from to) (version_error forbidden)

  unfoldable pub check_to : Option ClusterConfiguration → Version → Option Version → List FieldError
  check_to c from none = version_error internal_error ∷ []
  check_to c from (some to) = check_skew c from to

  unfoldable pub check_from :
      Option ClusterConfiguration → Option Version → Option Version → List FieldError
  check_from c none to = version_error internal_error ∷ []
  check_from c (some from) to = check_to c from to

  unfoldable pub validate_version : OcneControlPlaneSpec → List ℕ → List FieldError
  validate_version s previous_version =
      check_from s.control_plane_config.cluster_configuration
        (parse_major_minor_patch previous_version false) (parse_major_minor_patch s.version false)

  -- ValidUpMigration of the CoreDNS migration library: whether there is a way up.
  module _ (valid_up_migration : Version → Version → Bool) where
    abbrev dns_path : List Segment
    dns_path =
        below [] ("spec" ∷ "controlPlaneConfig" ∷ "clusterConfiguration" ∷ "dns" ∷ "imageTag" ∷ [])

    unfoldable pub check_migration : Option Version → Option Version → List FieldError
    check_migration none to = invalid dns_path ∷ []
    check_migration (some from) none = invalid dns_path ∷ []
    check_migration (some from) (some to) =
        when (not (equals to from) && not (valid_up_migration from to)) (forbidden dns_path)

    unfoldable pub check_core_dns :
        Option ClusterConfiguration → Option ClusterConfiguration → List FieldError
    check_core_dns none prev = []
    check_core_dns (some c) none = []
    check_core_dns (some c) (some prev) =
        if is_empty prev.dns.image_tag || is_empty c.dns.image_tag
        then []
        else check_migration (parse_major_minor_patch prev.dns.image_tag true)
            (parse_major_minor_patch c.dns.image_tag true)

    unfoldable pub validate_core_dns_version :
        OcneControlPlaneSpec → OcneControlPlaneSpec → List FieldError
    validate_core_dns_version s prev =
        check_core_dns s.control_plane_config.cluster_configuration
          prev.control_plane_config.cluster_configuration
