-- ===== src/Admission.antt =====
-- The admission of control planes: controlplane/ocne/api/v1alpha1/ocne_control_plane_webhook.go and
-- bootstrap/ocne/api/v1alpha1/ocneconfig_webhook.go. Here are the errors of fields, by their kind
-- and path, and the types that the validation reads, from ocne_control_plane_types.go,
-- ocneconfig_types.go and ocne_types.go. Versions and tags of images are lists of codes.
pub mod Paths
pub mod Config
pub mod Spec
pub mod Upgrade
pub mod Update
use cluster_api_provider_ocn.Base.{ℕ, String, Bool, true, false, Option, List, [], ◌∷◌, ◌++◌, map}

-- A segment of a field's path.
pub data Segment : Type 0 where
  child : String → Segment
  index : ℕ → Segment

-- An error of a field, by its kind and its path.
pub data FieldError : Type 0 where
  required forbidden invalid internal_error : List Segment → FieldError

-- Child of a path, with one name or several.
abbrev pub below : List Segment → List String → List Segment
below p names = p ++ map child names

-- Index of a path.
abbrev pub at_index : List Segment → ℕ → List Segment
at_index p i = p ++ (index i ∷ [])

-- An append under a condition.
abbrev pub when : Bool → FieldError → List FieldError
when true e = e ∷ []
when false e = []

-- int32's values are integers.
pub data ℤ : Type 0 where
  pos negsuc : ℕ → ℤ

-- SecretFileSource and SecretPasswdSource
pub record Secret : Type 0 where
  pub secret_name : String
  pub secret_key : String

pub record File : Type 0 where
  pub path : String
  pub owner : String
  pub permissions : String
  pub encoding : String
  pub append : Bool
  pub content : String
  pub content_from : Option Secret

pub record User : Type 0 where
  pub inactive : Option Bool
  pub passwd : Option String
  pub passwd_from : Option Secret

pub record Filesystem : Type 0 where
  pub partition : Option String
  pub replace_fs : Option String

-- The table types of the partitions, and the filesystems.
pub record DiskSetup : Type 0 where
  pub partitions : List (Option String)
  pub filesystems : List Filesystem

-- The image of the DNS add-on, or of a local etcd.
pub record ImageMeta : Type 0 where
  pub image_repository : String
  pub image_tag : List ℕ

-- Whether etcd is external, and its image where it is local.
pub record ClusterConfiguration : Type 0 where
  pub external : Bool
  pub local : Option ImageMeta
  pub dns : ImageMeta
  pub cluster_image_repository : String

-- The init and join configurations by the criSocket of their nodes, the ignition by its presence.
pub record OcneConfigSpec : Type 0 where
  pub cluster_configuration : Option ClusterConfiguration
  pub init_configuration : Option String
  pub join_configuration : Option String
  pub files : List File
  pub users : List User
  pub disk_setup : Option DiskSetup
  pub format : String
  pub use_experimental_retry_join : Bool
  pub ignition : Bool

pub data IntOrString : Type 0 where
  int_value : ℤ → IntOrString
  string_value : String → IntOrString

pub record RollingUpdate : Type 0 where
  pub max_surge : Option IntOrString

pub record RolloutStrategy : Type 0 where
  pub strategy_type : String
  pub rolling_update : Option RollingUpdate

pub record InfrastructureRef : Type 0 where
  pub api_version : String
  pub ref_kind : String
  pub ref_name : String
  pub ref_namespace : String

-- The days of RolloutBefore are none as well where there is no RolloutBefore.
pub record OcneControlPlaneSpec : Type 0 where
  pub replicas : Option ℤ
  pub version : List ℕ
  pub infrastructure_ref : InfrastructureRef
  pub control_plane_config : OcneConfigSpec
  pub certificates_expiry_days : Option ℤ
  pub rollout_strategy : Option RolloutStrategy
