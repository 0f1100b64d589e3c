-- ===== src/Admission/Spec.antt =====
-- ocne_control_plane_webhook.go: the validation of a control plane's specification and of its
-- cluster configuration. `atoi` is strconv.Atoi, which IntValue of intstr reads a text with, with 0
-- where it fails. A pointer that is nil where the code goes through it is none: the call panics.
use cluster_api_provider_ocn.Base.{
  ℕ, suc, String, Bool, true, false, not, ◌&&◌, ◌||◌, Option, none, some, List, [], ◌∷◌, ◌++◌, ◌==◌,
  ◌=ℕ◌, ◌%◌, ltb, leb, any, if◌then◌else◌, is_some, is_empty,
}
use cluster_api_provider_ocn.Versions.{find_submatch, parse_major_minor_patch, is_digit}
use cluster_api_provider_ocn.Admission.{
  Segment, FieldError, required, forbidden, invalid, below, when, ℤ, pos, negsuc, ImageMeta,
  ClusterConfiguration, IntOrString, int_value, string_value, RolloutStrategy, RollingUpdate,
  InfrastructureRef, OcneControlPlaneSpec,
}

abbrev pub is_positive : ℤ → Bool
is_positive (pos n) = ltb 0 n
is_positive (negsuc n) = false

-- The remainder by 2 is 0.
abbrev pub is_even : ℤ → Bool
is_even (pos n) = n % 2 =ℕ 0
is_even (negsuc n) = suc n % 2 =ℕ 0

abbrev pub is_less : ℤ → ℕ → Bool
is_less (pos n) k = ltb n k
is_less (negsuc n) k = true

abbrev pub is_int : ℤ → ℕ → Bool
is_int (pos n) k = n =ℕ k
is_int (negsuc n) k = false

unfoldable pub check_replicas : List Segment → Option ℤ → List FieldError
check_replicas p none = required (below p ("replicas" ∷ [])) ∷ []
check_replicas p (some r) = when (not (is_positive r)) (forbidden (below p ("replicas" ∷ [])))

unfoldable pub external_etcd : OcneControlPlaneSpec → Bool
external_etcd s = elim s.control_plane_config.cluster_configuration [
  | none ↦ false
  | some c ↦ c.external
]

unfoldable pub check_stacked : List Segment → OcneControlPlaneSpec → List FieldError
check_stacked p s = elim s.replicas [
  | none ↦ []
  | some r ↦ when (not (external_etcd s) && is_even r) (forbidden (below p ("replicas" ∷ [])))
]

unfoldable pub check_infrastructure_ref :
    List Segment → String → InfrastructureRef → List FieldError
check_infrastructure_ref p namespace r =
    let path : String → List Segment =
      λ name. below p ("machineTemplate" ∷ "infrastructure" ∷ name ∷ []) in
    when (r.api_version == "") (invalid (path "apiVersion"))
    ++ (when (r.ref_kind == "") (invalid (path "kind"))
        ++ (when (r.ref_name == "") (invalid (path "name"))
            ++ when (not (r.ref_namespace == namespace)) (invalid (path "namespace"))))

abbrev minimum_certificates_expiry_days : ℕ
minimum_certificates_expiry_days = 7

unfoldable pub validate_rollout_before : List Segment → Option ℤ → List FieldError
validate_rollout_before p none = []
validate_rollout_before p (some days) =
    when (is_less days minimum_certificates_expiry_days)
      (invalid (below p ("certificatesExpiryDays" ∷ [])))

-- ociTagAllowedChars matches a character that a tag may not have.
unfoldable pub is_tag_char : ℕ → Bool
is_tag_char c =
    c =ℕ b'-'
    || (leb b'a' c && leb c b'z')
    || (leb b'A' c && leb c b'Z')
    || is_digit c
    || c =ℕ b'_'
    || c =ℕ b'.'

unfoldable pub image_tag_is_valid : List ℕ → Bool
image_tag_is_valid tag = not (any (λ c. not (is_tag_char c)) tag)

unfoldable pub check_dns : List Segment → ImageMeta → List FieldError
check_dns p dns =
    when (not (image_tag_is_valid dns.image_tag)) (forbidden (below p ("dns" ∷ "imageTag" ∷ [])))
    ++ when
        (not (is_empty dns.image_tag) && not (is_some (parse_major_minor_patch dns.image_tag true)))
        (invalid (below [] ("dns" ∷ "imageTag" ∷ [])))

unfoldable pub check_local_etcd : List Segment → Bool → Option ImageMeta → List FieldError
check_local_etcd p external none = []
check_local_etcd p external (some image) =
    when (not (image_tag_is_valid image.image_tag))
      (forbidden (below p ("etcd" ∷ "local" ∷ "imageTag" ∷ [])))
    ++ when external (forbidden (below p ("etcd" ∷ "local" ∷ [])))

unfoldable pub check_etcd_change :
    List Segment → ClusterConfiguration → Option ClusterConfiguration → List FieldError
check_etcd_change p c none = []
check_etcd_change p c (some old) =
    when (c.external && is_some old.local) (forbidden (below p ("etcd" ∷ "external" ∷ [])))
    ++ when (is_some c.local && old.external) (forbidden (below p ("etcd" ∷ "local" ∷ [])))

unfoldable pub validate_cluster_configuration :
    Option ClusterConfiguration → Option ClusterConfiguration → List Segment → List FieldError
validate_cluster_configuration none old p = []
validate_cluster_configuration (some c) old p =
    check_dns p c.dns ++ (check_local_etcd p c.external c.local ++ check_etcd_change p c old)

module _ (atoi : String → ℤ) where
  unfoldable pub int_value_of : IntOrString → ℤ
  int_value_of (int_value i) = i
  int_value_of (string_value s) = atoi s

  unfoldable pub check_surge : List Segment → Option ℤ → ℤ → List FieldError
  check_surge p replicas surge =
      when (is_int surge 0 && elim replicas [ none ↦ false | some r ↦ is_less r 3 ])
        (required (below p ("rollingUpdate" ∷ [])))
      ++ when (not (is_int surge 1) && not (is_int surge 0))
          (required (below p ("rollingUpdate" ∷ "maxSurge" ∷ [])))

  -- RollingUpdate.MaxSurge.IntValue()
  unfoldable pub surge_of : Option RollingUpdate → Option ℤ
  surge_of none = none
  surge_of (some u) = elim u.max_surge [ none ↦ none | some v ↦ some (int_value_of v) ]

  unfoldable pub check_strategy :
      List Segment → Option ℤ → String → Option ℤ → Option (List FieldError)
  check_strategy p replicas strategy_type none = none
  check_strategy p replicas strategy_type (some surge) = some (
      when (not (strategy_type == "RollingUpdate")) (required (below p ("type" ∷ [])))
      ++ check_surge p replicas surge)

  unfoldable pub validate_rollout_strategy :
      Option RolloutStrategy → Option ℤ → List Segment → Option (List FieldError)
  validate_rollout_strategy none replicas p = some []
  validate_rollout_strategy (some s) replicas p =
      check_strategy p replicas s.strategy_type (surge_of s.rolling_update)

  unfoldable pub check_spec : List Segment → String → OcneControlPlaneSpec → List FieldError
  check_spec p namespace s =
      check_replicas p s.replicas
      ++ (check_stacked p s
          ++ (check_infrastructure_ref p namespace s.infrastructure_ref
              ++ (when (not (is_some (find_submatch false s.version)))
                    (invalid (below p ("version" ∷ [])))
                  ++ validate_rollout_before (below p ("rolloutBefore" ∷ []))
                      s.certificates_expiry_days)))

  unfoldable pub validate_kubeadm_control_plane_spec :
      OcneControlPlaneSpec → String → List Segment → Option (List FieldError)
  validate_kubeadm_control_plane_spec s namespace p =
      elim (validate_rollout_strategy s.rollout_strategy s.replicas
        (below p ("rolloutStrategy" ∷ []))) [
          | none ↦ none
          | some errors ↦ some (check_spec p namespace s ++ errors)
        ]

-- ValueOrDefault of intstr
unfoldable pub value_or_default : Option IntOrString → IntOrString → IntOrString
value_or_default none v = v
value_or_default (some i) v = i

unfoldable pub default_rolling_update : Option RollingUpdate → RollingUpdate
default_rolling_update none = record {
  max_surge = some (value_or_default none (int_value (pos 1)));
}
default_rolling_update (some u) = record {
  max_surge = some (value_or_default u.max_surge (int_value (pos 1)));
}

unfoldable pub default_typed : RolloutStrategy → RolloutStrategy
default_typed s =
    if s.strategy_type == "RollingUpdate"
    then record s { rolling_update = some (default_rolling_update s.rolling_update) }
    else s

unfoldable pub default_strategy : RolloutStrategy → RolloutStrategy
default_strategy s =
    if s.strategy_type == ""
    then default_typed (record s { strategy_type = "RollingUpdate" })
    else default_typed s

unfoldable pub default_rollout_strategy : Option RolloutStrategy → RolloutStrategy
default_rollout_strategy none =
    default_strategy (record { strategy_type = ""; rolling_update = none })
default_rollout_strategy (some s) = default_strategy s
