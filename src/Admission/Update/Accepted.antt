-- ===== src/Admission/Update/Accepted.antt =====
-- What an admitted update satisfies.
use cluster_api_provider_ocn.Base.{
  ℕ, String, ◌≡◌, ◌≢◌, refl, Bool, true, false, Option, none, some, List, [], ◌∷◌, ◌++◌, All, Any,
  ◌⊎◌, inl, inr, arith, Bool-cases, Option-cases,
}
use cluster_api_provider_ocn.Versions.{Version, SemverApi, parse_major_minor_patch}
use cluster_api_provider_ocn.Admission.{Segment, FieldError, below, ℤ, OcneControlPlaneSpec}
use cluster_api_provider_ocn.Admission.Paths.{Fields, paths, paths_match, allowed, check_paths}
use cluster_api_provider_ocn.Admission.Paths.Matching.{Agrees, paths_match-Agrees}
use cluster_api_provider_ocn.Admission.Config.Accepting.{append_empty}
use cluster_api_provider_ocn.Admission.Spec.{
  is_positive, is_even, external_etcd, check_replicas, check_stacked, check_spec,
  validate_rollout_strategy, validate_kubeadm_control_plane_spec,
}
use cluster_api_provider_ocn.Admission.Upgrade.{OcneMetadata, validate_version}
use cluster_api_provider_ocn.Admission.Upgrade.Skew.{Upgrades, validate_version-Upgrades}
use cluster_api_provider_ocn.Admission.Update.{
  admitted, allowed_paths, decide, update_errors, update_decision, validate_update,
}

-- The path is empty, or an allowed one agrees with it.
abbrev pub Permitted : List (List String) → List String → Type 0
Permitted allow_list p = (p ≡ []) ⊎ Any (λ a. Agrees a p) allow_list

allowed-Any :
    (allow_list : List (List String)) (p : List String)
    → p ≢ []
    → allowed allow_list p ≡ true
    → Any (λ a. Agrees a p) allow_list
unfolding allowed
allowed-Any [] p n h = cc h
allowed-Any (a ∷ rest) p n h = elim (Bool-cases (paths_match a p)) [
  | inl e ↦ inl ((paths_match-Agrees a p n).0 e)
  | inr e ↦ inr (allowed-Any rest p n (rw e at h))
]

check_paths-Permitted :
    (allow_list : List (List String)) (ps : List (List String))
    → check_paths allow_list ps ≡ []
    → All (Permitted allow_list) ps
unfolding check_paths
check_paths-Permitted allow_list [] h = tt
check_paths-Permitted allow_list ([] ∷ ps) h = (inl refl, check_paths-Permitted allow_list ps h)
check_paths-Permitted allow_list ((p ∷ more) ∷ ps) h =
    elim (Bool-cases (allowed allow_list (p ∷ more))) [
      | inl e ↦ (
        inr (allowed-Any allow_list (p ∷ more) (λ q. cc q) e),
        check_paths-Permitted allow_list ps (rw e at h),
      )
      | inr e ↦ cc (rw e at h)
    ]

-- There is a positive number of replicas, and it is odd unless etcd is external.
abbrev pub HasReplicas : OcneControlPlaneSpec → Type 0
HasReplicas s =
    (r : ℤ) × (s.replicas ≡ some r)
    × (is_positive r ≡ true)
    × ((external_etcd s ≡ true) ⊎ (is_even r ≡ false))

check-HasReplicas :
    (p : List Segment) (s : OcneControlPlaneSpec) (o : Option ℤ)
    → s.replicas ≡ o
    → check_replicas p o ≡ []
    → check_stacked p s ≡ []
    → HasReplicas s
unfolding check_replicas check_stacked
check-HasReplicas p s none e h k = cc h
check-HasReplicas p s (some r) e h k = (
  r,
  e,
  ground (arith, h),
  elim (Bool-cases (external_etcd s)) [ inl x ↦ inl x | inr x ↦ inr (ground (arith, k, e, x)) ],
)

module _ (atoi : String → ℤ) where
  check_spec-HasReplicas :
      (p : List Segment) (namespace : String) (s : OcneControlPlaneSpec)
      → check_spec atoi p namespace s ≡ []
      → HasReplicas s
  unfolding check_spec
  check_spec-HasReplicas p namespace s h =
      let (a, h') = (append_empty (check_replicas p s.replicas) _).0 h in
      let (b, h'') = (append_empty (check_stacked p s) _).0 h' in
      check-HasReplicas p s s.replicas refl a b

  validate_spec-HasReplicas :
      (s : OcneControlPlaneSpec) (namespace : String) (p : List Segment) (errors : List FieldError)
      → validate_kubeadm_control_plane_spec atoi s namespace p ≡ some errors
      → errors ≡ []
      → HasReplicas s
  unfolding validate_kubeadm_control_plane_spec
  validate_spec-HasReplicas s namespace p errors h e =
      elim (Option-cases (
        validate_rollout_strategy atoi s.rollout_strategy s.replicas
          (below p ("rolloutStrategy" ∷ [])))) [
            | inl n ↦ cc (rw (n, validate_kubeadm_control_plane_spec) at h)
            | inr (es, q) ↦
                let k : check_spec atoi p namespace s ++ es ≡ [] =
                  cc (rw (q, validate_kubeadm_control_plane_spec) at h, e) in
                check_spec-HasReplicas p namespace s
                  ((append_empty (check_spec atoi p namespace s) es).0 k).0
          ]

decide-admitted : (errors : List FieldError) → decide errors ≡ admitted → errors ≡ []
unfolding decide
decide-admitted [] h = refl
decide-admitted (e ∷ errors) h = cc h

module _ (metadata : Option (List ℕ → OcneMetadata)) (semver : SemverApi)
    (valid_up_migration : Version → Version → Bool) (atoi : String → ℤ)
    (ignition_enabled : Bool) where
  -- What an update satisfies: every path that it changes is permitted, its version is read and not
  -- too far from the previous one, and its replicas are right.
  abbrev pub Accepts : OcneControlPlaneSpec → OcneControlPlaneSpec → Fields → Type 0
  Accepts s prev diff =
      All (Permitted (allowed_paths s.control_plane_config prev.control_plane_config))
        (paths [] diff)
      × ((from : Version) × (to : Version) × (parse_major_minor_patch prev.version false
            ≡ some from)
          × (parse_major_minor_patch s.version false ≡ some to)
          × Upgrades semver from to)
      × HasReplicas s

  update_decision-Accepts :
      (errors : List FieldError) (s prev : OcneControlPlaneSpec) (difference : Option Fields)
      → (errors ≡ [] → HasReplicas s)
      → update_decision metadata semver valid_up_migration atoi ignition_enabled errors s prev
          difference
        ≡ admitted
      → (diff : Fields) × (difference ≡ some diff) × Accepts s prev diff
  unfolding update_decision update_errors
  update_decision-Accepts errors s prev none r h = cc h
  update_decision-Accepts errors s prev (some diff) r h =
      let (a, h') = (append_empty errors _).0 (decide-admitted _ h) in
      let (b, h'') =
        (append_empty
            (check_paths (allowed_paths s.control_plane_config prev.control_plane_config)
              (paths [] diff))
            _).0
          h' in
      let (c, rest) = (append_empty (validate_version semver s prev.version) _).0 h'' in
      (
        diff,
        refl,
        (
          check_paths-Permitted _ (paths [] diff) b,
          validate_version-Upgrades semver s prev.version c,
          r a,
        ),
      )

  -- An admitted update of a control plane changes only paths that are empty or that agree with an
  -- allowed one, goes to a version that can be read and is not more than one minor version further
  -- than the previous one, and has a positive number of replicas, odd unless etcd is external.
  pub validate_update-Accepts :
      (namespace : String) (s prev : OcneControlPlaneSpec) (difference : Option Fields)
      → validate_update metadata semver valid_up_migration atoi ignition_enabled namespace s prev
          difference
        ≡ admitted
      → (diff : Fields) × (difference ≡ some diff) × Accepts s prev diff
  unfolding validate_update
  validate_update-Accepts namespace s prev difference h =
      elim (Option-cases
        (validate_kubeadm_control_plane_spec atoi s namespace (below [] ("spec" ∷ [])))) [
          | inl e ↦ cc (rw (e, validate_update) at h)
          | inr (errors, e) ↦
              update_decision-Accepts errors s prev difference
                (validate_spec-HasReplicas atoi s namespace _ errors e)
                (rw (e, validate_update) at h)
        ]
