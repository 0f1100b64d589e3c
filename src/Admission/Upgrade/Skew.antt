-- ===== src/Admission/Upgrade/Skew.antt =====
-- Which upgrades the validation of the version lets through.
use cluster_api_provider_ocn.Base.{
  ℕ, ◌+◌, ◌≤◌, ◌<◌, ◌≡◌, refl, ap, ◌∙◌, true, false, Option, none, some, List, [], ◌==◌, ◌⊎◌, inl,
  inr, arith, Bool-cases,
}
use cluster_api_provider_ocn.Versions.{Version, SemverApi, parse_major_minor_patch}
use cluster_api_provider_ocn.Versions.Parsing.{parse_bounds}
use cluster_api_provider_ocn.Admission.{ClusterConfiguration, OcneControlPlaneSpec}
use cluster_api_provider_ocn.Admission.Upgrade.{
  release, gte, default_ocne_image_repository, old_default_image_repository,
  min_kubernetes_version_image_registry_migration, get_default_registry, uses_old_registry,
  ceil_version, check_skew, check_to, check_from, validate_version,
}

module _ (semver : SemverApi) where
  get_default_registry-migrated :
      (v : Version)
      → v.pre ≡ []
      → gte semver v min_kubernetes_version_image_registry_migration ≡ true
      → get_default_registry semver v ≡ default_ocne_image_repository
  unfolding get_default_registry
  get_default_registry-migrated v h k = ground (
    arith,
    k,
    semver.compare_plain v (release 1 22 16) h refl,
    semver.compare_plain v (release 1 22 17) h refl,
    semver.compare_plain v (release 1 23 0) h refl,
    semver.compare_plain v (release 1 23 14) h refl,
    semver.compare_plain v (release 1 23 15) h refl,
    semver.compare_plain v (release 1 24 0) h refl,
    semver.compare_plain v (release 1 24 7) h refl,
    semver.compare_plain v (release 1 24 8) h refl,
  )

  -- The check of the old default registry objects to no version: those that it looks at are 1.24.8
  -- and later, and those with the old registry are 1.24.7 and earlier.
  pub uses_old_registry-never :
      (c : Option ClusterConfiguration) (from to : Version)
      → to.pre ≡ []
      → uses_old_registry semver c from to ≡ false
  unfolding uses_old_registry
  uses_old_registry-never c from to h =
      let e : (default_ocne_image_repository == old_default_image_repository) ≡ false = refl in
      elim (Bool-cases (gte semver to min_kubernetes_version_image_registry_migration)) [
        | inl k ↦
            let r : (get_default_registry semver to == old_default_image_repository) ≡ false =
              ap (λ z. z == old_default_image_repository) (get_default_registry-migrated to h k)
              ∙ e in
            ground (arith, r)
        | inr k ↦ ground (arith, k)
      ]

  -- The new version has the old major number and at most the next minor one, or a lower major one.
  abbrev pub Upgrades : Version → Version → Type 0
  Upgrades from to =
      (to.major < from.major) ⊎ ((to.major ≡ from.major) × (to.minor ≤ from.minor + 1))

  check_skew-Upgrades :
      (c : Option ClusterConfiguration) (from to : Version)
      → to.pre ≡ []
      → check_skew semver c from to ≡ []
      → Upgrades from to
  unfolding check_skew ceil_version
  check_skew-Upgrades c from to p h =
      let e = semver.compare_plain to (ceil_version semver from) p refl in ground (arith, e, h)

  check_from-Upgrades :
      (c : Option ClusterConfiguration) (f t : Option Version)
      → ((v : Version) → t ≡ some v → v.pre ≡ [])
      → check_from semver c f t ≡ []
      → (from : Version) × (to : Version) × (f ≡ some from) × (t ≡ some to) × Upgrades from to
  unfolding check_from check_to
  check_from-Upgrades c none t p h = cc h
  check_from-Upgrades c (some from) none p h = cc h
  check_from-Upgrades c (some from) (some to) p h =
      (from, to, refl, refl, check_skew-Upgrades c from to (p to refl) h)

  -- An update without an error of its version: both versions can be read, and the new one is not
  -- more than one minor version further.
  pub validate_version-Upgrades :
      (s : OcneControlPlaneSpec) (previous : List ℕ)
      → validate_version semver s previous ≡ []
      → (from : Version) × (to : Version) × (parse_major_minor_patch previous false ≡ some from)
        × (parse_major_minor_patch s.version false ≡ some to)
        × Upgrades from to
  unfolding validate_version
  validate_version-Upgrades s previous h =
      check_from-Upgrades s.control_plane_config.cluster_configuration
        (parse_major_minor_patch previous false) (parse_major_minor_patch s.version false)
        (λ v e. (parse_bounds s.version false v e).3) h
