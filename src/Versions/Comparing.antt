-- ===== src/Versions/Comparing.antt =====
-- The order that Compare makes of versions, with the build identifiers or without.
use cluster_api_provider_ocn.Base.{◌≡◌, refl, ap, ◌∙◌, List, [], ◌∷◌, arith, eq_iff}
use cluster_api_provider_ocn.Versions.{
  Version, Comparison, less, equal, greater, different, SemverApi, BuildIdentifier, Comparer,
  CompareOption, new_build_identifiers, compare_identifier, compare_identifiers, strip_pre,
  apply_compare_options, compare_with, compare,
}

-- The comparison the other way round.
abbrev pub flip : Comparison → Comparison
flip less = greater
flip equal = equal
flip greater = less
flip different = different

flip-compare_identifier :
    (v o : BuildIdentifier) → compare_identifier o v ≡ flip (compare_identifier v o)
unfolding compare_identifier
flip-compare_identifier v o =
    ground
      (arith, eq_iff v.identifier_str o.identifier_str, eq_iff o.identifier_str v.identifier_str)

flip-compare_identifiers :
    (vs os : List BuildIdentifier) → compare_identifiers os vs ≡ flip (compare_identifiers vs os)
unfolding compare_identifiers
flip-compare_identifiers [] [] = refl
flip-compare_identifiers [] (o ∷ os) = refl
flip-compare_identifiers (v ∷ vs) [] = refl
flip-compare_identifiers (v ∷ vs) (o ∷ os) =
    ground (arith, flip-compare_identifier v o, flip-compare_identifiers vs os)

-- How two comparisons of identifiers make a third.
trans-compare_identifier :
    (a b c : BuildIdentifier)
    → (compare_identifier a b ≡ less
        → compare_identifier b c ≡ less
        → compare_identifier a c ≡ less)
      × (compare_identifier a b ≡ less
          → compare_identifier b c ≡ equal
          → compare_identifier a c ≡ less)
      × (compare_identifier a b ≡ equal
          → compare_identifier b c ≡ less
          → compare_identifier a c ≡ less)
      × (compare_identifier a b ≡ equal
          → compare_identifier b c ≡ equal
          → compare_identifier a c ≡ equal)
unfolding compare_identifier
trans-compare_identifier a b c =
    let ab = eq_iff a.identifier_str b.identifier_str in
    let bc = eq_iff b.identifier_str c.identifier_str in
    let ac = eq_iff a.identifier_str c.identifier_str in
    (
      λ h k. ground (arith, ab, bc, ac),
      λ h k. ground (arith, ab, bc, ac),
      λ h k. ground (arith, ab, bc, ac),
      λ h k. ground (arith, ab, bc, ac),
    )

trans-compare_identifiers :
    (xs ys zs : List BuildIdentifier)
    → compare_identifiers xs ys ≡ less
    → compare_identifiers ys zs ≡ less
    → compare_identifiers xs zs ≡ less
unfolding compare_identifiers
trans-compare_identifiers [] [] zs h k = cc h
trans-compare_identifiers [] (b ∷ ys) [] h k = cc k
trans-compare_identifiers [] (b ∷ ys) (c ∷ zs) h k = refl
trans-compare_identifiers (a ∷ xs) [] zs h k = cc h
trans-compare_identifiers (a ∷ xs) (b ∷ ys) [] h k = cc k
trans-compare_identifiers (a ∷ xs) (b ∷ ys) (c ∷ zs) h k =
    let (ll, le, el, ee) = trans-compare_identifier a b c in
    ground (arith, ll, le, el, ee, trans-compare_identifiers xs ys zs)

module _ (semver : SemverApi) where
  compare_with-flip :
      (o : Comparer) (a b : Version) → compare_with semver o b a ≡ flip (compare_with semver o a b)
  unfolding compare_with
  compare_with-flip o a b = ground (
    arith,
    semver.compare-greater (strip_pre o a) (strip_pre o b),
    semver.compare-less (strip_pre o a) (strip_pre o b),
    semver.compare-equal (strip_pre o a) (strip_pre o b),
    semver.compare-different (strip_pre o a) (strip_pre o b),
    flip-compare_identifiers (new_build_identifiers a.build) (new_build_identifiers b.build),
  )

  -- Being less passes on from version to version.
  compare_with_trans :
      (o : Comparer) (a b c : Version)
      → compare_with semver o a b ≡ less
      → compare_with semver o b c ≡ less
      → compare_with semver o a c ≡ less
  unfolding compare_with
  compare_with_trans o a b c h k = ground (
    arith,
    semver.compare_trans (strip_pre o a) (strip_pre o b) (strip_pre o c),
    semver.compare_equal_left (strip_pre o a) (strip_pre o b) (strip_pre o c),
    semver.compare_equal_left (strip_pre o b) (strip_pre o c) (strip_pre o a),
    semver.compare-greater (strip_pre o a) (strip_pre o b),
    semver.compare-less (strip_pre o c) (strip_pre o a),
    semver.compare-greater (strip_pre o a) (strip_pre o b),
    semver.compare-less (strip_pre o b) (strip_pre o a),
    semver.compare-equal (strip_pre o b) (strip_pre o c),
    trans-compare_identifiers (new_build_identifiers a.build) (new_build_identifiers b.build)
        (new_build_identifiers c.build),
  )

  compare-flip :
      (options : List CompareOption) (a b : Version)
      → compare semver b a options ≡ flip (compare semver a b options)
  unfolding compare
  compare-flip options a b = compare_with-flip (apply_compare_options options _) a b

  -- With any options, a version that is less than one that is less than a third is less than the
  -- third, and the third is greater than it: Compare is a strict order where it answers -1 or 1.
  pub compare_trans :
      (options : List CompareOption) (a b c : Version)
      → compare semver a b options ≡ less
      → compare semver b c options ≡ less
      → (compare semver a c options ≡ less) × (compare semver c a options ≡ greater)
  unfolding compare
  compare_trans options a b c h k =
      let e = compare_with_trans (apply_compare_options options _) a b c h k in
      (e, compare_with-flip (apply_compare_options options _) a c ∙ ap flip e)
