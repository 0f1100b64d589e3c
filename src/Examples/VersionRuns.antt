-- ===== src/Examples/VersionRuns.antt =====
-- The theorems of versions at concrete texts and numbers.
use cluster_api_provider_ocn.Base.{◌≡◌, ◌≢◌, refl, String, true, some, [], ◌∷◌, arith, inl, inr}
use cluster_api_provider_ocn.Versions.{
  codes, Version, Comparison, less, equal, greater, different, SemverApi, compare_numbers,
  with_build_tags, compare, parse_major_minor_patch, is_digit, all_suffix_chars,
}
use cluster_api_provider_ocn.Versions.Comparing.{compare_trans}
use cluster_api_provider_ocn.Versions.Parsing.{parse-version_text, version_text}

pub compare_numbers-greater :
    (a b : Version) → compare_numbers a b ≡ less → compare_numbers b a ≡ greater
compare_numbers-greater a b h = ground (arith, h)

pub compare_numbers-less :
    (a b : Version) → compare_numbers a b ≡ greater → compare_numbers b a ≡ less
compare_numbers-less a b h = ground (arith, h)

pub compare_numbers-equal :
    (a b : Version) → compare_numbers a b ≡ equal → compare_numbers b a ≡ equal
compare_numbers-equal a b h = ground (arith, h)

pub compare_numbers-different : (a b : Version) → compare_numbers a b ≢ different
compare_numbers-different a b h = ground (arith, h)

pub compare_numbers_trans :
    (a b c : Version)
    → compare_numbers a b ≡ less
    → compare_numbers b c ≡ less
    → compare_numbers a c ≡ less
compare_numbers_trans a b c h k = ground (arith, h, k)

pub compare_numbers_equal_left :
    (a b c : Version) → compare_numbers a b ≡ equal → compare_numbers a c ≡ compare_numbers b c
compare_numbers_equal_left a b c h = ground (arith, h)

abbrev pub plain_semver : SemverApi
plain_semver = record {
  compare = compare_numbers;
  compare_plain = λ a b h k. refl;
  compare-greater = compare_numbers-greater;
  compare-less = compare_numbers-less;
  compare-equal = compare_numbers-equal;
  compare-different = compare_numbers-different;
  compare_trans = compare_numbers_trans;
  compare_equal_left = compare_numbers_equal_left;
}

abbrev v1_25 : String → Version
v1_25 b = record { major = 1; minor = 25; patch = 7; pre = []; build = b ∷ [] }

compare_trans_example :
    (compare plain_semver (v1_25 "3") (v1_25 "abc") (with_build_tags ∷ []) ≡ less)
    × (compare plain_semver (v1_25 "abc") (v1_25 "3") (with_build_tags ∷ []) ≡ greater)
unfolding compare cluster_api_provider_ocn.Versions.compare_with
    cluster_api_provider_ocn.Versions.apply_compare_options with_build_tags
    cluster_api_provider_ocn.Versions.strip_pre
    cluster_api_provider_ocn.Versions.compare_identifiers
    cluster_api_provider_ocn.Versions.new_build_identifiers
    cluster_api_provider_ocn.Versions.compare_identifier
    cluster_api_provider_ocn.Versions.new_build_identifier
    cluster_api_provider_ocn.Versions.contains_only_numbers is_digit
compare_trans_example =
    compare_trans plain_semver (with_build_tags ∷ []) (v1_25 "3") (v1_25 "20") (v1_25 "abc") refl
      refl

abbrev parsed : Version
parsed = record { major = 1; minor = 25; patch = 7; pre = []; build = [] }

parse-version_text_example :
    parse_major_minor_patch
      (version_text (codes "1") (codes "25") (codes "0") (codes "-rc.1+2"))
      true
    ≡ some (record { major = 1; minor = 25; patch = 0; pre = []; build = [] })
unfolding is_digit all_suffix_chars cluster_api_provider_ocn.Versions.is_suffix_char
parse-version_text_example =
    parse-version_text (codes "1") (codes "25") (codes "0") (codes "-rc.1+2") true
      (inr ((omega arith), refl, tt)) (inr ((omega arith), refl, (refl, tt))) (inl (refl, refl))
      (omega arith) (omega arith) (omega arith) refl refl
