-- ===== src/Versions.antt =====
-- util/version/version.go: parsing the numbers of a Kubernetes version, and comparing versions with
-- their build identifiers. SemverApi holds the comparison of blang/semver, which leaves build
-- identifiers aside. A text is the list of its characters' codes where the code takes it apart.

pub mod Comparing
pub mod Parsing
use Prim.Native.Char.{code}
use cluster_api_provider_ocn.Base.{
  ℕ, ◌+◌, ◌-◌, ◌*◌, ◌^◌, ◌≡◌, ◌≢◌, String, Bool, true, false, not, ◌&&◌, ◌||◌, Option, none, some,
  List, [], ◌∷◌, ◌==◌, ◌=ℕ◌, ltb, leb, any, map, if◌then◌else◌, is_empty,
}

-- The code points of a text.
abbrev pub codes : String → List ℕ
codes Prim.Native.String.[] = []
codes (Prim.Native.String.◌∷◌ c s) = code c ∷ codes s

-- semver.Version
pub record Version : Type 0 where
  pub major : ℕ
  pub minor : ℕ
  pub patch : ℕ
  pub pre : List String
  pub build : List String

unfoldable pub is_digit : ℕ → Bool
is_digit c = leb b'0' c && leb c b'9'

-- A character of the class [-0-9a-zA-Z_\.+].
unfoldable pub is_suffix_char : ℕ → Bool
is_suffix_char c =
    c =ℕ b'-'
    || is_digit c
    || (leb b'a' c && leb c b'z')
    || (leb b'A' c && leb c b'Z')
    || c =ℕ b'_'
    || c =ℕ b'.'
    || c =ℕ b'+'

unfoldable pub all_suffix_chars : List ℕ → Bool
all_suffix_chars cs = not (any (λ c. not (is_suffix_char c)) cs)

-- [0-9]*, as many as there are: the digits and the rest.
unfoldable pub take_digits : List ℕ → List ℕ × List ℕ
take_digits [] = ([], [])
take_digits (c ∷ cs) =
    let (ds, rest) = take_digits cs in if is_digit c then (c ∷ ds, rest) else ([], c ∷ cs)

-- (0|[1-9][0-9]*)
unfoldable pub take_number : List ℕ → Option (List ℕ × List ℕ)
take_number [] = none
take_number (c ∷ cs) =
    if c =ℕ b'0'
    then some (c ∷ [], cs)
    else if is_digit c
    then some (c ∷ (take_digits cs).0, (take_digits cs).1)
    else none

unfoldable pub take_char : ℕ → List ℕ → Option (List ℕ)
take_char k [] = none
take_char k (c ∷ cs) = if c =ℕ k then some cs else none

abbrev pub digits_value : ℕ → List ℕ → ℕ
digits_value n [] = n
digits_value n (d ∷ ds) = digits_value (10 * n + (d - b'0')) ds

-- strconv.ParseUint at base 10 and 64 bits, on digits.
unfoldable pub parse_uint : List ℕ → Option ℕ
parse_uint ds = if ltb (digits_value 0 ds) (2 ^ 64) then some (digits_value 0 ds) else none

infixl 5 ◌>>=◌
abbrev pub ◌>>=◌ : {A B : Type 0} → Option A → (A → Option B) → Option B
none >>= f = none
some a >>= f = f a

-- The groups of KubeSemver after the prefix: three numbers.
unfoldable pub match_numbers : List ℕ → Option (List ℕ × List ℕ × List ℕ)
match_numbers cs = do
  (major, cs1) ← take_number cs
  cs2 ← take_char b'.' cs1
  (minor, cs3) ← take_number cs2
  cs4 ← take_char b'.' cs3
  (patch, cs5) ← take_number cs4
  if all_suffix_chars cs5 then some (major, minor, patch) else none

-- FindStringSubmatch of KubeSemver, or of KubeSemverTolerant, whose prefix is optional.
unfoldable pub find_submatch : Bool → List ℕ → Option (List ℕ × List ℕ × List ℕ)
find_submatch tolerant [] = none
find_submatch tolerant (c ∷ cs) =
    if c =ℕ b'v' then match_numbers cs else if tolerant then match_numbers (c ∷ cs) else none

unfoldable pub parse_groups : List ℕ × List ℕ × List ℕ → Option Version
parse_groups (a, b, c) = do
  major ← parse_uint a
  minor ← parse_uint b
  patch ← parse_uint c
  some (record { major = major; minor = minor; patch = patch; pre = []; build = [] })

unfoldable pub parse_major_minor_patch : List ℕ → Bool → Option Version
parse_major_minor_patch version tolerant = find_submatch tolerant version >>= parse_groups

-- The results of a comparison: -1, 0, 1, and 2 where no order can be told.
pub data Comparison : Type 0 where
  less equal greater different : Comparison

-- The precedence of two versions by their numbers, the first that differs deciding.
abbrev pub compare_number : ℕ → ℕ → Comparison → Comparison
compare_number a b next = if ltb a b then less else if a =ℕ b then next else greater

abbrev pub compare_numbers : Version → Version → Comparison
compare_numbers a b =
    compare_number a.major b.major
      (compare_number a.minor b.minor (compare_number a.patch b.patch equal))

pub record SemverApi : Type 0 where
  pub compare : Version → Version → Comparison
  pub compare_plain : (a b : Version) → a.pre ≡ [] → b.pre ≡ [] → compare a b ≡ compare_numbers a b
  pub compare-greater : (a b : Version) → compare a b ≡ less → compare b a ≡ greater
  pub compare-less : (a b : Version) → compare a b ≡ greater → compare b a ≡ less
  pub compare-equal : (a b : Version) → compare a b ≡ equal → compare b a ≡ equal
  pub compare-different : (a b : Version) → compare a b ≢ different
  pub compare_trans :
      (a b c : Version) → compare a b ≡ less → compare b c ≡ less → compare a c ≡ less
  pub compare_equal_left : (a b c : Version) → compare a b ≡ equal → compare a c ≡ compare b c

pub record BuildIdentifier : Type 0 where
  pub identifier_int : ℕ
  pub identifier_str : String
  pub is_num : Bool

-- containsOnly(s, numbers)
unfoldable pub contains_only_numbers : List ℕ → Bool
contains_only_numbers cs = not (any (λ c. not (is_digit c)) cs)

-- ParseUint's error is dropped: what it returns with it is the greatest number, or 0 without digits.
unfoldable pub new_build_identifier : String → BuildIdentifier
new_build_identifier s =
    if contains_only_numbers (codes s)
    then record {
      identifier_int =
          if ltb (digits_value 0 (codes s)) (2 ^ 64) then digits_value 0 (codes s) else 2 ^ 64 - 1;
      identifier_str = "";
      is_num = true;
    }
    else record { identifier_int = 0; identifier_str = s; is_num = false }

unfoldable pub new_build_identifiers : List String → List BuildIdentifier
new_build_identifiers = map new_build_identifier

unfoldable pub compare_identifier : BuildIdentifier → BuildIdentifier → Comparison
compare_identifier v o =
    if v.is_num && not o.is_num
    then less
    else if not v.is_num && o.is_num
    then greater
    else if v.is_num && o.is_num
    then (if ltb v.identifier_int o.identifier_int
        then less
        else if v.identifier_int =ℕ o.identifier_int
        then equal
        else greater)
    else if v.identifier_str == o.identifier_str
    then equal
    else different

-- The loop over both lists, and the comparison of their lengths.
unfoldable pub compare_identifiers : List BuildIdentifier → List BuildIdentifier → Comparison
compare_identifiers [] [] = equal
compare_identifiers [] (o ∷ os) = less
compare_identifiers (v ∷ vs) [] = greater
compare_identifiers (v ∷ vs) (o ∷ os) =
    let rest = compare_identifiers vs os in
    elim (compare_identifier v o) [
      | equal ↦ rest
      | less ↦ less
      | greater ↦ greater
      | different ↦ different
    ]

pub record Comparer : Type 0 where
  pub build_tags : Bool
  pub without_pre_releases : Bool

abbrev pub CompareOption : Type 0
CompareOption = Comparer → Comparer

unfoldable pub with_build_tags : CompareOption
with_build_tags c = record c { build_tags = true }

unfoldable pub without_pre_releases : CompareOption
without_pre_releases c = record c { without_pre_releases = true }

unfoldable pub apply_compare_options : List CompareOption → Comparer → Comparer
apply_compare_options [] c = c
apply_compare_options (o ∷ os) c = apply_compare_options os (o c)

unfoldable pub strip_pre : Comparer → Version → Version
strip_pre c v = if c.without_pre_releases then record v { pre = [] } else v

module _ (semver : SemverApi) where
  unfoldable pub compare_with : Comparer → Version → Version → Comparison
  compare_with c a b =
      if c.build_tags
      then (elim (semver.compare (strip_pre c a) (strip_pre c b)) [
        | equal ↦
            compare_identifiers (new_build_identifiers a.build) (new_build_identifiers b.build)
        | less ↦ less
        | greater ↦ greater
        | different ↦ different
      ])
      else semver.compare (strip_pre c a) (strip_pre c b)

  unfoldable pub compare : Version → Version → List CompareOption → Comparison
  compare a b options =
      compare_with
        (apply_compare_options options
          (record { build_tags = false; without_pre_releases = false }))
        a b
