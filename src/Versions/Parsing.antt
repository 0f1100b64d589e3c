-- ===== src/Versions/Parsing.antt =====
-- What the parser of major.minor.patch accepts, and what it makes of it.
use cluster_api_provider_ocn.Base.{
  ℕ, ◌^◌, ◌<◌, ◌≢◌, ◌≡◌, refl, ◌∙◌, Bool, true, false, some, List, [], ◌∷◌, ◌++◌, arith, ◌⊎◌, inl,
  inr, All, Option-cases,
}
use cluster_api_provider_ocn.Versions.{
  Version, is_digit, all_suffix_chars, take_digits, take_number, take_char, digits_value,
  parse_uint, match_numbers, find_submatch, parse_groups, parse_major_minor_patch,
}

-- The numbers of a version are words of 64 bits, and nothing but the numbers is kept.
abbrev IsPlain : Version → Type 0
IsPlain v =
    (v.major < 2 ^ 64) × (v.minor < 2 ^ 64) × (v.patch < 2 ^ 64) × (v.pre ≡ []) × (v.build ≡ [])

parse_groups-IsPlain : (a b c : List ℕ) (v : Version) → parse_groups (a, b, c) ≡ some v → IsPlain v
unfolding parse_groups parse_uint
parse_groups-IsPlain a b c v h = ground arith

-- The numbers of a parsed version are words of 64 bits.
pub parse_bounds :
    (version : List ℕ) (tolerant : Bool) (v : Version)
    → parse_major_minor_patch version tolerant ≡ some v
    → (v.major < 2 ^ 64) × (v.minor < 2 ^ 64) × (v.patch < 2 ^ 64) × (v.pre ≡ []) × (v.build ≡ [])
unfolding parse_major_minor_patch
parse_bounds version tolerant v h = elim (Option-cases (find_submatch tolerant version)) [
  | inl e ↦ cc (rw e at h)
  | inr ((a, b, c), e) ↦ parse_groups-IsPlain a b c v (rw e at h)
]

abbrev Digits : List ℕ → Type 0
Digits = All (λ d. is_digit d ≡ true)

-- 0, or digits of which the first is not 0.
abbrev pub IsNumeral : List ℕ → Type 0
IsNumeral [] = ⊥
IsNumeral (d ∷ ds) = ((d ≡ b'0') × (ds ≡ [])) ⊎ ((d ≢ b'0') × (is_digit d ≡ true) × Digits ds)

abbrev pub NoDigit : List ℕ → Type 0
NoDigit [] = Unit
NoDigit (c ∷ cs) = is_digit c ≡ false

take_digits-append :
    (ds rest : List ℕ) → Digits ds → NoDigit rest → take_digits (ds ++ rest) ≡ (ds, rest)
unfolding take_digits
take_digits-append [] [] h n = refl
take_digits-append [] (c ∷ cs) h n = rw n
take_digits-append (d ∷ ds) rest (h, hs) n = rw (h, take_digits-append ds rest hs n)

take_number-append :
    (ds rest : List ℕ) → IsNumeral ds → NoDigit rest → take_number (ds ++ rest) ≡ some (ds, rest)
unfolding take_number
take_number-append [] rest h n = elim h [ ]
take_number-append (d ∷ ds) rest (inl (e, f)) n = rw (e, f)
take_number-append (d ∷ ds) rest (inr (ne, e, h)) n = ground (arith, take_digits-append ds rest h n)

find_submatch-match_numbers :
    (tolerant : Bool) (cs : List ℕ) → find_submatch tolerant (b'v' ∷ cs) ≡ match_numbers cs
unfolding find_submatch
find_submatch-match_numbers tolerant cs = refl

-- The text of a version: the prefix, three numerals and a suffix.
abbrev pub version_text : List ℕ → List ℕ → List ℕ → List ℕ → List ℕ
version_text a b c suffix = b'v' ∷ (a ++ (b'.' ∷ (b ++ (b'.' ∷ (c ++ suffix)))))

match_numbers-version_text :
    (a b c suffix : List ℕ)
    → IsNumeral a
    → IsNumeral b
    → IsNumeral c
    → NoDigit suffix
    → all_suffix_chars suffix ≡ true
    → match_numbers (a ++ (b'.' ∷ (b ++ (b'.' ∷ (c ++ suffix))))) ≡ some (a, b, c)
unfolding match_numbers take_char is_digit
match_numbers-version_text a b c suffix ha hb hc n s =
    let ea = take_number-append a (b'.' ∷ (b ++ (b'.' ∷ (c ++ suffix)))) ha refl in
    let eb = take_number-append b (b'.' ∷ (c ++ suffix)) hb refl in
    let ec = take_number-append c suffix hc n in rw (ea, eb, ec, s)

-- A text of the prefix v, three decimal numerals below 2 ^ 64 without leading zeros, separated by
-- dots, and a suffix of the allowed characters that does not begin with a digit is parsed, in both
-- modes, and gives the values of the numerals.
pub parse-version_text :
    (a b c suffix : List ℕ) (tolerant : Bool)
    → IsNumeral a
    → IsNumeral b
    → IsNumeral c
    → digits_value 0 a < 2 ^ 64
    → digits_value 0 b < 2 ^ 64
    → digits_value 0 c < 2 ^ 64
    → NoDigit suffix
    → all_suffix_chars suffix ≡ true
    → parse_major_minor_patch (version_text a b c suffix) tolerant
      ≡ some (record {
        major = digits_value 0 a;
        minor = digits_value 0 b;
        patch = digits_value 0 c;
        pre = [];
        build = [];
      })
unfolding parse_major_minor_patch parse_groups parse_uint
parse-version_text a b c suffix tolerant ha hb hc la lb lc n s =
    let e =
      find_submatch-match_numbers tolerant (a ++ (b'.' ∷ (b ++ (b'.' ∷ (c ++ suffix)))))
      ∙ match_numbers-version_text a b c suffix ha hb hc n s in
    rw e (ground arith)

-- The text is three numerals, separated by dots, and a suffix of the allowed characters.
abbrev pub Spells : List ℕ → List ℕ × List ℕ × List ℕ → Type 0
Spells cs (a, b, c) =
    (suffix : List ℕ) × (cs ≡ a ++ (b'.' ∷ (b ++ (b'.' ∷ (c ++ suffix)))))
    × IsNumeral a
    × IsNumeral b
    × IsNumeral c
    × (all_suffix_chars suffix ≡ true)

-- The text after its prefix: a text without the prefix is read only by the tolerant expression.
abbrev pub Prefixed : Bool → List ℕ → List ℕ → Type 0
Prefixed tolerant version cs = (version ≡ b'v' ∷ cs) ⊎ ((tolerant ≡ true) × (version ≡ cs))
