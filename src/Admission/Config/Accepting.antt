-- ===== src/Admission/Config/Accepting.antt =====
-- Which configurations are accepted.
use cluster_api_provider_ocn.Base.{
  ℕ, suc, String, ◌≡◌, refl, Bool, true, false, not, ◌&&◌, Option, none, some, List, [], ◌∷◌, ◌++◌,
  ◌==◌, any, All, if◌then◌else◌, is_some, arith, ◌↔◌,
}
use cluster_api_provider_ocn.Admission.{
  Segment, FieldError, invalid, below, at_index, when, Secret, File, OcneConfigSpec,
}
use cluster_api_provider_ocn.Admission.Config.{
  check_secret, check_file, check_files, validate_files,
}

pub append_empty : (xs ys : List FieldError) → (xs ++ ys ≡ []) ↔ ((xs ≡ []) × (ys ≡ []))
append_empty [] ys = (λ h. (refl, h), λ h. h.1)
append_empty (x ∷ xs) ys = (λ h. cc h, λ h. cc (h.0))

when_empty : (b : Bool) (e : FieldError) → (when b e ≡ []) ↔ (b ≡ false)
when_empty true e = (λ h. cc h, λ h. cc h)
when_empty false e = (λ h. refl, λ h. refl)

-- A secret that is given has a name and a key.
abbrev pub HasNames : Option Secret → Type 0
HasNames none = Unit
HasNames (some s) = ((s.secret_name == "") ≡ false) × ((s.secret_key == "") ≡ false)

-- A file has one source at most, and it is complete.
abbrev pub HasSource : File → Type 0
HasSource file =
    ((not (file.content == "") && is_some file.content_from) ≡ false) × HasNames file.content_from

-- No file has a path that is known.
abbrev Fresh : List String → List File → Type 0
Fresh known = All (λ f. any (λ k. k == f.path) known ≡ false)

-- No two files have the same path.
abbrev pub DistinctPaths : List File → Type 0
DistinctPaths [] = Unit
DistinctPaths (f ∷ fs) = All (λ g. (f.path == g.path) ≡ false) fs × DistinctPaths fs

Fresh-add :
    (k : String) (known : List String) (fs : List File)
    → Fresh (k ∷ known) fs ↔ (All (λ g. (k == g.path) ≡ false) fs × Fresh known fs)
Fresh-add k known [] = (λ h. (tt, tt), λ h. tt)
Fresh-add k known (f ∷ fs) =
    let (to, from) = Fresh-add k known fs in
    let split : ((if k == f.path then true else any (λ k. k == f.path) known) ≡ false)
        ↔ (((k == f.path) ≡ false) × (any (λ k. k == f.path) known ≡ false)) =
      ground arith in
    (
      λ (a, h). (let (b, c) = split.0 a in let (d, e) = to h in ((b, d), (c, e))),
      λ ((b, d), (c, e)). (split.1 (b, c), from (d, e)),
    )

check_secret_empty : (p : List Segment) (s : Option Secret) → (check_secret p s ≡ []) ↔ HasNames s
unfolding check_secret
check_secret_empty p none = (λ h. tt, λ h. refl)
check_secret_empty p (some s) = ground arith

check_file_empty :
    (p : List Segment) (known : List String) (f : File)
    → (check_file p known f ≡ []) ↔ (HasSource f × (any (λ k. k == f.path) known ≡ false))
unfolding check_file
check_file_empty p known f =
    let (a, a') =
      append_empty (when (not (f.content == "") && is_some f.content_from) (invalid p)) _ in
    let (b, b') = append_empty (check_secret (below p ("contentFrom" ∷ [])) f.content_from) _ in
    let (c, c') = check_secret_empty (below p ("contentFrom" ∷ [])) f.content_from in
    let (d, d') = when_empty (not (f.content == "") && is_some f.content_from) (invalid p) in
    let (e, e') = when_empty (any (λ k. k == f.path) known) (invalid (below p ("path" ∷ []))) in
    (
      λ h. (let (x, y) = a h in let (z, w) = b y in ((d x, c z), e w)),
      λ ((x, z), w). a' (d' x, b' (c' z, e' w)),
    )

check_files_empty :
    (p : List Segment) (i : ℕ) (known : List String) (fs : List File)
    → (check_files p i known fs ≡ []) ↔ (All HasSource fs × Fresh known fs × DistinctPaths fs)
unfolding check_files
check_files_empty p i known [] = (λ h. (tt, tt, tt), λ h. refl)
check_files_empty p i known (f ∷ fs) =
    let (a, a') = append_empty (check_file (at_index (below p ("files" ∷ [])) i) known f) _ in
    let (b, b') = check_file_empty (at_index (below p ("files" ∷ [])) i) known f in
    let (c, c') = check_files_empty p (suc i) (f.path ∷ known) fs in
    let (d, d') = Fresh-add f.path known fs in
    (
      λ h.
          (let (x, y) = a h in
            let (s, fresh) = b x in
            let (ss, later, distinct) = c y in
            let (apart, known_apart) = d later in
            ((s, ss), (fresh, known_apart), (apart, distinct))),
      λ ((s, ss), (fresh, known_apart), (apart, distinct)).
          a' (b' (s, fresh), c' (ss, d' (apart, known_apart), distinct)),
    )

Fresh-none : (fs : List File) → Fresh [] fs
Fresh-none [] = tt
Fresh-none (f ∷ fs) = (refl, Fresh-none fs)

-- The files of a configuration are accepted exactly if each has one source at most, a source that is
-- a secret has a name and a key, and no two files have the same path.
pub validate_files-accepts :
    (p : List Segment) (c : OcneConfigSpec)
    → (validate_files p c ≡ []) ↔ (All HasSource c.files × DistinctPaths c.files)
unfolding validate_files
validate_files-accepts p c =
    let (a, a') = check_files_empty p 0 [] c.files in
    (λ h. (let (x, y, z) = a h in (x, z)), λ (x, z). a' (x, Fresh-none c.files, z))
