-- ===== src/Admission/Config.antt =====
-- The validation of OCNEConfigSpec in ocneconfig_webhook.go. The feature gate is an argument.
pub mod Accepting
use cluster_api_provider_ocn.Base.{
  ℕ, suc, String, Bool, true, false, not, ◌&&◌, ◌||◌, Option, none, some, List, [], ◌∷◌, ◌++◌, ◌==◌,
  any, if◌then◌else◌, is_some,
}
use cluster_api_provider_ocn.Admission.{
  Segment, FieldError, required, forbidden, invalid, below, at_index, when, Secret, File, User,
  Filesystem, DiskSetup, OcneConfigSpec,
}

-- A secret, of a file's content or a user's password, has a name and a key.
unfoldable pub check_secret : List Segment → Option Secret → List FieldError
check_secret p none = []
check_secret p (some s) =
    when (s.secret_name == "") (required (below p ("secret" ∷ "name" ∷ [])))
    ++ when (s.secret_key == "") (required (below p ("secret" ∷ "key" ∷ [])))

unfoldable pub check_file : List Segment → List String → File → List FieldError
check_file p known file =
    when (not (file.content == "") && is_some file.content_from) (invalid p)
    ++ (check_secret (below p ("contentFrom" ∷ [])) file.content_from
        ++ when (any (λ k. k == file.path) known) (invalid (below p ("path" ∷ []))))

-- The loop of validateFiles, from an index on, with the known paths.
unfoldable pub check_files : List Segment → ℕ → List String → List File → List FieldError
check_files p i known [] = []
check_files p i known (file ∷ rest) =
    check_file (at_index (below p ("files" ∷ [])) i) known file
    ++ check_files p (suc i) (file.path ∷ known) rest

unfoldable pub validate_files : List Segment → OcneConfigSpec → List FieldError
validate_files p c = check_files p 0 [] c.files

unfoldable pub check_user : List Segment → User → List FieldError
check_user p user =
    when (is_some user.passwd && is_some user.passwd_from) (invalid p)
    ++ check_secret (below p ("passwdFrom" ∷ [])) user.passwd_from

-- A loop with an index over a list, for each of whose elements it appends errors.
abbrev pub check_each :
    {A : Type 0}
    → (List Segment → A → List FieldError)
    → List Segment
    → ℕ
    → List A
    → List FieldError
check_each check p i [] = []
check_each check p i (x ∷ rest) = check (at_index p i) x ++ check_each check p (suc i) rest

unfoldable pub validate_users : List Segment → OcneConfigSpec → List FieldError
validate_users p c = check_each check_user (below p ("users" ∷ [])) 0 c.users

unfoldable pub check_inactive : List Segment → User → List FieldError
check_inactive p user = elim user.inactive [
  | none ↦ []
  | some b ↦ when b (forbidden (below p ("inactive" ∷ [])))
]

unfoldable pub check_encoding : List Segment → File → List FieldError
check_encoding p file =
    when (file.encoding == "gzip" || file.encoding == "gzip+base64")
      (forbidden (below p ("encoding" ∷ [])))

unfoldable pub check_partition : List Segment → Option String → List FieldError
check_partition p none = []
check_partition p (some table_type) =
    when (not (table_type == "gpt")) (invalid (below p ("tableType" ∷ [])))

unfoldable pub check_filesystem : List Segment → Filesystem → List FieldError
check_filesystem p fs =
    when (is_some fs.replace_fs) (forbidden (below p ("replaceFS" ∷ [])))
    ++ when (is_some fs.partition) (forbidden (below p ("partition" ∷ [])))

unfoldable pub check_disk_setup : List Segment → Option DiskSetup → List FieldError
check_disk_setup p none = []
check_disk_setup p (some d) =
    check_each check_partition (below p ("diskSetup" ∷ "partitions" ∷ [])) 0 d.partitions
    ++ check_each check_filesystem (below p ("diskSetup" ∷ "filesystems" ∷ [])) 0 d.filesystems

-- What Ignition does not support.
unfoldable pub check_unsupported : List Segment → OcneConfigSpec → List FieldError
check_unsupported p c =
    check_each check_inactive (below p ("users" ∷ [])) 0 c.users
    ++ (when c.use_experimental_retry_join (forbidden (below p ("useExperimentalRetryJoin" ∷ [])))
        ++ (check_each check_encoding (below p ("files" ∷ [])) 0 c.files
            ++ check_disk_setup p c.disk_setup))

unfoldable pub validate_ignition : Bool → List Segment → OcneConfigSpec → List FieldError
validate_ignition enabled p c =
    if not enabled
    then when (c.format == "ignition") (forbidden (below p ("format" ∷ [])))
      ++ when c.ignition (forbidden (below p ("ignition" ∷ [])))
    else if not (c.format == "ignition")
    then when c.ignition (invalid (below p ("format" ∷ [])))
    else check_unsupported p c

unfoldable pub validate : Bool → List Segment → OcneConfigSpec → List FieldError
validate enabled p c = validate_files p c ++ (validate_users p c ++ validate_ignition enabled p c)

unfoldable pub default_ocne_config_spec : OcneConfigSpec → OcneConfigSpec
default_ocne_config_spec c = if c.format == "" then record c { format = "cloud-config" } else c
