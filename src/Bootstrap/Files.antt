-- ===== src/Bootstrap/Files.antt =====
-- resolveFiles and resolveUsers of kubeadmconfig_controller.go: contents and passwords that secrets
-- hold are put in. `secret_data` is the data of a secret under a key, none where there is none.
use cluster_api_provider_ocn.Base.{
  subst, String, ◌≡◌, refl, Option, none, some, List, [], ◌∷◌, Option-cases, inl, inr,
}
use cluster_api_provider_ocn.Admission.{Secret, File, User}

module _ (secret_data : String → String → Option String) where
  unfoldable pub resolve_secret : Secret → Option String
  resolve_secret s = secret_data s.secret_name s.secret_key

  unfoldable pub resolve_file : File → Option File
  resolve_file f = elim f.content_from [
    | none ↦ some f
    | some s ↦ elim (resolve_secret s) [
      | none ↦ none
      | some text ↦ some (record f { content_from = none; content = text })
    ]
  ]

  unfoldable pub resolve_files : List File → Option (List File)
  resolve_files [] = some []
  resolve_files (f ∷ fs) = elim (resolve_file f) [
    | none ↦ none
    | some g ↦ elim (resolve_files fs) [ none ↦ none | some gs ↦ some (g ∷ gs) ]
  ]

  unfoldable pub resolve_user : User → Option User
  resolve_user u = elim u.passwd_from [
    | none ↦ some u
    | some s ↦ elim (resolve_secret s) [
      | none ↦ none
      | some text ↦ some (record u { passwd_from = none; passwd = some text })
    ]
  ]

  unfoldable pub resolve_users : List User → Option (List User)
  resolve_users [] = some []
  resolve_users (u ∷ us) = elim (resolve_user u) [
    | none ↦ none
    | some v ↦ elim (resolve_users us) [ none ↦ none | some vs ↦ some (v ∷ vs) ]
  ]

  -- The content that a file gets: its own, or its secret's.
  abbrev pub source : File → Option String
  source f = elim f.content_from [
    | none ↦ some f.content
    | some s ↦ secret_data s.secret_name s.secret_key
  ]

  -- What a resolved file is: the same in all but the content and the reference, with the content that
  -- the file gets, and without a reference.
  abbrev pub IsResolved : File → File → Type 0
  IsResolved f g =
      (g.path ≡ f.path)
      × (g.owner ≡ f.owner)
      × (g.permissions ≡ f.permissions)
      × (g.encoding ≡ f.encoding)
      × (g.append ≡ f.append)
      × (g.content_from ≡ none)
      × (source f ≡ some g.content)

  -- The two lists have the same length, and their files are related one by one.
  abbrev pub AreResolved : List File → List File → Type 0
  AreResolved [] [] = Unit
  AreResolved [] (g ∷ gs) = ⊥
  AreResolved (f ∷ fs) [] = ⊥
  AreResolved (f ∷ fs) (g ∷ gs) = IsResolved f g × AreResolved fs gs

  resolve_file-IsResolved : (f g : File) → resolve_file f ≡ some g → IsResolved f g
  unfolding resolve_file resolve_secret
  resolve_file-IsResolved f g h = elim (Option-cases f.content_from) [
    | inl e ↦
        let k : f ≡ g = cc (rw (e, resolve_file) at h) in
        rw (← k) (refl, refl, refl, refl, refl, e, rw e refl)
    | inr (s, e) ↦ elim (Option-cases (secret_data s.secret_name s.secret_key)) [
      | inl q ↦ cc (rw (e, resolve_file, q) at h)
      | inr (text, q) ↦
          let k : record f { content_from = none; content = text } ≡ g =
            cc (rw (e, resolve_file, q) at h) in
          rw (← k) (refl, refl, refl, refl, refl, refl, rw (e, q) refl)
    ]
  ]

  -- Where every file is resolved, the result has a file for each, in order, which refers to no secret,
  -- has the file's own content or the one that its secret holds under the key, and has the path,
  -- owner, permissions, encoding and append flag of the file.
  pub resolve_files-source : (fs gs : List File) → resolve_files fs ≡ some gs → AreResolved fs gs
  unfolding resolve_files
  resolve_files-source [] [] h = tt
  resolve_files-source [] (g ∷ gs) h = cc h
  resolve_files-source (f ∷ fs) gs h = elim (Option-cases (resolve_file f)) [
    | inl e ↦ cc (rw (e, resolve_files) at h)
    | inr (x, e) ↦ elim (Option-cases (resolve_files fs)) [
      | inl q ↦ cc (rw (e, resolve_files, q) at h)
      | inr (xs, q) ↦
          let k : x ∷ xs ≡ gs = cc (rw (e, resolve_files, q) at h) in
          subst (AreResolved (f ∷ fs)) k
            (resolve_file-IsResolved f x e, resolve_files-source fs xs q)
    ]
  ]
