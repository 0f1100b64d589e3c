-- ===== src/Admission/Paths/Matching.antt =====
-- Which paths match an allowed one.
use cluster_api_provider_ocn.Base.{
  String, ◌≡◌, ◌≢◌, refl, ap, true, List, [], ◌∷◌, ◌++◌, ◌==◌, eq_iff, Bool-cases, ◌⊎◌, inl, inr,
  ◌↔◌, arith,
}
use cluster_api_provider_ocn.Admission.Paths.{match_from, paths_match}

-- The path is the allowed one; or it agrees with it up to a star and goes on.
abbrev pub Agrees : List String → List String → Type 0
Agrees a p =
    (a ≡ p)
    ⊎ ((before : List String) × (after : List String) × (x : String) × (rest : List String) × (a
          ≡ before ++ ("*" ∷ after))
        × (p ≡ before ++ (x ∷ rest)))

match_from-Agrees : (a p : List String) → match_from a p ≡ true → Agrees a p
unfolding match_from
match_from-Agrees [] [] h = inl refl
match_from-Agrees [] (p ∷ ps) h = cc h
match_from-Agrees (a ∷ rest) [] h = cc h
match_from-Agrees (a ∷ rest) (p ∷ ps) h = elim (Bool-cases (a == "*")) [
  | inl e ↦ inr ([], rest, p, ps, ap (λ z. z ∷ rest) ((eq_iff a "*").0 e), refl)
  | inr e ↦ elim (Bool-cases (p == a)) [
    | inl f ↦
        let q : p ≡ a = (eq_iff p a).0 f in
        elim (match_from-Agrees rest ps (rw (e, f) at h)) [
          | inl g ↦ inl (cc (q, g))
          | inr (before, after, x, more, g, k) ↦
              inr (a ∷ before, after, x, more, ap (λ z. a ∷ z) g, cc (q, k))
        ]
    | inr f ↦ cc (rw (e, f) at h)
  ]
]

match_from_self : (p : List String) → match_from p p ≡ true
unfolding match_from
match_from_self [] = refl
match_from_self (a ∷ rest) = ground (arith, (eq_iff a a).1 refl, match_from_self rest)

match_from-star :
    (before after : List String) (x : String) (rest : List String)
    → match_from (before ++ ("*" ∷ after)) (before ++ (x ∷ rest)) ≡ true
unfolding match_from
match_from-star [] after x rest = refl
match_from-star (b ∷ before) after x rest =
    ground (arith, (eq_iff b b).1 refl, match_from-star before after x rest)

match_from-paths_match :
    (a p : List String) → p ≢ [] → match_from a p ≡ true → paths_match a p ≡ true
unfolding paths_match match_from
match_from-paths_match a [] n h = absurd (n refl)
match_from-paths_match [] (p ∷ ps) n h = cc h
match_from-paths_match (a ∷ rest) (p ∷ ps) n h = h

paths_match-match_from : (a p : List String) → paths_match a p ≡ true → match_from a p ≡ true
unfolding paths_match
paths_match-match_from [] p h = cc h
paths_match-match_from (a ∷ rest) [] h = cc h
paths_match-match_from (a ∷ rest) (p ∷ ps) h = h

Agrees-match_from : (a p : List String) → Agrees a p → match_from a p ≡ true
Agrees-match_from a p (inl e) = rw e (match_from_self p)
Agrees-match_from a p (inr (before, after, x, rest, e, f)) =
    rw (e, f) (match_from-star before after x rest)

-- A path that is not empty matches an allowed one exactly if it is the allowed one, or if it agrees
-- with the allowed one up to a star and has a further element there.
pub paths_match-Agrees : (a p : List String) → p ≢ [] → (paths_match a p ≡ true) ↔ Agrees a p
paths_match-Agrees a p n = (
  λ h. match_from-Agrees a p (paths_match-match_from a p h),
  λ h. match_from-paths_match a p n (Agrees-match_from a p h),
)
