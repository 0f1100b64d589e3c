-- ===== src/Admission/Paths.antt =====
-- The paths that an update changes, and those that it may change.
pub mod Matching
use cluster_api_provider_ocn.Base.{
  String, Bool, true, false, List, [], ◌∷◌, ◌++◌, ◌==◌, any, if◌then◌else◌,
}
use cluster_api_provider_ocn.Admission.{FieldError, forbidden, below}

-- What a merge patch holds under a key: a map, in the order of an iteration, or another value.
mutual
  pub data Json : Type 0 where
    value : Json
    object : Fields → Json

  pub data Fields : Type 0 where
    no_fields : Fields
    add_field : String → Json → Fields → Fields

unfoldable pub paths : List String → Fields → List (List String)
paths path no_fields = []
paths path (add_field key value rest) = (path ++ (key ∷ [])) ∷ paths path rest
paths path (add_field key (object nested) rest) =
    paths (path ++ (key ∷ [])) nested ++ paths path rest

-- The loop of pathsMatch from an index on: what is left of both.
unfoldable pub match_from : List String → List String → Bool
match_from [] [] = true
match_from [] (p ∷ ps) = false
match_from (a ∷ rest) [] = false
match_from (a ∷ rest) (p ∷ ps) =
    let matched = match_from rest ps in if a == "*" then true else if p == a then matched else false

unfoldable pub paths_match : List String → List String → Bool
paths_match [] path = false
paths_match (a ∷ rest) [] = false
paths_match (a ∷ rest) (p ∷ ps) = match_from (a ∷ rest) (p ∷ ps)

unfoldable pub allowed : List (List String) → List String → Bool
allowed allow_list path = any (λ a. paths_match a path) allow_list

-- The loop of ValidateUpdate over the paths of the difference.
unfoldable pub check_paths : List (List String) → List (List String) → List FieldError
check_paths allow_list [] = []
check_paths allow_list ([] ∷ rest) = check_paths allow_list rest
check_paths allow_list ((p ∷ ps) ∷ rest) =
    let errors = check_paths allow_list rest in
    if allowed allow_list (p ∷ ps) then errors else forbidden (below [] (p ∷ ps)) ∷ errors
