-- ===== src/FailureDomains/Fewest.antt =====
-- PickFewest against the counts of the failure domains.
use cluster_api_provider_ocn.Base.{
  ℕ, ◌≤◌, String, ◌≡◌, ◌≢◌, refl, ap, ◌∙◌, sym, subst, Bool, true, false, none, some, List, [], ◌∷◌,
  arith, All, Any, All-mono, In, inl, inr, sort, sort-head, length, length-sort, ◌↔◌,
}
use cluster_api_provider_ocn.Machines.Collection.{Machines}
use cluster_api_provider_ocn.FailureDomains.{
  FailureDomains, Aggregation, fewer, pick, first_id, pick_fewest,
}
use cluster_api_provider_ocn.FailureDomains.Counting.{
  machines_in, DistinctDomains, counts, pick-counts,
}

pub In-counts :
    (fds : FailureDomains) (ms : Machines) (a : Aggregation)
    → In a (counts fds ms)
    → Any (λ fd. fd.0 ≡ a.id) fds × (a.count ≡ machines_in a.id ms)
In-counts [] ms a m = absurd m
In-counts (fd ∷ fds) ms a (inl e) = (inl (ap (λ b. b.id) e), ground arith)
In-counts (fd ∷ fds) ms a (inr m) = let (i, q) = In-counts fds ms a m in (inr i, q)

pub All-counts :
    (P : String → ℕ → Type 0) (fds : FailureDomains) (ms : Machines)
    → All (λ a. P a.id a.count) (counts fds ms)
    → All (λ fd. P fd.0 (machines_in fd.0 ms)) fds
All-counts P [] ms h = tt
All-counts P (fd ∷ fds) ms h = (h.0, All-counts P fds ms h.1)

fewer_asym : (x y : Aggregation) → fewer x y ≡ true → fewer y x ≡ false
unfolding fewer
fewer_asym x y h = ground arith

fewer_neg_trans : (x y z : Aggregation) → fewer x y ≡ false → fewer y z ≡ false → fewer x z ≡ false
unfolding fewer
fewer_neg_trans x y z h k = ground arith

not_fewer : (x y : Aggregation) → fewer y x ≡ false → x.count ≤ y.count
unfolding fewer
not_fewer x y h = ground arith

first_id-some :
    (s : List Aggregation) (id : String)
    → first_id s ≡ some id
    → (a : Aggregation) × (rest : List Aggregation) × (s ≡ a ∷ rest) × (a.id ≡ id)
unfolding first_id
first_id-some [] id e = cc
first_id-some (a ∷ rest) id e = (a, rest, refl, ground arith)

-- The domain that is picked from distinct ones is one of them, and none has fewer machines.
pub pick_fewest-least :
    (fds : FailureDomains) (ms : Machines) (id : String)
    → DistinctDomains fds
    → pick_fewest fds ms ≡ some id
    → Any (λ fd. fd.0 ≡ id) fds × All (λ fd. machines_in id ms ≤ machines_in fd.0 ms) fds
unfolding pick_fewest
pick_fewest-least fds ms id d e =
    let (a, rest, s, q) = first_id-some (sort fewer (pick fds ms)) id e in
    let (m, least) =
      sort-head fewer (record { asym = fewer_asym; neg_trans = fewer_neg_trans }) (counts fds ms) a
        rest (ap (sort fewer) (sym (pick-counts fds ms d)) ∙ s) in
    let (known, held) = In-counts fds ms a m in
    subst (λ i. Any (λ fd. fd.0 ≡ i) fds × All (λ fd. machines_in i ms ≤ machines_in fd.0 ms) fds) q
      (
        known,
        rw (← held) (
            All-counts (λ i n. a.count ≤ n) fds ms
              (All-mono (λ b. fewer b a ≡ false) (λ b. a.count ≤ b.count) (counts fds ms)
                (not_fewer a) least)),
      )

no_first_id : (s : List Aggregation) → first_id s ≡ none → length s ≡ 0
unfolding first_id
no_first_id [] e = refl
no_first_id (a ∷ rest) e = cc

fewest_exists :
    (fd : String × Bool) (fds : FailureDomains) (ms : Machines)
    → DistinctDomains (fd ∷ fds)
    → pick_fewest (fd ∷ fds) ms ≢ none
unfolding pick_fewest
fewest_exists fd fds ms d e = omega (
  arith,
  no_first_id (sort fewer (counts (fd ∷ fds) ms))
      (ap (λ cs. first_id (sort fewer cs)) (sym (pick-counts (fd ∷ fds) ms d)) ∙ e),
  length-sort fewer (counts (fd ∷ fds) ms),
)

-- From distinct failure domains nothing is picked exactly when there are none.
pub pick_fewest-none :
    (fds : FailureDomains) (ms : Machines)
    → DistinctDomains fds
    → (pick_fewest fds ms ≡ none) ↔ (fds ≡ [])
unfolding pick_fewest pick first_id sort
pick_fewest-none [] ms d = (λ e. refl, λ e. refl)
pick_fewest-none (fd ∷ fds) ms d = (λ e. absurd (fewest_exists fd fds ms d e), λ e. absurd (cc e))
