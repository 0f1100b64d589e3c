-- ===== src/FailureDomains/Counting.antt =====
-- The counters of pick: one for each failure domain, the number of machines in it.
use cluster_api_provider_ocn.Base.{
  ℕ, suc, ◌+◌, String, ◌≡◌, refl, ap, ◌∙◌, sym, false, none, some, List, [], ◌∷◌, ◌==◌, eq_iff,
  eq_refl, if◌then◌else◌, any, arith, All, All-mono, inl, inr, Bool-cases, Option-cases, any-false,
}
use cluster_api_provider_ocn.Machines.{Machine}
use cluster_api_provider_ocn.Machines.Collection.{Machines}
use cluster_api_provider_ocn.FailureDomains.{
  FailureDomains, Aggregation, is_known, initial_counters, increment, count_machine, count_machines,
  pick,
}

-- The number of machines in a failure domain.
abbrev pub machines_in : String → Machines → ℕ
machines_in id [] = 0
machines_in id (m ∷ ms) =
    let rest = machines_in id ms in
    elim m.failure_domain [ none ↦ rest | some d ↦ if d == id then suc rest else rest ]

-- A map has each key once.
abbrev pub DistinctIds : List Aggregation → Type 0
DistinctIds [] = Unit
DistinctIds (a ∷ rest) = All (λ b. (b.id == a.id) ≡ false) rest × DistinctIds rest

abbrev pub DistinctDomains : FailureDomains → Type 0
DistinctDomains [] = Unit
DistinctDomains (a ∷ rest) = All (λ b. (b.0 == a.0) ≡ false) rest × DistinctDomains rest

-- The counters with the number of machines of each domain added.
abbrev add_counts : Machines → List Aggregation → List Aggregation
add_counts ms [] = []
add_counts ms (a ∷ rest) = record a { count = a.count + machines_in a.id ms } ∷ add_counts ms rest

-- The specification: each domain with the number of its machines.
abbrev pub counts : FailureDomains → Machines → List Aggregation
counts [] ms = []
counts (fd ∷ fds) ms = record { id = fd.0; count = machines_in fd.0 ms } ∷ counts fds ms

abbrev bump_all : String → List Aggregation → List Aggregation
bump_all id [] = []
bump_all id (a ∷ rest) =
    (if id == a.id then record a { count = a.count + 1 } else a) ∷ bump_all id rest

abbrev Absent : String → Aggregation → Type 0
Absent id a = (a.id == id) ≡ false

bump_all-Absent : (id : String) (cs : List Aggregation) → All (Absent id) cs → bump_all id cs ≡ cs
bump_all-Absent id [] h = refl
bump_all-Absent id (a ∷ rest) h =
    ground (arith, bump_all-Absent id rest, eq_iff id a.id, eq_iff a.id id)

increment-bump_all :
    (id : String) (cs : List Aggregation) → DistinctIds cs → increment id cs ≡ bump_all id cs
unfolding increment
increment-bump_all id [] d = refl
increment-bump_all id (a ∷ rest) d = elim (Bool-cases (a.id == id)) [
  | inl e ↦ ground (
    arith,
    eq_iff a.id id,
    eq_refl id,
    bump_all-Absent id rest (
        All-mono (λ b. (b.id == a.id) ≡ false) (Absent id) rest
          (λ b h. rw (← (eq_iff a.id id).0 e) h) d.0),
  )
  | inr e ↦ ground (arith, eq_iff id a.id, eq_iff a.id id, increment-bump_all id rest d.1)
]

add_counts-nil : (cs : List Aggregation) → add_counts [] cs ≡ cs
add_counts-nil [] = refl
add_counts-nil (a ∷ rest) = ground (arith, add_counts-nil rest)

add_counts-cons_none :
    (m : Machine) (ms : Machines) (cs : List Aggregation)
    → m.failure_domain ≡ none
    → add_counts (m ∷ ms) cs ≡ add_counts ms cs
add_counts-cons_none m ms [] e = refl
add_counts-cons_none m ms (a ∷ rest) e = ground (arith, add_counts-cons_none m ms rest)

add_counts-cons_some :
    (m : Machine) (ms : Machines) (cs : List Aggregation) (d : String)
    → m.failure_domain ≡ some d
    → add_counts (m ∷ ms) cs ≡ add_counts ms (bump_all d cs)
add_counts-cons_some m ms [] d e = refl
add_counts-cons_some m ms (a ∷ rest) d e = ground (arith, add_counts-cons_some m ms rest d)

Absent-bump_all :
    (d id : String) (cs : List Aggregation) → All (Absent id) cs → All (Absent id) (bump_all d cs)
Absent-bump_all d id [] h = tt
Absent-bump_all d id (a ∷ rest) h = (ground arith, Absent-bump_all d id rest h.1)

id_bumped :
    (d : String) (a : Aggregation)
    → (if d == a.id then record a { count = a.count + 1 } else a).id ≡ a.id
id_bumped d a = ground arith

DistinctIds-bump_all :
    (d : String) (cs : List Aggregation) → DistinctIds cs → DistinctIds (bump_all d cs)
DistinctIds-bump_all d [] h = tt
DistinctIds-bump_all d (a ∷ rest) h =
    (rw (id_bumped d a) (Absent-bump_all d a.id rest h.0), DistinctIds-bump_all d rest h.1)

-- The counters are those of the failure domains.
abbrev Covers : FailureDomains → List Aggregation → Type 0
Covers fds cs = (id : String) → is_known fds id ≡ any (λ a. a.id == id) cs

any-bump_all :
    (d id : String) (cs : List Aggregation)
    → any (λ a. a.id == id) (bump_all d cs) ≡ any (λ a. a.id == id) cs
any-bump_all d id [] = refl
any-bump_all d id (a ∷ rest) = ground (arith, any-bump_all d id rest)

count_machine-bump_all :
    (fds : FailureDomains) (m : Machine) (cs : List Aggregation) (id : String)
    → m.failure_domain ≡ some id
    → DistinctIds cs
    → Covers fds cs
    → count_machine fds m cs ≡ bump_all id cs
unfolding count_machine
count_machine-bump_all fds m cs id e d c = elim (Bool-cases (is_known fds id)) [
  | inl k ↦ ground (arith, increment-bump_all id cs d)
  | inr k ↦ ground (arith, bump_all-Absent id cs (any-false (λ a. a.id == id) cs (sym (c id) ∙ k)))
]

count_machine-none :
    (fds : FailureDomains) (m : Machine) (cs : List Aggregation)
    → m.failure_domain ≡ none
    → count_machine fds m cs ≡ cs
unfolding count_machine
count_machine-none fds m cs e = ground arith

count_machines-add_counts :
    (fds : FailureDomains) (ms : Machines) (cs : List Aggregation)
    → DistinctIds cs
    → Covers fds cs
    → count_machines fds ms cs ≡ add_counts ms cs
unfolding count_machines
count_machines-add_counts fds [] cs d c = sym (add_counts-nil cs)
count_machines-add_counts fds (m ∷ ms) cs d c = elim (Option-cases m.failure_domain) [
  | inl e ↦
      ap (count_machines fds ms) (count_machine-none fds m cs e)
      ∙ count_machines-add_counts fds ms cs d c
      ∙ sym (add_counts-cons_none m ms cs e)
  | inr (id, e) ↦
      ap (count_machines fds ms) (count_machine-bump_all fds m cs id e d c)
      ∙ count_machines-add_counts fds ms (bump_all id cs) (DistinctIds-bump_all id cs d)
          (λ i. c i ∙ sym (any-bump_all id i cs))
      ∙ sym (add_counts-cons_some m ms cs id e)
]

add_counts-initial_counters :
    (fds : FailureDomains) (ms : Machines) → add_counts ms (initial_counters fds) ≡ counts fds ms
unfolding initial_counters
add_counts-initial_counters [] ms = refl
add_counts-initial_counters (fd ∷ fds) ms = ground (arith, add_counts-initial_counters fds ms)

Absent-initial_counters :
    (id : String) (fds : FailureDomains)
    → All (λ b. (b.0 == id) ≡ false) fds
    → All (Absent id) (initial_counters fds)
unfolding initial_counters
Absent-initial_counters id [] h = tt
Absent-initial_counters id (fd ∷ fds) h = (h.0, Absent-initial_counters id fds h.1)

DistinctIds-initial_counters :
    (fds : FailureDomains) → DistinctDomains fds → DistinctIds (initial_counters fds)
unfolding initial_counters
DistinctIds-initial_counters [] d = tt
DistinctIds-initial_counters (fd ∷ fds) d =
    (Absent-initial_counters fd.0 fds d.0, DistinctIds-initial_counters fds d.1)

Covers-initial_counters : (fds : FailureDomains) → Covers fds (initial_counters fds)
unfolding initial_counters is_known
Covers-initial_counters [] id = refl
Covers-initial_counters (fd ∷ fds) id = ground (arith, Covers-initial_counters fds id)

-- For distinct failure domains pick counts the machines of each; machines elsewhere do not matter.
pub pick-counts :
    (fds : FailureDomains) (ms : Machines) → DistinctDomains fds → pick fds ms ≡ counts fds ms
unfolding pick
pick-counts [] ms d = refl
pick-counts (fd ∷ fds) ms d =
    count_machines-add_counts (fd ∷ fds) ms (initial_counters (fd ∷ fds))
      (DistinctIds-initial_counters (fd ∷ fds) d) (Covers-initial_counters (fd ∷ fds))
    ∙ add_counts-initial_counters (fd ∷ fds) ms
