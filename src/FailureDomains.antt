-- ===== src/FailureDomains.antt =====
-- util/failuredomains: choosing a failure domain by the number of machines in it. A map of failure
-- domains is the list of its entries in the order of an iteration: an id, and whether the domain
-- takes control planes.
pub mod Counting
pub mod Fewest
pub mod Most
use cluster_api_provider_ocn.Base.{
  ℕ, suc, ◌+◌, String, Bool, true, false, not, Option, none, some, List, [], ◌∷◌, ◌==◌, ltb,
  if◌then◌else◌, any, sort, map,
}
use cluster_api_provider_ocn.Machines.{Machine}
use cluster_api_provider_ocn.Machines.Collection.{Machines}

abbrev pub FailureDomains : Type 0
FailureDomains = List (String × Bool)

-- failureDomainAggregation
pub record Aggregation : Type 0 where
  pub id : String
  pub count : ℕ

-- Less
unfoldable pub fewer : Aggregation → Aggregation → Bool
fewer i j = ltb i.count j.count

-- sort.Reverse
unfoldable pub more : Aggregation → Aggregation → Bool
more i j = fewer j i

-- _, ok := failureDomains[id]
unfoldable pub is_known : FailureDomains → String → Bool
is_known fds id = any (λ fd. fd.0 == id) fds

-- counters[fd] = 0
unfoldable pub initial_counters : FailureDomains → List Aggregation
initial_counters = map (λ fd. record { id = fd.0; count = 0 })

-- counters[id]++
unfoldable pub increment : String → List Aggregation → List Aggregation
increment id [] = []
increment id (a ∷ rest) =
    let others = increment id rest in
    if a.id == id then record a { count = a.count + 1 } ∷ rest else a ∷ others

-- The body of the loop over the machines: one without a domain, or in an unknown one, is skipped.
unfoldable pub count_machine : FailureDomains → Machine → List Aggregation → List Aggregation
count_machine fds m counters = elim m.failure_domain [
  | none ↦ counters
  | some id ↦ if not (is_known fds id) then counters else increment id counters
]

unfoldable pub count_machines : FailureDomains → Machines → List Aggregation → List Aggregation
count_machines fds [] counters = counters
count_machines fds (m ∷ ms) counters = count_machines fds ms (count_machine fds m counters)

unfoldable pub pick : FailureDomains → Machines → List Aggregation
pick [] ms = []
pick (fd ∷ fds) ms = count_machines (fd ∷ fds) ms (initial_counters (fd ∷ fds))

unfoldable pub first_id : List Aggregation → Option String
first_id [] = none
first_id (a ∷ rest) = some a.id

unfoldable pub pick_fewest : FailureDomains → Machines → Option String
pick_fewest fds ms = first_id (sort fewer (pick fds ms))

unfoldable pub order_descending : FailureDomains → Machines → List Aggregation
order_descending fds ms = sort more (pick fds ms)

-- The inner loop of PickMost.
unfoldable pub has_machine_in : String → Machines → Bool
has_machine_in id = any (λ m. elim m.failure_domain [ none ↦ false | some d ↦ d == id ])

unfoldable pub first_with_machine : List Aggregation → Machines → Option String
first_with_machine [] ms = none
first_with_machine (fd ∷ fds) ms =
    let rest = first_with_machine fds ms in if has_machine_in fd.id ms then some fd.id else rest

unfoldable pub pick_most : FailureDomains → Machines → Machines → Option String
pick_most fds group_machines ms = first_with_machine (order_descending fds group_machines) ms
