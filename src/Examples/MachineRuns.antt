-- ===== src/Examples/MachineRuns.antt =====
-- The theorems of collections and failure domains at concrete machines.
use cluster_api_provider_ocn.Base.{
  ℕ, String, ◌≡◌, ◌≤◌, refl, true, false, none, some, List, [], ◌∷◌, All, Any, In, filter, not,
  Option, arith, if◌then◌else◌, ◌==◌, ◌↔◌,
}
use cluster_api_provider_ocn.Machines.Collection.Filtering.{DistinctNames}
use cluster_api_provider_ocn.FailureDomains.{pick, pick_fewest, pick_most, has_machine_in}
use cluster_api_provider_ocn.FailureDomains.Counting.{machines_in, counts, pick-counts}
use cluster_api_provider_ocn.FailureDomains.Fewest.{pick_fewest-least}
use cluster_api_provider_ocn.FailureDomains.Most.{pick_most-greatest}
use cluster_api_provider_ocn.Examples.MachineData.{three, domains}

abbrev pub three-distinct : DistinctNames three
three-distinct = ((refl, (refl, tt)), ((refl, tt), (tt, tt)))

pick-counts_example : pick domains three ≡ counts domains three
pick-counts_example = pick-counts domains three ((refl, tt), (tt, tt))

pick_fewest-least_example :
    Any (λ fd. fd.0 ≡ "west") domains
    × All (λ fd. machines_in "west" three ≤ machines_in fd.0 three) domains
unfolding pick_fewest cluster_api_provider_ocn.FailureDomains.first_id
    cluster_api_provider_ocn.Base.sort pick cluster_api_provider_ocn.FailureDomains.count_machines
    cluster_api_provider_ocn.FailureDomains.count_machine
    cluster_api_provider_ocn.FailureDomains.is_known
    cluster_api_provider_ocn.FailureDomains.increment
    cluster_api_provider_ocn.FailureDomains.initial_counters
    cluster_api_provider_ocn.FailureDomains.fewer
pick_fewest-least_example = pick_fewest-least domains three "west" ((refl, tt), (tt, tt)) refl

pick_most-greatest_example :
    Any (λ fd. fd.0 ≡ "east") domains
    × (has_machine_in "east" three ≡ true)
    × All
        (λ fd. has_machine_in fd.0 three ≡ true → machines_in fd.0 three ≤ machines_in "east" three)
        domains
unfolding pick_most cluster_api_provider_ocn.FailureDomains.first_with_machine
    cluster_api_provider_ocn.FailureDomains.order_descending cluster_api_provider_ocn.Base.sort pick
    cluster_api_provider_ocn.FailureDomains.count_machines
    cluster_api_provider_ocn.FailureDomains.count_machine
    cluster_api_provider_ocn.FailureDomains.is_known
    cluster_api_provider_ocn.FailureDomains.increment
    cluster_api_provider_ocn.FailureDomains.initial_counters
    cluster_api_provider_ocn.FailureDomains.more cluster_api_provider_ocn.FailureDomains.fewer
    has_machine_in
pick_most-greatest_example =
    pick_most-greatest three domains three "east" ((refl, tt), (tt, tt)) refl
