-- ===== src/Machines/Collection.antt =====
-- util/collections/machine_collection.go: building and filtering sets of machines.
pub mod Filtering
use cluster_api_provider_ocn.Base.{
  ℕ, String, Bool, true, false, not, ◌&&◌, Option, none, some, List, [], ◌∷◌, ◌==◌, ltb,
  if◌then◌else◌, any, length, map, sort, str_lt,
}
use cluster_api_provider_ocn.Meta.{TimeApi}
use cluster_api_provider_ocn.Conditions.Defs.{Object}
use cluster_api_provider_ocn.Machines.{Machine, Func, and_filter, or_filter}

abbrev pub Machines : Type 0
Machines = List Machine

-- new_machines is New.
abbrev pub new_machines : Machines
new_machines = []

-- s[m.Name] = m
unfoldable pub put_machine : Machine → Machines → Machines
put_machine m [] = m ∷ []
put_machine m (n ∷ ns) =
    let rest = put_machine m ns in if n.name == m.name then m ∷ ns else n ∷ rest

-- Insert
unfoldable pub insert : List (Option Machine) → Machines → Machines
insert [] s = s
insert (none ∷ ms) s = insert ms s
insert (some m ∷ ms) s = insert ms (put_machine m s)

unfoldable pub from_machines : List (Option Machine) → Machines
from_machines machines = insert machines new_machines

-- The pointers of the items of a list are not nil.
unfoldable pub from_machine_list : List Machine → Machines
from_machine_list items = insert (map some items) new_machines

-- newFilteredMachineCollection, from the collection that its loop has built so far.
unfoldable pub insert_filtered : Func → List Machine → Machines → Machines
insert_filtered f [] s = s
insert_filtered f (m ∷ ms) s =
    insert_filtered f ms (if f (some m) then insert (some m ∷ []) s else s)

unfoldable pub new_filtered_machine_collection : Func → List Machine → Machines
new_filtered_machine_collection f machines = insert_filtered f machines new_machines

-- Filter
unfoldable pub filter_machines : Machines → List Func → Machines
filter_machines s filters = new_filtered_machine_collection (and_filter filters) s

unfoldable pub any_filter : Machines → List Func → Machines
any_filter s filters = new_filtered_machine_collection (or_filter filters) s

-- _, found := machines[m.Name]
unfoldable pub has_name : Machines → String → Bool
has_name ms name = any (λ n. n.name == name) ms

unfoldable pub not_found_in : Machines → Func
not_found_in machines none = false
not_found_in machines (some m) = not (has_name machines m.name)

unfoldable pub difference : Machines → Machines → Machines
difference s machines = filter_machines s (not_found_in machines ∷ [])

unfoldable pub names : Machines → List String
names = map (λ m. m.name)

-- ConditionGetters: the machines as their conditions are read.
unfoldable pub condition_getters : Machines → List Object
condition_getters = map (λ m. m.object)

module _ ⦃time : TimeApi⦄ where
  -- Less of machinesByCreationTimestamp.
  unfoldable pub by_creation_timestamp : Machine → Machine → Bool
  by_creation_timestamp i j =
      if time.equal (some i.creation_timestamp) (some j.creation_timestamp)
      then str_lt i.name j.name
      else time.before (some i.creation_timestamp) (some j.creation_timestamp)

  unfoldable pub sorted_by_creation_timestamp : Machines → List Machine
  sorted_by_creation_timestamp s = sort by_creation_timestamp s

  -- Indexing at 0 and at len - 1, on a list that is not empty.
  unfoldable pub first : List Machine → Option Machine
  first [] = none
  first (m ∷ ms) = some m

  unfoldable pub last : List Machine → Option Machine
  last [] = none
  last (m ∷ []) = some m
  last (m ∷ n ∷ ns) = last (n ∷ ns)

  unfoldable pub oldest : Machines → Option Machine
  oldest s = first (sorted_by_creation_timestamp s)

  unfoldable pub newest : Machines → Option Machine
  newest s = last (sorted_by_creation_timestamp s)
