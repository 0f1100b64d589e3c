-- ===== src/Machines/Collection/Filtering.antt =====
-- The filters and set operations of a collection against plain list filters.
use mathlib.Core.List.{append-nil, append_assoc}
use cluster_api_provider_ocn.Base.{
  String, ◌≡◌, refl, ◌∙◌, sym, Bool, false, not, Option, none, some, List, [], ◌∷◌, ◌++◌, ◌==◌,
  eq_iff, if◌then◌else◌, filter, arith, All, All-mono, All-zip, All-of_In, filter_mono, Bool-cases,
  inl, inr, All-append, All-filter,
}
use cluster_api_provider_ocn.Machines.{Machine, Func, and_filter, or_filter}
use cluster_api_provider_ocn.Machines.Collection.{
  Machines, put_machine, insert, insert_filtered, new_filtered_machine_collection, filter_machines,
  any_filter, difference, not_found_in, has_name,
}

abbrev pub Named : Machine → Machine → Type 0
Named m n = (n.name == m.name) ≡ false

abbrev Unnamed : Machine → Machine → Type 0
Unnamed m n = (n.name == m.name) ≡ false

-- The keys of a map are distinct.
abbrev pub DistinctNames : Machines → Type 0
DistinctNames [] = Unit
DistinctNames (m ∷ ms) = All (Named m) ms × DistinctNames ms

-- A machine under a new name goes to the end of the list.
put_machine-append :
    (m : Machine) (ms : Machines)
    → All (λ n. (n.name == m.name) ≡ false) ms
    → put_machine m ms ≡ ms ++ (m ∷ [])
unfolding put_machine
put_machine-append m [] h = refl
put_machine-append m (n ∷ ns) h = rw (h.0, put_machine-append m ns h.1)

Named-sym : (m n : Machine) → Named m n → Named n m
Named-sym m n h = ground (arith, eq_iff m.name n.name, eq_iff n.name m.name)

insert_filtered-append :
    (f : Func) (ms s : Machines)
    → DistinctNames ms
    → All (λ m. All (λ n. (n.name == m.name) ≡ false) s) ms
    → insert_filtered f ms s ≡ s ++ filter (λ m. f (some m)) ms
unfolding insert_filtered insert
insert_filtered-append f [] s d h = sym (append-nil s)
insert_filtered-append f (m ∷ ms) s d h = elim (Bool-cases (f (some m))) [
  | inl e ↦
      rw (e, put_machine-append m s h.0)
        (insert_filtered-append f ms (s ++ (m ∷ [])) d.1 (
            All-zip (Named m) (λ x. All (Unnamed x) s) (λ x. All (Unnamed x) (s ++ (m ∷ []))) ms
              (λ x new old. All-append (Unnamed x) s (m ∷ []) old (Named-sym m x new, tt)) d.0 h.1)
          ∙ append_assoc s (m ∷ []) (filter (λ x. f (some x)) ms))
  | inr e ↦ rw e (insert_filtered-append f ms s d.1 h.1)
]

-- Filtering a collection of distinct names is filtering its machines, each of which stays once.
pub filter_machines-filter :
    (ms : Machines) (fs : List Func)
    → DistinctNames ms
    → filter_machines ms fs ≡ filter (λ m. and_filter fs (some m)) ms
unfolding filter_machines new_filtered_machine_collection
filter_machines-filter ms fs d =
    insert_filtered-append (and_filter fs) ms [] d (All-of_In (λ x. Unit) ms (λ x m. tt))

-- Filtering by any of the filters keeps the machines that pass one, each once, if names are distinct.
pub any_filter-filter :
    (ms : Machines) (fs : List Func)
    → DistinctNames ms
    → any_filter ms fs ≡ filter (λ m. or_filter fs (some m)) ms
unfolding any_filter new_filtered_machine_collection
any_filter-filter ms fs d =
    insert_filtered-append (or_filter fs) ms [] d (All-of_In (λ x. Unit) ms (λ x m. tt))

All-Named-put_machine :
    (x m : Machine) (ms : Machines)
    → Named x m
    → All (Named x) ms
    → All (Named x) (put_machine m ms)
unfolding put_machine
All-Named-put_machine x m [] h a = (h, tt)
All-Named-put_machine x m (n ∷ ns) h a = elim (Bool-cases (n.name == m.name)) [
  | inl e ↦ rw e (h, a.1)
  | inr e ↦ rw e (a.0, All-Named-put_machine x m ns h a.1)
]

DistinctNames-put_machine :
    (m : Machine) (ms : Machines) → DistinctNames ms → DistinctNames (put_machine m ms)
unfolding put_machine
DistinctNames-put_machine m [] d = (tt, tt)
DistinctNames-put_machine m (n ∷ ns) d = elim (Bool-cases (n.name == m.name)) [
  | inl e ↦
      rw e (All-mono (Named n) (Named m) ns (λ x h. rw (← (eq_iff n.name m.name).0 e) h) d.0, d.1)
  | inr e ↦
      rw e (All-Named-put_machine n m ns (Named-sym m n e) d.0, DistinctNames-put_machine m ns d.1)
]

-- Whatever is inserted in a collection of distinct names, they stay distinct.
pub insert-DistinctNames :
    (ms : List (Option Machine)) (s : Machines) → DistinctNames s → DistinctNames (insert ms s)
unfolding insert
insert-DistinctNames [] s d = d
insert-DistinctNames (none ∷ ms) s d = insert-DistinctNames ms s d
insert-DistinctNames (some m ∷ ms) s d =
    insert-DistinctNames ms (put_machine m s) (DistinctNames-put_machine m s d)

pub filter-DistinctNames :
    (p : Machine → Bool) (ms : Machines) → DistinctNames ms → DistinctNames (filter p ms)
filter-DistinctNames p [] d = tt
filter-DistinctNames p (m ∷ ms) d = elim (Bool-cases (p m)) [
  | inl e ↦ rw e (All-filter (Named m) p ms d.0, filter-DistinctNames p ms d.1)
  | inr e ↦ rw e (filter-DistinctNames p ms d.1)
]

-- The machine that the map holds under a name.
abbrev pub lookup : String → Machines → Option Machine
lookup name [] = none
lookup name (n ∷ ns) = let rest = lookup name ns in if n.name == name then some n else rest

-- After a machine is put in, its name finds it, and every other name finds what it found.
pub lookup-put_machine :
    (name : String) (m : Machine) (ms : Machines)
    → lookup name (put_machine m ms) ≡ (if m.name == name then some m else lookup name ms)
unfolding put_machine
lookup-put_machine name m [] = refl
lookup-put_machine name m (n ∷ ns) = ground (
  arith,
  lookup-put_machine name m ns,
  eq_iff n.name m.name,
  eq_iff n.name name,
  eq_iff m.name name,
)

not_found_in_single :
    (others : Machines) (m : Machine)
    → and_filter (not_found_in others ∷ []) (some m) ≡ not (has_name others m.name)
unfolding and_filter not_found_in
not_found_in_single others m = ground arith

-- From a collection of distinct names Difference keeps exactly the machines whose names the other
-- collection lacks.
pub difference-filter :
    (ms others : Machines)
    → DistinctNames ms
    → difference ms others ≡ filter (λ m. not (has_name others m.name)) ms
unfolding difference
difference-filter ms others d =
    filter_machines-filter ms (not_found_in others ∷ []) d
    ∙ filter_mono (λ m. and_filter (not_found_in others ∷ []) (some m))
        (λ m. not (has_name others m.name)) ms (not_found_in_single others)
