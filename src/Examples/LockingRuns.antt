-- ===== src/Examples/LockingRuns.antt =====
-- The theorems of the lock at two machines, one of which takes it over from the other.
use cluster_api_provider_ocn.Base.{
  arith, inr, none, true, ℕ, zero, suc, String, ◌≡◌, refl, sym, ◌⊎◌, some, List, [], ◌∷◌,
  if◌then◌else◌,
}
use cluster_api_provider_ocn.Locking.{
  JsonApi, Store, Answer, answered, lost, locked, refused, released, idle, getting, exists_machine,
  lock, unlock, call, after_get, held_by, prepared, create, delivered, delete_next, remove,
  performed,
}
use cluster_api_provider_ocn.Locking.Interleaving.{
  System, Reach, start, later, call_lock, vanish, advance, init, update, Owner,
}
use cluster_api_provider_ocn.Locking.Exclusion.{mutual_exclusion}
use cluster_api_provider_ocn.Locking.Run.{abstract_lock, owner, lock_total, lock-refines}

-- A name is its own text.
abbrev plain_json : JsonApi
plain_json = record {
  marshal = λ n. some n;
  unmarshal = λ s. some s;
  unmarshal-marshal = λ n s e. sym e;
}

abbrev two_machines : List String
two_machines = "cp-1" ∷ "cp-2" ∷ []

abbrev advanced : String → System → System
advanced n s = record s {
  store = (call plain_json answered n s.store (s.pc n)).0;
  pc = update s.pc n (call plain_json answered n s.store (s.pc n)).1;
}

abbrev called : String → System → System
called n s = record s { pc = update s.pc n getting }

-- cp-1 gets the lock and is deleted.
abbrev orphaned : System
orphaned =
    record (advanced "cp-1" (advanced "cp-1" (called "cp-1" (init plain_json two_machines)))) {
      store = record { config_map = some "cp-1"; machines = "cp-2" ∷ [] };
    }

-- cp-2 finds the lock of a machine that is gone, removes it, calls again and gets it.
abbrev stolen : System
stolen = advanced "cp-2" (
    advanced "cp-2" (
      called "cp-2" (
        advanced "cp-2"
          (advanced "cp-2" (advanced "cp-2" (advanced "cp-2" (called "cp-2" orphaned)))))))

still_two :
    (h : String) → exists_machine ("cp-2" ∷ []) h ≡ true → exists_machine two_machines h ≡ true
unfolding exists_machine
still_two h e = ground (arith, e)

orphaned-Reach : Reach plain_json two_machines orphaned
unfolding call after_get held_by prepared create delivered exists_machine
orphaned-Reach =
    later
      (later (later (later start (call_lock "cp-1" refl refl)) (advance answered "cp-1" tt))
        (advance answered "cp-1" tt))
      (vanish ("cp-2" ∷ []) still_two)

stolen-Reach : Reach plain_json two_machines stolen
unfolding call after_get held_by prepared create delete_next remove performed delivered
    exists_machine
stolen-Reach =
    let found =
      later (later orphaned-Reach (call_lock "cp-2" refl refl)) (advance answered "cp-2" tt) in
    let freed =
      later (later (later found (advance answered "cp-2" tt)) (advance answered "cp-2" tt))
        (advance answered "cp-2" (inr ("cp-1", refl, refl))) in
    later (later (later freed (call_lock "cp-2" refl refl)) (advance answered "cp-2" tt))
      (advance answered "cp-2" tt)

mutual_exclusion_example : ◌≡◌ {A = String} "cp-2" "cp-2"
unfolding call after_get held_by prepared create delete_next remove performed delivered
    exists_machine
mutual_exclusion_example =
    mutual_exclusion plain_json stolen-Reach refl "cp-2" "cp-2" refl refl refl refl

-- cp-3 does not exist.
abbrev held : Store
held = record { config_map = some "cp-3"; machines = two_machines }

-- The lost answer of the first call.
abbrev first_lost : ℕ → Answer
first_lost zero = lost
first_lost (suc n) = answered

lock_total_example :
    ((((lock plain_json first_lost "cp-1" held).1 ≡ locked)
        × Owner plain_json "cp-1" (lock plain_json first_lost "cp-1" held).0)
      ⊎ ((lock plain_json first_lost "cp-1" held).1 ≡ refused))
    × ((((unlock plain_json first_lost "cp-1" held).1 ≡ released)
          × ((unlock plain_json first_lost "cp-1" held).0.config_map ≡ none))
        ⊎ ((unlock plain_json first_lost "cp-1" held).1 ≡ idle))
lock_total_example = lock_total plain_json first_lost "cp-1" held

lock-refines_example :
    (owner plain_json (lock plain_json (λ i. answered) "cp-1" held).0
      ≡ (abstract_lock (exists_machine two_machines) "cp-1" (owner plain_json held)).0)
    × ((lock plain_json (λ i. answered) "cp-1" held).1 ≡ (
        if (abstract_lock (exists_machine two_machines) "cp-1" (owner plain_json held)).1
        then locked
        else refused))
lock-refines_example = lock-refines plain_json "cp-1" "cp-1" held refl (λ x e. (x, refl))
