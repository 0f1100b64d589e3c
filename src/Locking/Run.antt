-- ===== src/Locking/Run.antt =====
-- Lock and Unlock run to their end, against a lock that has an owner or none.
use cluster_api_provider_ocn.Base.{
  ℕ, zero, suc, ◌≤◌, ◌-◌, String, ◌≡◌, refl, Bool, true, false, Option, none, some, ◌==◌,
  if◌then◌else◌, ◌∙◌, subst, inl, inr, ◌⊎◌, arith, Option-cases,
}
use cluster_api_provider_ocn.Locking.{
  JsonApi, Store, Answer, answered, Pc, idle, getting, creating, locked, refused, finding,
  stealing_get, stealing_delete, releasing_get, releasing_delete, released, exists_machine,
  delivered, performed, held_by, prepared, after_get, create, delete_next, remove, call, run, lock,
  unlock,
}
use cluster_api_provider_ocn.Locking.Interleaving.{Owner}
use cluster_api_provider_ocn.Locking.Alone.{Alone, run-Alone}

-- How many calls a machine makes at most before Lock or Unlock returns.
abbrev calls_left : Pc → ℕ
calls_left idle = 0
calls_left locked = 0
calls_left refused = 0
calls_left released = 0
calls_left getting = 4
calls_left (finding h) = 3
calls_left (creating x) = 1
calls_left (stealing_get h) = 2
calls_left (stealing_delete h) = 1
calls_left releasing_get = 2
calls_left releasing_delete = 1

-- Whether the machine is in Lock, rather than in Unlock by itself.
abbrev in_lock : Pc → Bool
in_lock idle = false
in_lock locked = true
in_lock refused = true
in_lock released = false
in_lock getting = true
in_lock (finding h) = true
in_lock (creating x) = true
in_lock (stealing_get h) = true
in_lock (stealing_delete h) = true
in_lock releasing_get = false
in_lock releasing_delete = false

-- The lock as its callers think of it: who has it, and whether a call gets it.
abbrev pub abstract_lock : (String → Bool) → String → Option String → Option String × Bool
abstract_lock exists n none = (some n, true)
abstract_lock exists n (some h) =
    if h == n then (some h, true) else if exists h then (some h, false) else (none, false)

module _ (json : JsonApi) where
  abbrev pub owner : Store → Option String
  owner s = elim s.config_map [ none ↦ none | some x ↦ json.unmarshal x ]

  held_by_left :
      (n : String) (o : Option String)
      → (calls_left (held_by json n o) ≤ 3) × (in_lock (held_by json n o) ≡ true)
  unfolding held_by
  held_by_left n none = (omega arith, refl)
  held_by_left n (some h) = ground arith

  after_get_left :
      (n : String) (o : Option String)
      → (calls_left (after_get json n o) ≤ 3) × (in_lock (after_get json n o) ≡ true)
  unfolding after_get prepared
  after_get_left n none = ground arith
  after_get_left n (some x) = held_by_left n (json.unmarshal x)

  call_left :
      (a : Answer) (n : String) (s : Store) (p : Pc)
      → (calls_left (call json a n s p).1 ≤ calls_left p - 1)
        × (in_lock (call json a n s p).1 ≡ in_lock p)
  unfolding call create delete_next
  call_left a n s idle = (omega arith, refl)
  call_left a n s locked = (omega arith, refl)
  call_left a n s refused = (omega arith, refl)
  call_left a n s released = (omega arith, refl)
  call_left a n s getting = ground (arith, after_get_left n s.config_map)
  call_left a n s (finding h) = ground arith
  call_left a n s (creating x) = ground arith
  call_left a n s (stealing_get h) = ground arith
  call_left a n s (stealing_delete h) = ground arith
  call_left a n s releasing_get = ground arith
  call_left a n s releasing_delete = ground arith

  run_left :
      (k : ℕ) (answers : ℕ → Answer) (n : String) (s : Store) (p : Pc)
      → calls_left p ≤ k
      → (calls_left (run json k answers n s p).1 ≡ 0)
        × (in_lock (run json k answers n s p).1 ≡ in_lock p)
  unfolding run
  run_left zero answers n s p h = (omega arith, refl)
  run_left (suc k) answers n s p h =
      let (less, same) = call_left (answers 0) n s p in
      let (done, kept) =
        run_left k (λ i. answers (suc i)) n (call json (answers 0) n s p).0
          (call json (answers 0) n s p).1 (omega (arith, less, h)) in
      (done, kept ∙ same)

  settled_in_lock : (p : Pc) → calls_left p ≡ 0 → in_lock p ≡ true → (p ≡ locked) ⊎ (p ≡ refused)
  settled_in_lock locked d e = inl refl
  settled_in_lock refused d e = inr refl
  settled_in_lock idle d e = cc e
  settled_in_lock released d e = cc e
  settled_in_lock getting d e = absurd (omega (arith, d))
  settled_in_lock (finding h) d e = absurd (omega (arith, d))
  settled_in_lock (creating x) d e = absurd (omega (arith, d))
  settled_in_lock (stealing_get h) d e = absurd (omega (arith, d))
  settled_in_lock (stealing_delete h) d e = absurd (omega (arith, d))
  settled_in_lock releasing_get d e = cc e
  settled_in_lock releasing_delete d e = cc e

  settled_in_unlock : (p : Pc) → calls_left p ≡ 0 → in_lock p ≡ false → (p ≡ released) ⊎ (p ≡ idle)
  settled_in_unlock released d e = inl refl
  settled_in_unlock idle d e = inr refl
  settled_in_unlock locked d e = cc e
  settled_in_unlock refused d e = cc e
  settled_in_unlock getting d e = cc e
  settled_in_unlock (finding h) d e = cc e
  settled_in_unlock (creating x) d e = cc e
  settled_in_unlock (stealing_get h) d e = cc e
  settled_in_unlock (stealing_delete h) d e = cc e
  settled_in_unlock releasing_get d e = absurd (omega (arith, d))
  settled_in_unlock releasing_delete d e = absurd (omega (arith, d))

  -- With no other machine in between, Lock and Unlock end within four and two calls of the API
  -- server, whatever it answers. Lock ends without the lock, or with it, and then the config map is
  -- there and names the machine; Unlock ends with an error, or having released the lock, and then
  -- there is no config map.
  pub lock_total :
      (answers : ℕ → Answer) (n : String) (s : Store)
      → ((((lock json answers n s).1 ≡ locked) × Owner json n (lock json answers n s).0)
          ⊎ ((lock json answers n s).1 ≡ refused))
        × ((((unlock json answers n s).1 ≡ released)
              × ((unlock json answers n s).0.config_map ≡ none))
            ⊎ ((unlock json answers n s).1 ≡ idle))
  unfolding lock unlock
  lock_total answers n s =
      let (d, e) = run_left 4 answers n s getting (omega arith) in
      let (d', e') = run_left 2 answers n s releasing_get (omega arith) in
      let alone = run-Alone json 4 answers n s getting tt in
      let alone' = run-Alone json 2 answers n s releasing_get tt in
      (
        elim (settled_in_lock _ d e) [
          | inl q ↦ inl (q, subst (Alone json n (run json 4 answers n s getting).0) q alone)
          | inr q ↦ inr q
        ],
        elim (settled_in_unlock _ d' e') [
          | inl q ↦ inl (q, subst (Alone json n (run json 2 answers n s releasing_get).0) q alone')
          | inr q ↦ inr q
        ],
      )

  -- While the API server answers every call, the config map can be read, and no other machine is in
  -- between, Lock does what it does on an owner or none: it takes a free lock, keeps its own, leaves
  -- one whose owner exists, and frees one whose owner is gone without taking it.
  pub lock-refines :
      (n y : String) (s : Store)
      → json.marshal n ≡ some y
      → ((x : String) → s.config_map ≡ some x → (h : String) × (json.unmarshal x ≡ some h))
      → (owner (lock json (λ i. answered) n s).0
          ≡ (abstract_lock (exists_machine s.machines) n (owner s)).0)
        × ((lock json (λ i. answered) n s).1 ≡ (
            if (abstract_lock (exists_machine s.machines) n (owner s)).1 then locked else refused))
  unfolding lock run call after_get held_by prepared create delete_next remove delivered performed
  lock-refines n y s m readable = elim (Option-cases s.config_map) [
    | inl e ↦ ground (arith, m, e, json.unmarshal-marshal n y)
    | inr (x, e) ↦ (let (h, u) = readable x e in ground (arith, m, e, u))
  ]
