-- ===== src/Locking/Exclusion.antt =====
-- Mutual exclusion of the lock in the states that the step relation reaches.
use cluster_api_provider_ocn.Base.{
  String, ◌≡◌, subst, true, false, List, ◌==◌, Bool-cases, inl, inr, eq_iff,
}
use cluster_api_provider_ocn.Locking.{
  JsonApi, Store, Pc, idle, getting, creating, locked, refused, finding, stealing_get,
  stealing_delete, releasing_get, releasing_delete, released, exists_machine, call,
}
use cluster_api_provider_ocn.Locking.Interleaving.{
  System, update, inside, Step, call_lock, call_unlock, join_unlock, vanish, initialize, advance,
  Reach, start, later,
}
use cluster_api_provider_ocn.Locking.Standing.{
  Holds, Stands, Owner-unique, call-Stands, call-Owner, machines-call, Stands-mono,
}

module _ (json : JsonApi) where
  abbrev Inv : System → Type 0
  Inv s = s.initialized ≡ false → (j : String) → Stands json j s.store (s.pc j)

  update-Stands :
      (s : System) (t : Store) (n : String) (p : Pc)
      → Stands json n t p
      → ((j : String) → (n == j) ≡ false → Stands json j t (s.pc j))
      → (j : String) → Stands json j t (update s.pc n p j)
  update-Stands s t n p h k j = elim (Bool-cases (n == j)) [
    | inl e ↦ rw e (subst (λ z. Stands json z t p) ((eq_iff n j).0 e) h)
    | inr e ↦ rw e (k j e)
  ]

  Step-Inv : {s t : System} → Step json s t → Inv s → Inv t
  Step-Inv {s} (call_lock n m o) i = λ f. update-Stands s s.store n getting tt (λ j d. i f j)
  Step-Inv {s} (call_unlock n e) i = λ f.
      update-Stands s s.store n releasing_get (subst (Stands json n s.store) e (i f n))
        (λ j d. i f j)
  Step-Inv {s} (join_unlock n e o) i = λ f. cc (e, f)
  Step-Inv {s} (vanish left m) i = λ f j.
      Stands-mono json j s.store (record { config_map = s.store.config_map; machines = left })
        (s.pc j) m (λ e o. o) (i f j)
  Step-Inv {s} initialize i = λ f. cc f
  Step-Inv {s} (advance a n u) i = λ f.
      let p = s.pc n in
      let t = (call json a n s.store p).0 in
      update-Stands s t n (call json a n s.store p).1 (call-Stands json a n s.store p (i f n))
        (λ j d.
          Stands-mono json j s.store t (s.pc j) (λ h e. rw (← machines-call json a n s.store p) e)
            (call-Owner json a n j s.store p (i f n) u d) (i f j))

  Reach-Inv : {ms : List String} {s : System} → Reach json ms s → Inv s
  Reach-Inv start = λ f j. tt
  Reach-Inv (later r st) = Step-Inv st (Reach-Inv r)

  inside-Holds :
      (n : String) (s : Store) (p : Pc) → inside p ≡ true → Stands json n s p → Holds json n s
  inside-Holds n s idle e h = cc e
  inside-Holds n s refused e h = cc e
  inside-Holds n s released e h = cc e
  inside-Holds n s getting e h = cc e
  inside-Holds n s (finding x) e h = cc e
  inside-Holds n s (creating x) e h = cc e
  inside-Holds n s (stealing_get x) e h = cc e
  inside-Holds n s (stealing_delete x) e h = cc e
  inside-Holds n s locked e h = h
  inside-Holds n s releasing_get e h = h
  inside-Holds n s releasing_delete e h = h

  -- Until the control plane is initialized, no two machines that both exist are between Lock's answer
  -- true and the end of Unlock together, however the calls of the API server interleave, whichever of
  -- them fail or lose their answers, and whichever machines cease to exist, on the condition that
  -- every Delete meets the config map of the holder that was not found, or of the machine that unlocks
  -- by itself, or none, and that no machine comes back under its name.
  pub mutual_exclusion :
      {ms : List String} {s : System}
      → Reach json ms s
      → s.initialized ≡ false
      → (i j : String) → exists_machine s.store.machines i ≡ true
      → exists_machine s.store.machines j ≡ true
      → inside (s.pc i) ≡ true
      → inside (s.pc j) ≡ true
      → i ≡ j
  mutual_exclusion {ms} {s} r f i j m k p q =
      let inv = Reach-Inv r f in
      Owner-unique json i j s.store (inside-Holds i s.store (s.pc i) p (inv i) m)
        (inside-Holds j s.store (s.pc j) q (inv j) k)
