-- ===== src/Locking/Alone.antt =====
-- What a machine that calls alone knows of the lock, whatever the API server answers.
use cluster_api_provider_ocn.Base.{
  ℕ, zero, suc, String, ◌≡◌, refl, Bool, true, false, Option, none, some, ◌==◌, if◌then◌else◌, ◌∙◌,
  ap, eq_iff,
}
use cluster_api_provider_ocn.Locking.{
  JsonApi, Store, Answer, answered, failed, lost, Pc, idle, getting, creating, locked, refused,
  finding, stealing_get, stealing_delete, releasing_get, releasing_delete, released, exists_machine,
  delivered, performed, held_by, prepared, after_get, create, delete_next, remove, call, run,
}
use cluster_api_provider_ocn.Locking.Interleaving.{Owner}

module _ (json : JsonApi) where
  -- What holds of the store where the machine is the only one that calls.
  abbrev pub Alone : String → Store → Pc → Type 0
  Alone n s idle = Unit
  Alone n s getting = Unit
  Alone n s (creating x) = json.unmarshal x ≡ some n
  Alone n s locked = Owner json n s
  Alone n s refused = Unit
  Alone n s (finding h) = Unit
  Alone n s (stealing_get h) = Unit
  Alone n s (stealing_delete h) = Unit
  Alone n s releasing_get = Unit
  Alone n s releasing_delete = Unit
  Alone n s released = s.config_map ≡ none

  if-Alone :
      (n : String) (s : Store) (b : Bool) (p q : Pc)
      → (b ≡ true → Alone n s p)
      → (b ≡ false → Alone n s q)
      → Alone n s (if b then p else q)
  if-Alone n s true p q h k = h refl
  if-Alone n s false p q h k = k refl

  held_by-Alone :
      (n x : String) (s : Store) (o : Option String)
      → s.config_map ≡ some x
      → json.unmarshal x ≡ o
      → Alone n s (held_by json n o)
  unfolding held_by
  held_by-Alone n x s none e u = tt
  held_by-Alone n x s (some h) e u =
      if-Alone n s (h == n) locked (finding h)
        (λ q. (x, e, u ∙ ap (λ z. some z) ((eq_iff h n).0 q))) (λ q. tt)

  prepared-Alone :
      (n : String) (s : Store) (o : Option String)
      → json.marshal n ≡ o
      → Alone n s (prepared json o)
  unfolding prepared
  prepared-Alone n s none e = tt
  prepared-Alone n s (some x) e = json.unmarshal-marshal n x e

  after_get-Alone :
      (n : String) (s : Store) (o : Option String)
      → s.config_map ≡ o
      → Alone n s (after_get json n o)
  unfolding after_get
  after_get-Alone n s none e = prepared-Alone n s (json.marshal n) refl
  after_get-Alone n s (some x) e = held_by-Alone n x s (json.unmarshal x) e refl

  create-Alone :
      (a : Answer) (n x : String) (s : Store) (o : Option String)
      → json.unmarshal x ≡ some n
      → Alone n (create json a x s o).0 (create json a x s o).1
  unfolding create
  create-Alone a n x s (some y) u = tt
  create-Alone answered n x s none u = (x, refl, u)
  create-Alone failed n x s none u = tt
  create-Alone lost n x s none u = tt

  delete_next-Alone :
      (n : String) (s : Store) (o : Option String) (p q : Pc)
      → s.config_map ≡ o
      → (s.config_map ≡ none → Alone n s p)
      → Alone n s q
      → Alone n s (delete_next json p q o)
  unfolding delete_next
  delete_next-Alone n s none p q e h k = h e
  delete_next-Alone n s (some x) p q e h k = k

  removed : (a : Answer) (s : Store) → delivered a ≡ true → (remove json a s).config_map ≡ none
  unfolding remove performed delivered
  removed answered s e = refl
  removed failed s e = cc
  removed lost s e = cc

  call-Alone :
      (a : Answer) (n : String) (s : Store) (p : Pc)
      → Alone n s p
      → Alone n (call json a n s p).0 (call json a n s p).1
  unfolding call
  call-Alone a n s idle h = tt
  call-Alone a n s locked h = h
  call-Alone a n s refused h = tt
  call-Alone a n s released h = h
  call-Alone a n s getting h =
      if-Alone n s (delivered a) _ refused (λ q. after_get-Alone n s s.config_map refl) (λ q. tt)
  call-Alone a n s (finding holder) h =
      if-Alone n s (delivered a) _ refused
        (λ q.
          if-Alone n s (exists_machine s.machines holder) refused (stealing_get holder) (λ r. tt)
            (λ r. tt))
        (λ q. tt)
  call-Alone a n s (stealing_get holder) h =
      if-Alone n s (delivered a) _ refused
        (λ q. delete_next-Alone n s s.config_map refused (stealing_delete holder) refl (λ r. tt) tt)
        (λ q. tt)
  call-Alone a n s (stealing_delete holder) h = tt
  call-Alone a n s (creating x) h = create-Alone a n x s s.config_map h
  call-Alone a n s releasing_get h =
      if-Alone n s (delivered a) _ idle
        (λ q. delete_next-Alone n s s.config_map released releasing_delete refl (λ r. r) tt)
        (λ q. tt)
  call-Alone a n s releasing_delete h =
      if-Alone n (remove json a s) (delivered a) released idle (λ q. removed a s q) (λ q. tt)

  pub run-Alone :
      (k : ℕ) (answers : ℕ → Answer) (n : String) (s : Store) (p : Pc)
      → Alone n s p
      → Alone n (run json k answers n s p).0 (run json k answers n s p).1
  unfolding run
  run-Alone zero answers n s p h = h
  run-Alone (suc k) answers n s p h =
      run-Alone k (λ i. answers (suc i)) n (call json (answers 0) n s p).0
        (call json (answers 0) n s p).1 (call-Alone (answers 0) n s p h)
