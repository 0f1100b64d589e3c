-- ===== src/Locking/Standing.antt =====
-- What a machine knows of the lock at each of its calls, and that other machines' calls leave it true.
use cluster_api_provider_ocn.Base.{
  String, ◌≡◌, refl, ◌∙◌, ap, Bool, true, false, Option, none, some, ◌==◌, if◌then◌else◌,
  Bool-cases, inl, inr, eq_iff,
}
use cluster_api_provider_ocn.Locking.{
  JsonApi, Store, Answer, answered, failed, lost, Pc, idle, getting, creating, locked, refused,
  finding, stealing_get, stealing_delete, releasing_get, releasing_delete, released, exists_machine,
  delivered, performed, held_by, prepared, after_get, create, delete_next, remove, call,
}
use cluster_api_provider_ocn.Locking.Interleaving.{Owner, Unclaimed, Undisturbed}

module _ (json : JsonApi) where
  -- The config map names a machine that exists.
  abbrev pub Holds : String → Store → Type 0
  Holds n s = exists_machine s.machines n ≡ true → Owner json n s

  -- What is known where a machine stands, until the control plane is initialized.
  abbrev pub Stands : String → Store → Pc → Type 0
  Stands n s idle = Unit
  Stands n s getting = Unit
  Stands n s (creating x) = json.unmarshal x ≡ some n
  Stands n s locked = Holds n s
  Stands n s refused = Unit
  Stands n s (finding h) = Unit
  Stands n s (stealing_get h) = exists_machine s.machines h ≡ false
  Stands n s (stealing_delete h) = exists_machine s.machines h ≡ false
  Stands n s releasing_get = Holds n s
  Stands n s releasing_delete = Holds n s
  Stands n s released = Unit

  if-Stands :
      (n : String) (s : Store) (b : Bool) (p q : Pc)
      → (b ≡ true → Stands n s p)
      → (b ≡ false → Stands n s q)
      → Stands n s (if b then p else q)
  if-Stands n s true p q h k = h refl
  if-Stands n s false p q h k = k refl

  held_by-Stands :
      (n x : String) (s : Store) (o : Option String)
      → s.config_map ≡ some x
      → json.unmarshal x ≡ o
      → Stands n s (held_by json n o)
  unfolding held_by
  held_by-Stands n x s none e u = tt
  held_by-Stands n x s (some h) e u =
      if-Stands n s (h == n) locked (finding h)
        (λ q m. (x, e, u ∙ ap (λ z. some z) ((eq_iff h n).0 q))) (λ q. tt)

  prepared-Stands :
      (n : String) (s : Store) (o : Option String)
      → json.marshal n ≡ o
      → Stands n s (prepared json o)
  unfolding prepared
  prepared-Stands n s none e = tt
  prepared-Stands n s (some x) e = json.unmarshal-marshal n x e

  after_get-Stands :
      (n : String) (s : Store) (o : Option String)
      → s.config_map ≡ o
      → Stands n s (after_get json n o)
  unfolding after_get
  after_get-Stands n s none e = prepared-Stands n s (json.marshal n) refl
  after_get-Stands n s (some x) e = held_by-Stands n x s (json.unmarshal x) e refl

  create-Stands :
      (a : Answer) (n x : String) (s : Store) (o : Option String)
      → json.unmarshal x ≡ some n
      → Stands n (create json a x s o).0 (create json a x s o).1
  unfolding create
  create-Stands a n x s (some y) u = tt
  create-Stands answered n x s none u = λ m. (x, refl, u)
  create-Stands failed n x s none u = tt
  create-Stands lost n x s none u = tt

  delete_next-Stands :
      (n : String) (s : Store) (o : Option String) (p q : Pc)
      → Stands n s p
      → Stands n s q
      → Stands n s (delete_next json p q o)
  unfolding delete_next
  delete_next-Stands n s none p q h k = h
  delete_next-Stands n s (some x) p q h k = k

  pub call-Stands :
      (a : Answer) (n : String) (s : Store) (p : Pc)
      → Stands n s p
      → Stands n (call json a n s p).0 (call json a n s p).1
  unfolding call
  call-Stands a n s idle h = tt
  call-Stands a n s locked h = h
  call-Stands a n s refused h = tt
  call-Stands a n s released h = tt
  call-Stands a n s getting h =
      if-Stands n s (delivered a) _ refused (λ q. after_get-Stands n s s.config_map refl) (λ q. tt)
  call-Stands a n s (finding holder) h =
      if-Stands n s (delivered a) _ refused
        (λ q.
          if-Stands n s (exists_machine s.machines holder) refused (stealing_get holder) (λ r. tt)
            (λ r. r))
        (λ q. tt)
  call-Stands a n s (stealing_get holder) h =
      if-Stands n s (delivered a) _ refused
        (λ q. delete_next-Stands n s s.config_map refused (stealing_delete holder) tt h) (λ q. tt)
  call-Stands a n s (stealing_delete holder) h = tt
  call-Stands a n s (creating x) h = create-Stands a n x s s.config_map h
  call-Stands a n s releasing_get h =
      if-Stands n s (delivered a) _ idle
        (λ q. delete_next-Stands n s s.config_map released releasing_delete tt h) (λ q. tt)
  call-Stands a n s releasing_delete h =
      if-Stands n (remove json a s) (delivered a) released idle (λ q. tt) (λ q. tt)

  machines-create :
      (a : Answer) (x : String) (s : Store) (o : Option String)
      → (create json a x s o).0.machines ≡ s.machines
  unfolding create
  machines-create a x s (some y) = refl
  machines-create answered x s none = refl
  machines-create failed x s none = refl
  machines-create lost x s none = refl

  machines-remove : (a : Answer) (s : Store) → (remove json a s).machines ≡ s.machines
  unfolding remove performed
  machines-remove answered s = refl
  machines-remove failed s = refl
  machines-remove lost s = refl

  -- No call of the lock changes which machines exist.
  pub machines-call :
      (a : Answer) (n : String) (s : Store) (p : Pc) → (call json a n s p).0.machines ≡ s.machines
  unfolding call
  machines-call a n s idle = refl
  machines-call a n s locked = refl
  machines-call a n s refused = refl
  machines-call a n s released = refl
  machines-call a n s getting = refl
  machines-call a n s (finding h) = refl
  machines-call a n s (stealing_get h) = refl
  machines-call a n s (stealing_delete h) = machines-remove a s
  machines-call a n s (creating x) = machines-create a x s s.config_map
  machines-call a n s releasing_get = refl
  machines-call a n s releasing_delete = machines-remove a s

  pub Owner-unique : (n j : String) (s : Store) → Owner json n s → Owner json j s → n ≡ j
  Owner-unique n j s (x, e, u) (y, f, v) = let r : x ≡ y = cc (e, f) in cc (r, u, v)

  create-Owner :
      (a : Answer) (x j : String) (s : Store) (o : Option String)
      → s.config_map ≡ o
      → Owner json j s
      → Owner json j (create json a x s o).0
  unfolding create
  create-Owner a x j s (some y) e h = h
  create-Owner a x j s none e (y, f, v) = cc (e, f)

  -- A Delete that meets the config map of h, or none, leaves the one of any other machine.
  remove-Owner :
      (a : Answer) (h j : String) (s : Store)
      → (h ≡ j → ⊥)
      → Unclaimed json h s
      → Owner json j s
      → Owner json j (remove json a s)
  remove-Owner a h j s d (inl e) (y, f, v) = cc (e, f)
  remove-Owner a h j s d (inr o) k = absurd (d (Owner-unique h j s o k))

  -- A machine that exists keeps the config map while another one makes an undisturbed call.
  pub call-Owner :
      (a : Answer) (n j : String) (s : Store) (p : Pc)
      → Stands n s p
      → Undisturbed json n s p
      → (n == j) ≡ false
      → exists_machine s.machines j ≡ true
      → Owner json j s
      → Owner json j (call json a n s p).0
  unfolding call
  call-Owner a n j s idle h u d m o = o
  call-Owner a n j s locked h u d m o = o
  call-Owner a n j s refused h u d m o = o
  call-Owner a n j s released h u d m o = o
  call-Owner a n j s getting h u d m o = o
  call-Owner a n j s (finding x) h u d m o = o
  call-Owner a n j s (stealing_get x) h u d m o = o
  call-Owner a n j s (stealing_delete x) h u d m o = remove-Owner a x j s (λ e. cc (e, h, m)) u o
  call-Owner a n j s (creating x) h u d m o = create-Owner a x j s s.config_map refl o
  call-Owner a n j s releasing_get h u d m o = o
  call-Owner a n j s releasing_delete h u d m o =
      remove-Owner a n j s (λ e. cc ((eq_iff n j).1 e, d)) u o

  still_gone :
      (s t : Store) (h : String)
      → (exists_machine t.machines h ≡ true → exists_machine s.machines h ≡ true)
      → exists_machine s.machines h ≡ false
      → exists_machine t.machines h ≡ false
  still_gone s t h m e = elim (Bool-cases (exists_machine t.machines h)) [
    | inl q ↦ cc (m q, e)
    | inr q ↦ q
  ]

  -- What is known of a machine stays true while no machine comes back and it keeps the config map.
  pub Stands-mono :
      (j : String) (s t : Store) (p : Pc)
      → ((h : String) → exists_machine t.machines h ≡ true → exists_machine s.machines h ≡ true)
      → (exists_machine s.machines j ≡ true → Owner json j s → Owner json j t)
      → Stands j s p
      → Stands j t p
  Stands-mono j s t idle m o h = tt
  Stands-mono j s t getting m o h = tt
  Stands-mono j s t (creating x) m o h = h
  Stands-mono j s t locked m o h = λ e. o (m j e) (h (m j e))
  Stands-mono j s t refused m o h = tt
  Stands-mono j s t (finding x) m o h = tt
  Stands-mono j s t (stealing_get x) m o h = still_gone s t x (m x) h
  Stands-mono j s t (stealing_delete x) m o h = still_gone s t x (m x) h
  Stands-mono j s t releasing_get m o h = λ e. o (m j e) (h (m j e))
  Stands-mono j s t releasing_delete m o h = λ e. o (m j e) (h (m j e))
  Stands-mono j s t released m o h = tt
