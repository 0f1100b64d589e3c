-- ===== src/Locking/Interleaving.antt =====
-- The step relation of machines that lock and unlock in any order of their calls, with failures and with machines that
-- cease to exist. A machine that does not exist yet is one that has not called.
use cluster_api_provider_ocn.Base.{
  String, ◌≡◌, Bool, true, false, none, some, List, ◌==◌, if◌then◌else◌, ◌⊎◌,
}
use cluster_api_provider_ocn.Locking.{
  JsonApi, Store, Answer, Pc, idle, getting, creating, locked, refused, finding, stealing_get,
  stealing_delete, releasing_get, releasing_delete, released, exists_machine, call,
}

pub record System : Type 0 where
  pub store : Store
  pub initialized : Bool
  pub pc : String → Pc

abbrev pub update : (String → Pc) → String → Pc → String → Pc
update f n p m = if n == m then p else f m

-- Where a machine may call Lock again.
abbrev pub outside : Pc → Bool
outside idle = true
outside refused = true
outside released = true
outside getting = false
outside (creating x) = false
outside locked = false
outside (finding h) = false
outside (stealing_get h) = false
outside (stealing_delete h) = false
outside releasing_get = false
outside releasing_delete = false

-- From Lock's answer true to the end of Unlock.
abbrev pub inside : Pc → Bool
inside idle = false
inside refused = false
inside released = false
inside getting = false
inside (creating x) = false
inside locked = true
inside (finding h) = false
inside (stealing_get h) = false
inside (stealing_delete h) = false
inside releasing_get = true
inside releasing_delete = true

module _ (json : JsonApi) where
  -- The config map names the machine.
  abbrev pub Owner : String → Store → Type 0
  Owner n s = (x : String) × (s.config_map ≡ some x) × (json.unmarshal x ≡ some n)

  -- The config map is gone, or names the machine still.
  abbrev pub Unclaimed : String → Store → Type 0
  Unclaimed n s = (s.config_map ≡ none) ⊎ Owner n s

  -- No other machine has locked between an Unlock's reads and its Delete: the Delete meets the config
  -- map of the holder that was not found, or of the machine that unlocks by itself, or none.
  abbrev pub Undisturbed : String → Store → Pc → Type 0
  Undisturbed n s idle = Unit
  Undisturbed n s getting = Unit
  Undisturbed n s (creating x) = Unit
  Undisturbed n s locked = Unit
  Undisturbed n s refused = Unit
  Undisturbed n s (finding h) = Unit
  Undisturbed n s (stealing_get h) = Unit
  Undisturbed n s (stealing_delete h) = Unclaimed h s
  Undisturbed n s releasing_get = Unit
  Undisturbed n s releasing_delete = Unclaimed n s
  Undisturbed n s released = Unit

  -- A machine that exists calls Lock; the holder calls Unlock; once the control plane is initialized,
  -- any machine that joins calls Unlock; machines cease to exist, which does not stop their calls; the
  -- control plane gets initialized; or a machine makes its next call, undisturbed.
  pub data Step (s : System) : System → Type 0 where
    call_lock :
        (n : String)
        → exists_machine s.store.machines n ≡ true
        → outside (s.pc n) ≡ true
        → Step s (record s { pc = update s.pc n getting })
    call_unlock :
        (n : String) → s.pc n ≡ locked → Step s (record s { pc = update s.pc n releasing_get })
    join_unlock :
        (n : String)
        → s.initialized ≡ true
        → outside (s.pc n) ≡ true
        → Step s (record s { pc = update s.pc n releasing_get })
    vanish :
        (left : List String)
        → ((h : String) → exists_machine left h ≡ true → exists_machine s.store.machines h ≡ true)
        → Step s (record s { store = record { config_map = s.store.config_map; machines = left } })
    initialize : Step s (record s { initialized = true })
    advance :
        (a : Answer) (n : String)
        → Undisturbed n s.store (s.pc n)
        → Step s (record s {
          store = (call json a n s.store (s.pc n)).0;
          pc = update s.pc n (call json a n s.store (s.pc n)).1;
        })

  abbrev pub init : List String → System
  init ms = record {
    store = record { config_map = none; machines = ms };
    initialized = false;
    pc = λ n. idle;
  }

  pub data Reach (ms : List String) : System → Type 0 where
    start : Reach ms (init ms)
    later : {s t : System} → Reach ms s → Step s t → Reach ms t
