-- ===== src/Locking.antt =====
-- bootstrap/ocne/internal/locking/control_plane_init_mutex.go: the lock that lets one machine of a
-- cluster run the initialization. Every call of the API server is one step of a machine; between two
-- steps any other machine may make its own. JsonApi is what the lock takes of encoding/json.
pub mod Interleaving
pub mod Standing
pub mod Exclusion
pub mod Alone
pub mod Run
use cluster_api_provider_ocn.Base.{
  ℕ, zero, suc, String, ◌≡◌, Bool, true, false, Option, none, some, List, ◌==◌, any, if◌then◌else◌,
}

-- Marshal and Unmarshal of an information, which is the name of a machine.
pub record JsonApi : Type 0 where
  pub marshal : String → Option String
  pub unmarshal : String → Option String
  pub unmarshal-marshal : (n s : String) → marshal n ≡ some s → unmarshal s ≡ some n

-- The config map of the cluster by its data under lock-information, and the machines there are.
pub record Store : Type 0 where
  pub config_map : Option String
  pub machines : List String

-- How the API server answers: it does the call; it fails; it does the call and the answer is lost.
pub data Answer : Type 0 where
  answered failed lost : Answer

-- The call that a machine makes next. `finding` holds the name that the config map has, `creating`
-- the data of the new one. `stealing` is the Unlock that Lock calls; it keeps the name of the holder
-- that was not found, which no call reads. `releasing` is Unlock by itself.
pub data Pc : Type 0 where
  idle getting locked refused : Pc
  finding creating stealing_get stealing_delete : String → Pc
  releasing_get releasing_delete released : Pc

unfoldable pub exists_machine : List String → String → Bool
exists_machine ms n = any (λ m. m == n) ms

unfoldable pub delivered : Answer → Bool
delivered answered = true
delivered failed = false
delivered lost = false

unfoldable pub performed : Answer → Bool
performed answered = true
performed failed = false
performed lost = true

module _ (json : JsonApi) where
  -- The config map is there: the switch's default case, up to its first call.
  unfoldable pub held_by : String → Option String → Pc
  held_by n none = refused
  held_by n (some holder) = if holder == n then locked else finding holder

  -- setInformation comes before Create.
  unfoldable pub prepared : Option String → Pc
  prepared none = refused
  prepared (some x) = creating x

  unfoldable pub after_get : String → Option String → Pc
  after_get n none = prepared (json.marshal n)
  after_get n (some s) = held_by n (json.unmarshal s)

  -- Create: what it leaves, and whether it says so.
  unfoldable pub create : Answer → String → Store → Option String → Store × Pc
  create a x s (some y) = (s, refused)
  create answered x s none = (record s { config_map = some x }, locked)
  create failed x s none = (s, refused)
  create lost x s none = (record s { config_map = some x }, refused)

  unfoldable pub delete_next : Pc → Pc → Option String → Pc
  delete_next gone next none = gone
  delete_next gone next (some x) = next

  -- Delete of the config map. Where it is gone already, that is as good.
  unfoldable pub remove : Answer → Store → Store
  remove a s = if performed a then record s { config_map = none } else s

  unfoldable pub call : Answer → String → Store → Pc → Store × Pc
  call a n s idle = (s, idle)
  call a n s locked = (s, locked)
  call a n s refused = (s, refused)
  call a n s released = (s, released)
  call a n s getting = (s, if delivered a then after_get n s.config_map else refused)
  call a n s (finding holder) = (
    s,
    if delivered a
        then (if exists_machine s.machines holder then refused else stealing_get holder)
        else refused,
  )
  call a n s (stealing_get holder) = (
    s,
    if delivered a then delete_next refused (stealing_delete holder) s.config_map else refused,
  )
  call a n s (stealing_delete holder) = (remove a s, refused)
  call a n s (creating x) = create a x s s.config_map
  call a n s releasing_get =
      (s, if delivered a then delete_next released releasing_delete s.config_map else idle)
  call a n s releasing_delete = (remove a s, if delivered a then released else idle)

  -- Calls made one after the other with no other machine in between, as the answers come.
  unfoldable pub run : ℕ → (ℕ → Answer) → String → Store → Pc → Store × Pc
  run zero answers n s p = (s, p)
  run (suc k) answers n s p =
      run k (λ i. answers (suc i)) n (call (answers 0) n s p).0 (call (answers 0) n s p).1

  -- Lock makes four calls at most, Unlock two.
  unfoldable pub lock : (ℕ → Answer) → String → Store → Store × Pc
  lock answers n s = run 4 answers n s getting

  unfoldable pub unlock : (ℕ → Answer) → String → Store → Store × Pc
  unlock answers n s = run 2 answers n s releasing_get
