-- ===== src/ControlPlane/Remediation/Cleaning.antt =====
-- The machines that the cleanup of a remediation leaves.
use cluster_api_provider_ocn.Base.{
  ◌≡◌, refl, Bool, true, false, ◌&&◌, [], ◌∷◌, All, arith, Bool-cases, Option-cases, eq_iff, inl,
  inr, ◌⊎◌, String, none, ◌==◌, if◌then◌else◌,
}
use cluster_api_provider_ocn.Meta.{TimeApi}
use cluster_api_provider_ocn.Conditions.Getter.{find_condition, get, is_true, is_false}
use cluster_api_provider_ocn.Conditions.Setter.Laws.{get-delete}
use cluster_api_provider_ocn.Conditions.Setter.{delete}
use cluster_api_provider_ocn.Conditions.Defs.{Object, condition_true}
use cluster_api_provider_ocn.Machines.{
  Machine, owner_remediated, health_check_succeeded, has_unhealthy_condition,
}
use cluster_api_provider_ocn.Machines.Collection.{Machines}
use cluster_api_provider_ocn.ControlPlane.Scaling.{Remote}
use cluster_api_provider_ocn.ControlPlane.Remediation.{
  Cleanup, is_pending, without_owner_remediated, clean_machine, clean_machines,
}

module _ ⦃time : TimeApi⦄ where
  -- A machine is back to healthy, still marked for a remediation, and not being deleted.
  abbrev pub is_mended : Machine → Bool
  is_mended m =
      is_true m.object health_check_succeeded
      && is_false m.object owner_remediated
      && time.is_zero m.deletion_timestamp

  is_false_of_true : (o : Object) (t : String) → is_true o t ≡ true → is_false o t ≡ false
  unfolding is_true is_false get
  is_false_of_true o t h = elim (Option-cases (find_condition t o.conditions)) [
    | inl e ↦ cc (rw (e, is_true) at h)
    | inr (d, e) ↦
        let q : d.status ≡ condition_true =
          (eq_iff d.status condition_true).0 (rw (e, is_true) at h) in
        rw (e, is_false, q) refl
  ]

  is_pending-is_mended : (m : Machine) → is_pending m ≡ is_mended m
  unfolding is_pending has_unhealthy_condition
  is_pending-is_mended m = elim (Bool-cases (is_true m.object health_check_succeeded)) [
    | inl e ↦ rw (e, is_false_of_true m.object health_check_succeeded e) refl
    | inr e ↦ ground (arith, e)
  ]

  -- The second machine is the first without its condition MachineOwnerRemediated.
  abbrev pub IsUnmarked : Machine → Machine → Type 0
  IsUnmarked m a =
      ((t : String) → get a.object t ≡ (if t == owner_remediated then none else get m.object t))
      × (a.name ≡ m.name)
      × (a.kind ≡ m.kind)
      × (record a { object = m.object } ≡ m)

  -- A machine before and after the cleanup.
  abbrev pub IsCleaned : Machine → Machine → Type 0
  IsCleaned m a = ((is_mended m ≡ false) × (a ≡ m)) ⊎ ((is_mended m ≡ true) × IsUnmarked m a)

  -- The two collections have the same length, and their machines are related one by one.
  abbrev pub AreCleaned : Machines → Machines → Type 0
  AreCleaned [] [] = Unit
  AreCleaned [] (a ∷ rest) = ⊥
  AreCleaned (m ∷ ms) [] = ⊥
  AreCleaned (m ∷ ms) (a ∷ rest) = IsCleaned m a × AreCleaned ms rest

  without_owner_remediated-IsUnmarked : (m : Machine) → IsUnmarked m (without_owner_remediated m)
  unfolding without_owner_remediated delete
  without_owner_remediated-IsUnmarked m =
      (λ t. get-delete m.object owner_remediated t, refl, refl, refl)

  unmarked_not_mended : (m a : Machine) → IsUnmarked m a → is_mended a ≡ false
  unfolding is_false
  unmarked_not_mended m a (g, n, k, r) = ground (arith, g owner_remediated)

  clean_machine-errors :
      (remote : Remote) (m : Machine) (done : Cleanup)
      → (clean_machine remote m done).errors ≡ 0
      → done.errors ≡ 0
  unfolding clean_machine
  clean_machine-errors remote m done e = ground (arith, e)

  clean_machine-IsCleaned :
      (remote : Remote) (m : Machine) (done : Cleanup)
      → (clean_machine remote m done).errors ≡ 0
      → (a : Machine) × IsCleaned m a
        × (is_mended a ≡ false)
        × ((clean_machine remote m done).machines ≡ a ∷ done.machines)
  unfolding clean_machine
  clean_machine-IsCleaned remote m done e = elim (Bool-cases (is_mended m)) [
    | inl p ↦
        let u = without_owner_remediated-IsUnmarked m in
        (
          without_owner_remediated m,
          inr (p, u),
          unmarked_not_mended m (without_owner_remediated m) u,
          ground (arith, is_pending-is_mended m, p),
        )
    | inr p ↦ (m, inl (p, refl), p, ground (arith, is_pending-is_mended m, p))
  ]

  -- When the cleanup meets no error, every machine that was back to healthy, not being deleted and
  -- still marked for a remediation has lost exactly the condition MachineOwnerRemediated, every other
  -- machine is as it was, and none of the machines is left back to healthy, not being deleted and
  -- marked.
  pub clean_machines-Settled :
      (remote : Remote) (ms : Machines)
      → (clean_machines remote ms).errors ≡ 0
      → AreCleaned ms (clean_machines remote ms).machines
        × All (λ a. is_mended a ≡ false) (clean_machines remote ms).machines
  unfolding clean_machines
  clean_machines-Settled remote [] e = (tt, tt)
  clean_machines-Settled remote (m ∷ ms) e =
      let (cleaned, settled) =
        clean_machines-Settled remote ms
          (clean_machine-errors remote m (clean_machines remote ms) e) in
      let (a, c, p, q) = clean_machine-IsCleaned remote m (clean_machines remote ms) e in
      rw q ((c, cleaned), (p, settled))
