-- ===== src/Priority/Depth.antt =====
-- How deep the change of a priority goes along the owners of mutexes.
use raw_os.Shared.{
  ℕ, zero, suc, ◌+◌, ◌-◌, ◌≤◌, ◌<◌, ◌≡◌, refl, ap, true, ltb, ◌==◌, if◌then◌else◌, Option, none,
  some, arith, dec_lt,
}
use raw_os.Kernel.{
  Kernel, TaskStatus, rdy, pend, pend_timeout, pend_timeout_suspended, suspended, pend_suspended,
  dly, dly_suspended, deleted, invalid_state, RawOsError, set_task, mutex_recursion_levels_exceeded,
  success,
}
use raw_os.Kernel.Pend.{change_pend_list_priority, raise}
use raw_os.Kernel.Pend.Change.{change_pend_list_priority_levels}
use raw_os.Priority.{
  Change, change_fuel, change_in_state, change_pending, mtx_chg_pri, follow_mutex, follow_owner,
  release_mutex, drop_mutex, set_priority, change_internal_task_priority, max_recursion,
  held_priority,
}

-- Two ways to change a priority that agree at a level of the recursion.
Agree : Change → Change → ℕ → Type 0
Agree f g level = (k : Kernel) (t p : ℕ) → k.mutex_recursion_levels ≡ level → f k t p ≡ g k t p

module _ (f g : Change) (level : ℕ) (agree : Agree f g level) where
  release_mutex-Agree :
      (k : Kernel) (t : ℕ) (m : Option ℕ)
      → k.mutex_recursion_levels ≡ level
      → release_mutex f k t m ≡ release_mutex g k t m
  unfolding release_mutex Agree
  release_mutex-Agree k t m at =
      let x = k.tasks t in
      let chain = drop_mutex x.mtxlist m in
      let k1 = set_task k t (record x { mtxlist = chain }) in
      let newpri = held_priority k chain x.bpriority x.bpriority in
      ap (λ z. if newpri == x.priority then k1 else z) (agree k1 t newpri at)

  follow_owner-Agree :
      (k : Kernel) (owner : Option ℕ) (p old : ℕ)
      → k.mutex_recursion_levels ≡ level
      → follow_owner f k owner p old ≡ follow_owner g k owner p old
  unfolding follow_owner Agree
  follow_owner-Agree k none p old at = refl
  follow_owner-Agree k (some owner) p old at =
      rw (agree k owner p at, release_mutex-Agree k owner none at) refl

  follow_mutex-Agree :
      (k : Kernel) (m : Option ℕ) (p old : ℕ)
      → k.mutex_recursion_levels ≡ level
      → follow_mutex f k m p old ≡ follow_mutex g k m p old
  unfolding follow_mutex
  follow_mutex-Agree k none p old at = refl
  follow_mutex-Agree k (some m) p old at =
      rw (follow_owner-Agree k (k.mutexes m).mtxtsk p old at) refl

  mtx_chg_pri-Agree :
      (k : Kernel) (t old : ℕ)
      → k.mutex_recursion_levels + 1 ≡ level
      → mtx_chg_pri f k t old ≡ mtx_chg_pri g k t old
  unfolding mtx_chg_pri
  mtx_chg_pri-Agree k t old at =
      let levels = k.mutex_recursion_levels + 1 in
      let deepest =
        if ltb k.mutex_recursion_max_levels levels then levels else k.mutex_recursion_max_levels in
      let k1 = record k { mutex_recursion_levels = levels; mutex_recursion_max_levels = deepest } in
      ap
        (λ (k2 : Kernel).
          if ltb max_recursion k.mutex_recursion_levels
          then raise k mutex_recursion_levels_exceeded
          else record k2 { mutex_recursion_levels = k2.mutex_recursion_levels - 1 })
        (follow_mutex-Agree k1 (k.tasks t).block_obj (k.tasks t).priority old at)

-- Past the last level the change of another priority is not used at all.
mtx_chg_pri-deep :
    (f g : Change) (k : Kernel) (t old : ℕ)
    → max_recursion < k.mutex_recursion_levels
    → mtx_chg_pri f k t old ≡ mtx_chg_pri g k t old
unfolding mtx_chg_pri
mtx_chg_pri-deep f g k t old deep =
    let e : ltb max_recursion k.mutex_recursion_levels ≡ true = ground arith in rw e refl

change_pending-Agree :
    (f g : Change) (k : Kernel) (t p : ℕ)
    → (k.mutex_recursion_levels ≤ max_recursion → Agree f g (k.mutex_recursion_levels + 1))
    → change_pending f k t p ≡ change_pending g k t p
unfolding change_pending
change_pending-Agree f g k t p agree =
    let k1 = change_pend_list_priority (set_priority k t p) t in
    let same = change_pend_list_priority_levels (set_priority k t p) t in
    elim (dec_lt max_recursion k.mutex_recursion_levels) [
      | yes deep ↦ mtx_chg_pri-deep f g k1 t (k.tasks t).priority (omega (arith, same))
      | no shallow ↦
          mtx_chg_pri-Agree f g (k.mutex_recursion_levels + 1) (agree (omega arith)) k1 t
            (k.tasks t).priority (omega (arith, same))
    ]

change_in_state-Agree :
    (f g : Change) (k : Kernel) (t p : ℕ) (s : TaskStatus)
    → (k.mutex_recursion_levels ≤ max_recursion → Agree f g (k.mutex_recursion_levels + 1))
    → change_in_state f k t p s ≡ change_in_state g k t p s
unfolding change_in_state
change_in_state-Agree f g k t p rdy agree = refl
change_in_state-Agree f g k t p dly agree = refl
change_in_state-Agree f g k t p suspended agree = refl
change_in_state-Agree f g k t p dly_suspended agree = refl
change_in_state-Agree f g k t p deleted agree = refl
change_in_state-Agree f g k t p invalid_state agree = refl
change_in_state-Agree f g k t p pend agree =
    ap (λ z. (z, success)) (change_pending-Agree f g k t p agree)
change_in_state-Agree f g k t p pend_timeout agree =
    ap (λ z. (z, success)) (change_pending-Agree f g k t p agree)
change_in_state-Agree f g k t p pend_suspended agree =
    ap (λ z. (z, success)) (change_pending-Agree f g k t p agree)
change_in_state-Agree f g k t p pend_timeout_suspended agree =
    ap (λ z. (z, success)) (change_pending-Agree f g k t p agree)

-- The fuel and the level of the recursion together pass the last level.
change_fuel_agree :
    (n m : ℕ) (k : Kernel) (t p : ℕ)
    → max_recursion < n + k.mutex_recursion_levels
    → max_recursion < m + k.mutex_recursion_levels
    → change_fuel (suc n) k t p ≡ change_fuel (suc m) k t p
unfolding change_fuel Agree
change_fuel_agree zero m k t p en em =
    change_in_state-Agree _ _ k t p (k.tasks t).task_state (λ low. absurd (omega arith))
change_fuel_agree (suc n) zero k t p en em =
    change_in_state-Agree _ _ k t p (k.tasks t).task_state (λ low. absurd (omega arith))
change_fuel_agree (suc n) (suc m) k t p en em =
    change_in_state-Agree _ _ k t p (k.tasks t).task_state (λ low k' t' p' at.
      ap (λ (r : Kernel × RawOsError). r.0)
        (change_fuel_agree n m k' t' p' (omega (arith, at)) (omega (arith, at))))

-- Fuel is never short: with any number of rounds from five on, the change of a priority gives the
-- same kernel and the same error code.
pub change_fuel_lem :
    (fuel : ℕ) (k : Kernel) (t p : ℕ)
    → 5 ≤ fuel
    → change_fuel fuel k t p ≡ change_internal_task_priority k t p
unfolding change_internal_task_priority
change_fuel_lem zero k t p enough = absurd (omega arith)
change_fuel_lem (suc n) k t p enough = change_fuel_agree n 4 k t p (omega arith) (omega arith)
