-- ===== src/Mutex/Nesting.antt =====
-- An owner that takes its mutex again.
use raw_os.Shared.{
  ℕ, ◌+◌, ◌-◌, ◌<◌, ◌≡◌, refl, ◌∙◌, ap, true, false, ◌==◌, ==_refl, some, arith, opt_is, fun_ext,
}
use raw_os.Kernel.{Kernel, wrong_type, mutex_obj, in_interrupt, mutex_owner_nested, returned}
use raw_os.Mutex.{raw_mutex_get, raw_mutex_put, own_again}

-- A get by the owner does not block it, whatever the time it would wait, and the next put undoes the
-- get: nothing in the kernel is changed by the two, while the nesting has not reached its limit.
pub raw_mutex_put-get :
    (nested_max : ℕ) (k : Kernel) (o wait_option : ℕ)
    → (o == 0) ≡ false
    → in_interrupt k ≡ false
    → wrong_type k o mutex_obj ≡ false
    → (k.mutexes o).mtxtsk ≡ some k.raw_task_active
    → 0 < (k.mutexes o).owner_nested
    → (k.mutexes o).owner_nested < nested_max
    → let (k1, outcome) = raw_mutex_get nested_max k o wait_option in
      (outcome ≡ returned mutex_owner_nested)
      × (raw_mutex_put nested_max k1 o ≡ (k, mutex_owner_nested))
unfolding raw_mutex_get raw_mutex_put own_again
raw_mutex_put-get nested_max k o wait_option valid task type owns some_left below =
    let free : ((k.mutexes o).owner_nested == nested_max) ≡ false = ground arith in
    let n0 : ((k.mutexes o).owner_nested + 1 == 0) ≡ false = ground arith in
    let back : (k.mutexes o).owner_nested + 1 - 1 ≡ (k.mutexes o).owner_nested = omega arith in
    let more : ((k.mutexes o).owner_nested == 0) ≡ false = ground arith in
    let mine : opt_is (k.mutexes o).mtxtsk k.raw_task_active ≡ true =
      ap (λ m. opt_is m k.raw_task_active) owns ∙ ==_refl k.raw_task_active in
    rw (valid, task, type, mine, free)
      (
        refl,
        rw (==_refl o, task, type, mine, n0, back, more)
            (ap (λ f. (record k { mutexes = f }, mutex_owner_nested))
              (fun_ext (λ q. ground arith))),
      )
