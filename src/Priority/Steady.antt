-- ===== src/Priority/Steady.antt =====
-- The change of the priority of a task that does not wait.
use raw_os.Shared.{ℕ, ◌≡◌, refl, false, ◌==◌, if_cases, Option, ==_refl}
use raw_os.Kernel.{
  set_task, Kernel, TaskStatus, rdy, pend, pend_timeout, pend_timeout_suspended, suspended,
  pend_suspended, dly, dly_suspended, deleted, invalid_state,
}
use raw_os.Kernel.Place.{is_pending}
use raw_os.Kernel.Pend.{remove_ready_list}
use raw_os.Kernel.Pend.Ready.{remove_ready_list-SameObjects, block_list-remove_ready_list}
use raw_os.Kernel.Pend.Change.{
  add_ready_list_head-Untouched, add_ready_list_end-Untouched, Untouched,
}
use raw_os.Priority.{
  Change, change, change_fuel, change_internal_task_priority, change_in_state, change_ready,
  set_priority, release_mutex, drop_mutex, held_priority,
}

change_ready-Untouched : (k : Kernel) (t p : ℕ) → Untouched k (change_ready k t p)
unfolding change_ready
change_ready-Untouched k t p =
    if_cases (Untouched k) (t == k.raw_task_active) (λ e. add_ready_list_head-Untouched k _ t left)
      (λ e. add_ready_list_end-Untouched k _ t left)
  where
    left : Untouched k (set_priority (remove_ready_list k t) t p)
    left = record {
      mutexes = (remove_ready_list-SameObjects k t).mutexes;
      lists = block_list-remove_ready_list k t;
      active = (remove_ready_list-SameObjects k t).active;
    }

steady_lem :
    (f : Change) (k : Kernel) (t p : ℕ) (s : TaskStatus)
    → is_pending s ≡ false
    → Untouched k (change_in_state f k t p s).0
unfolding change_in_state
steady_lem f k t p rdy e = change_ready-Untouched k t p
steady_lem f k t p dly e = record { mutexes = refl; lists = refl; active = refl }
steady_lem f k t p suspended e = record { mutexes = refl; lists = refl; active = refl }
steady_lem f k t p dly_suspended e = record { mutexes = refl; lists = refl; active = refl }
steady_lem f k t p deleted e = record { mutexes = refl; lists = refl; active = refl }
steady_lem f k t p invalid_state e = record { mutexes = refl; lists = refl; active = refl }
steady_lem f k t p pend e = cc
steady_lem f k t p pend_timeout e = cc
steady_lem f k t p pend_suspended e = cc
steady_lem f k t p pend_timeout_suspended e = cc

pub change-Untouched :
    (k : Kernel) (t p : ℕ) → is_pending (k.tasks t).task_state ≡ false → Untouched k (change k t p)
unfolding change_internal_task_priority change_fuel
change-Untouched k t p e = steady_lem _ k t p (k.tasks t).task_state e

pub release_mutex-Untouched :
    (k : Kernel) (t : ℕ) (m : Option ℕ)
    → is_pending (k.tasks t).task_state ≡ false
    → Untouched k (release_mutex change k t m)
unfolding release_mutex
release_mutex-Untouched k t m e =
    let x = k.tasks t in
    let chain = drop_mutex x.mtxlist m in
    let k1 = set_task k t (record x { mtxlist = chain }) in
    let newpri = held_priority k chain x.bpriority x.bpriority in
    let u = change-Untouched k1 t newpri (rw (==_refl t) e) in
    if_cases (Untouched k) (newpri == x.priority)
      (λ b. record { mutexes = refl; lists = refl; active = refl })
      (λ b. record { mutexes = u.mutexes; lists = u.lists; active = u.active })
