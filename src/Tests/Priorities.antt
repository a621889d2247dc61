-- ===== src/Tests/Priorities.antt =====
-- Priorities and mutexes at concrete inputs.
use raw_os.Shared.{◌≡◌, [], ◌∷◌, arith, some, update, ltb, if◌then◌else◌}
use raw_os.Kernel.{
  Kernel, mutex_obj, success, inherit_policy, ceiling_policy, exceed_ceiling_priority,
}
use raw_os.Priority.{
  change_fuel, change_internal_task_priority, held_priority, chg_pri_mutex, ceiling_of,
}
use raw_os.Priority.Depth.{change_fuel_lem}
use raw_os.Priority.Held.{
  held_priority-eq-least, chg_pri_mutex_lem, least, greatest, all_asks, ceilings,
}
use raw_os.Tests.{waiting_kernel, running, idle, waiter, timed_waiter, no_task}

-- Task 1 holds the mutex 100, which inherits, and the mutex 101, with the ceiling 4.
abbrev pub k0 : Kernel
k0 = record (waiting_kernel mutex_obj) {
  tasks =
      update
        (update
          (update (update (λ t. no_task) 1 (record running { mtxlist = 101 ∷ 100 ∷ [] })) 2 idle) 3
          waiter)
        4 timed_waiter;
  mutexes =
      update
        (update (waiting_kernel mutex_obj).mutexes 100
          (record { mtxtsk = some 1; policy = inherit_policy; ceiling_prio = 0; owner_nested = 1 }))
        101
        (record { mtxtsk = some 1; policy = ceiling_policy; ceiling_prio = 4; owner_nested = 1 });
}

change_fuel_lem_example : change_fuel 9 k0 4 2 ≡ change_internal_task_priority k0 4 2
change_fuel_lem_example = change_fuel_lem 9 k0 4 2 (omega arith)

held_priority-eq-least_example :
    held_priority k0 (101 ∷ 100 ∷ []) 5 5 ≡ least 5 (all_asks k0 (101 ∷ 100 ∷ []))
held_priority-eq-least_example = held_priority-eq-least k0 (101 ∷ 100 ∷ []) 5

chg_pri_mutex_lem_example :
    let chain = (k0.tasks 1).mtxlist in
    let low = greatest (ceiling_of k0 (k0.tasks 1).block_obj) (ceilings k0 chain) in
    chg_pri_mutex k0 1 6
    ≡ (if ltb 6 low then (low, exceed_ceiling_priority) else (least 6 (all_asks k0 chain), success))
chg_pri_mutex_lem_example = chg_pri_mutex_lem k0 1 6
