-- ===== src/Ticker.antt =====
-- raw_tick.c: `tick_list_update`, which the tick task runs at every tick.
use raw_os.Shared.{ℕ, ◌+◌, ◌%◌, ◌==◌, if◌then◌else◌, none, List, [], ◌∷◌}
use raw_os.Kernel.{
  Kernel, TaskStatus, set_task, rdy, pend, pend_timeout, pend_timeout_suspended, suspended,
  pend_suspended, dly, dly_suspended, deleted, invalid_state, b_ok, b_timeout, u32_mod,
  system_critical_error,
}
use raw_os.Kernel.Tick.{tick_list_remove}
use raw_os.Kernel.Pend.{add_ready_list, list_delete, raise}
use raw_os.Priority.{mutex_state_change}

-- The end of a wait with a timeout: the task leaves its lists, and then its mutex's owner is settled.
pub time_out : Kernel → ℕ → TaskStatus → Kernel
time_out k t s =
    let k1 = set_task k t (record (k.tasks t) { block_status = b_timeout; task_state = s }) in
    let k2 = mutex_state_change k1 t in set_task k2 t (record (k2.tasks t) { block_obj = none })

-- The `switch` on the state of a task whose time has come.
pub expire : Kernel → ℕ → TaskStatus → Kernel
expire k t dly =
    let k1 = set_task k t (record (k.tasks t) { block_status = b_ok; task_state = rdy }) in
    add_ready_list (tick_list_remove k1 t) t
expire k t pend_timeout = time_out (add_ready_list (list_delete (tick_list_remove k t) t) t) t rdy
expire k t pend_timeout_suspended = time_out (list_delete (tick_list_remove k t) t) t suspended
expire k t dly_suspended =
    tick_list_remove
      (set_task k t (record (k.tasks t) { task_state = suspended; block_status = b_ok })) t
expire k t rdy = raise k system_critical_error
expire k t pend = raise k system_critical_error
expire k t suspended = raise k system_critical_error
expire k t pend_suspended = raise k system_critical_error
expire k t deleted = raise k system_critical_error
expire k t invalid_state = raise k system_critical_error

-- The loop, which reads the next task before it handles one: it runs along the list as it was, up to
-- the first task whose time has not come.
pub expire_list : Kernel → List ℕ → Kernel
unfolding expire
expire_list k [] = k
expire_list k (t ∷ rest) =
    if k.raw_tick_count == (k.tasks t).tick_match
    then expire_list (expire k t (k.tasks t).task_state) rest
    else k

pub tick_list_update : Kernel → Kernel
unfolding expire_list
tick_list_update k =
    expire_list (record k { raw_tick_count = (k.raw_tick_count + 1) % u32_mod }) k.tick_list
