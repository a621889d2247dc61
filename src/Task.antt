-- ===== src/Task.antt =====
-- raw_task.c: creation of a task, and sleep. The children have the other functions.
pub mod Suspend
pub mod Control
pub mod Ticks
pub mod Delay
use raw_os.Shared.{
  ℕ, ◌+◌, ◌-◌, ◌*◌, ◌/◌, ◌%◌, Bool, true, false, ltb, leb, ◌==◌, if◌then◌else◌, not, ◌&&◌, Option,
  none, some, List, [], ◌∷◌, ◌++◌, erase, update, Bool,
}
use raw_os.RunQueue
use raw_os.RunQueue.{prio_max}
use raw_os.Kernel.{
  Kernel, Task, TaskStatus, SchedWay, RawOsError, Outcome, returned, blocked, set_task, rdy, pend,
  pend_timeout, pend_timeout_suspended, suspended, pend_suspended, dly, dly_suspended, deleted,
  invalid_state, b_ok, b_abort, sched_rr, u32_mod, in_interrupt, is_locked, success, null_object,
  null_pointer, byond_max_priority, not_called_by_isr, idle_exit, os_stopped, sched_disable,
  invalid_hours, invalid_minutes, time_zero_sleep, suspend_task_not_allowed,
  suspended_count_overflowed, state_unknown, has_not_suspended, change_priority_not_allowed,
  delete_task_not_allowed,
}
use raw_os.Kernel.Sched.{raw_sched}
use raw_os.Kernel.Tick.{tick_list_insert, tick_list_remove}
use raw_os.Kernel.Pend.{
  set_state, remove_ready_list, add_ready_list, add_ready_list_end, list_delete,
}
use raw_os.Kernel.System.{block_state_post_process}
use raw_os.Priority.{change_internal_task_priority, chg_pri_mutex, mutex_state_change}
use raw_os.Mutex.{raw_task_free_mutex}

-- `IDLE_PRIORITY`
abbrev pub idle_priority : ℕ
idle_priority = 61

-- `TIME_SLICE_DEFAULT`
abbrev pub time_slice_default : ℕ
time_slice_default = 50

abbrev slice_of : ℕ → ℕ
slice_of n = if n == 0 then time_slice_default else n

-- The object after `raw_memset` and the assignments of `raw_task_create`.
new_task : ℕ → ℕ → Bool → Task
new_task task_prio time_slice auto_start = record {
  time_slice = slice_of time_slice;
  time_total = slice_of time_slice;
  sched_way = sched_rr;
  priority = task_prio;
  bpriority = task_prio;
  suspend_count = if auto_start then 0 else 1;
  mtxlist = [];
  tick_match = 0;
  tick_remain = 0;
  on_tick = false;
  msg = 0;
  task_state = if auto_start then rdy else suspended;
  block_status = b_ok;
  block_obj = none;
  suspend_option = 0;
  suspend_flags = 0;
  suspend_info = 0;
  msg_size = 0;
  qb_msg_size = 0;
  task_semaphore_obj = 0;
}

-- The stack is the port's (`port_stack_init`) and is not modelled, but for the test of its address.
pub raw_task_create : Kernel → ℕ → ℕ → ℕ → ℕ → ℕ → Bool → Kernel × RawOsError
unfolding new_task
raw_task_create k t task_prio time_slice task_stack_base task_entry auto_start =
    let k1 = if task_prio == idle_priority then record k { idle_task_exit = true } else k in
    let k2 = record (set_task k1 t (new_task task_prio time_slice auto_start)) {
      task_debug = k.task_debug ++ t ∷ [];
    } in
    let k3 = if auto_start then add_ready_list_end k2 t else k2 in
    if t == 0
    then (k, null_object)
    else if leb prio_max task_prio
    then (k, byond_max_priority)
    else if task_stack_base == 0
    then (k, null_pointer)
    else if task_entry == 0
    then (k, null_pointer)
    else if in_interrupt k
    then (k, not_called_by_isr)
    else if task_prio == idle_priority && k.idle_task_exit
    then (k, idle_exit)
    else if not k.raw_os_running
    then (k3, os_stopped)
    else ((if auto_start then raw_sched k3 else k3), success)

move_to_end : Kernel → ℕ → Kernel
move_to_end k t = record k { rq = RunQueue.move_to_ready_list_end k.rq t (k.tasks t).priority }

-- The running task leaves the ready list until its delay is over.
pub delay : Kernel → ℕ → ℕ → Kernel
delay k t dly_time = remove_ready_list (tick_list_insert (set_state k t dly) t dly_time) t

-- With no delay the task goes behind the others of its priority, and the result is `success`.
pub raw_sleep : Kernel → ℕ → Kernel × Outcome
unfolding move_to_end
raw_sleep k dly_time =
    let t = k.raw_task_active in
    if in_interrupt k
    then (k, returned not_called_by_isr)
    else if dly_time == 0
    then (raw_sched (move_to_end k t), returned success)
    else if is_locked k
    then (k, returned sched_disable)
    else (raw_sched (delay k t dly_time), blocked)

-- `raw_sleep` once its task runs again, if there was a delay.
pub raw_sleep_resume : Kernel → Kernel × RawOsError
raw_sleep_resume k = block_state_post_process k k.raw_task_active 0

-- `RAW_TICKS_PER_SECOND`
abbrev pub ticks_per_second : ℕ
ticks_per_second = 100

pub sleep_ticks : ℕ → ℕ → ℕ → ℕ → ℕ
sleep_ticks hours minutes seconds milli =
    let whole = (hours * 3600 + minutes * 60 + seconds) * ticks_per_second % u32_mod in
    let part = ticks_per_second * (milli + 500 / ticks_per_second) % u32_mod / 1000 in
    (whole + part) % u32_mod

pub raw_time_sleep : Kernel → ℕ → ℕ → ℕ → ℕ → Kernel × Outcome
unfolding sleep_ticks
raw_time_sleep k hours minutes seconds milli =
    let ticks = sleep_ticks hours minutes seconds milli in
    if in_interrupt k
    then (k, returned not_called_by_isr)
    else if ltb 9999 minutes
    then (k, returned invalid_minutes)
    else if ltb 999 hours
    then (k, returned invalid_hours)
    else if not (ticks == 0)
    then raw_sleep k ticks
    else (k, returned time_zero_sleep)
