-- ===== src/Task/Control.antt =====
-- raw_task.c: change of priority, time slices, abort of a wait, deletion.
use raw_os.Shared.{ℕ, leb, ◌==◌, if◌then◌else◌, ◌&&◌, none, erase, update}
use raw_os.Kernel.{
  Kernel, TaskStatus, SchedWay, RawOsError, set_task, rdy, pend, pend_timeout,
  pend_timeout_suspended, suspended, pend_suspended, dly, dly_suspended, deleted, invalid_state,
  b_abort, in_interrupt, is_locked, success, null_object, not_called_by_isr, sched_disable,
  state_unknown, change_priority_not_allowed, delete_task_not_allowed,
}
use raw_os.Kernel.Sched.{raw_sched}
use raw_os.Kernel.Tick.{tick_list_remove}
use raw_os.Kernel.Pend.{set_state, remove_ready_list, add_ready_list, list_delete}
use raw_os.Priority.{change_internal_task_priority, chg_pri_mutex, mutex_state_change}
use raw_os.Mutex.{raw_task_free_mutex}
use raw_os.Task.{idle_priority, time_slice_default}

-- `old_priority` is where the old priority is stored.
finish_change : Kernel → ℕ → ℕ → ℕ → ℕ × RawOsError → Kernel × RawOsError
finish_change k t new_priority old_priority (allowed, success) =
    let k1 = set_task k t (record (k.tasks t) { bpriority = new_priority }) in
    let k2 = record k1 { memory = update k1.memory old_priority (k.tasks t).priority } in
    let (k3, error) = change_internal_task_priority k2 t allowed in
    elim error [ success ↦ (raw_sched k3, success) | other ↦ (k3, other) ]
finish_change k t new_priority old_priority (allowed, other) = (k, other)

pub raw_task_priority_change : Kernel → ℕ → ℕ → ℕ → Kernel × RawOsError
unfolding finish_change
raw_task_priority_change k t new_priority old_priority =
    if in_interrupt k
    then (k, not_called_by_isr)
    else if t == 0
    then (k, null_object)
    else if old_priority == 0
    then (k, null_object)
    else if leb idle_priority (k.tasks t).priority
    then (k, change_priority_not_allowed)
    else if new_priority == idle_priority
    then (k, change_priority_not_allowed)
    else finish_change k t new_priority old_priority (chg_pri_mutex k t new_priority)

pub raw_task_time_slice_change : Kernel → ℕ → ℕ → Kernel × RawOsError
raw_task_time_slice_change k t new_time_slice =
    let n = if new_time_slice == 0 then time_slice_default else new_time_slice in
    if t == 0
    then (k, null_object)
    else if in_interrupt k
    then (k, not_called_by_isr)
    else (set_task k t (record (k.tasks t) { time_total = n; time_slice = n }), success)

-- A policy of another value is refused by the source; the type has none.
pub raw_set_sched_way : Kernel → ℕ → SchedWay → Kernel × RawOsError
raw_set_sched_way k t policy =
    if t == 0
    then (k, null_object)
    else if in_interrupt k
    then (k, not_called_by_isr)
    else (set_task k t (record (k.tasks t) { sched_way = policy }), success)

-- A task that waits or sleeps is ready at once.
abort_delay : Kernel → ℕ → Kernel
abort_delay k t =
    let k1 = add_ready_list (tick_list_remove k t) t in
    set_task k1 t (record (k1.tasks t) { task_state = rdy; block_status = b_abort })

abort_pend : Kernel → ℕ → Kernel
abort_pend k t =
    let k1 = add_ready_list (list_delete (tick_list_remove k t) t) t in
    let k2 = set_task k1 t (record (k1.tasks t) { task_state = rdy; block_status = b_abort }) in
    let k3 = mutex_state_change k2 t in set_task k3 t (record (k3.tasks t) { block_obj = none })

abort_in_state : Kernel → ℕ → TaskStatus → Kernel × RawOsError
unfolding abort_delay abort_pend
abort_in_state k t rdy = (raw_sched k, success)
abort_in_state k t suspended = (raw_sched (add_ready_list (set_state k t rdy) t), success)
abort_in_state k t dly = (raw_sched (abort_delay k t), success)
abort_in_state k t dly_suspended = (raw_sched (abort_delay k t), success)
abort_in_state k t pend = (raw_sched (abort_pend k t), success)
abort_in_state k t pend_suspended = (raw_sched (abort_pend k t), success)
abort_in_state k t pend_timeout = (raw_sched (abort_pend k t), success)
abort_in_state k t pend_timeout_suspended = (raw_sched (abort_pend k t), success)
abort_in_state k t deleted = (k, state_unknown)
abort_in_state k t invalid_state = (k, state_unknown)

-- The hook of the application is not modelled.
pub raw_task_wait_abort : Kernel → ℕ → Kernel × RawOsError
unfolding abort_in_state
raw_task_wait_abort k t =
    if t == 0
    then (k, null_object)
    else if in_interrupt k
    then (k, not_called_by_isr)
    else abort_in_state k t (k.tasks t).task_state

delete_pending : Kernel → ℕ → Kernel
delete_pending k t =
    mutex_state_change (set_state (list_delete (tick_list_remove k t) t) t deleted) t

abbrev finish_delete : Kernel → ℕ → Kernel × RawOsError
finish_delete k t =
    let k1 = set_state k t deleted in
    (raw_sched (record k1 { task_debug = erase t k1.task_debug }), success)

delete_in_state : Kernel → ℕ → TaskStatus → Kernel × RawOsError
unfolding delete_pending
delete_in_state k t rdy = finish_delete (remove_ready_list k t) t
delete_in_state k t suspended = finish_delete k t
delete_in_state k t dly = finish_delete (tick_list_remove k t) t
delete_in_state k t dly_suspended = finish_delete (tick_list_remove k t) t
delete_in_state k t pend = finish_delete (delete_pending k t) t
delete_in_state k t pend_suspended = finish_delete (delete_pending k t) t
delete_in_state k t pend_timeout = finish_delete (delete_pending k t) t
delete_in_state k t pend_timeout_suspended = finish_delete (delete_pending k t) t
delete_in_state k t deleted = (k, state_unknown)
delete_in_state k t invalid_state = (k, state_unknown)

pub raw_task_delete : Kernel → ℕ → Kernel × RawOsError
unfolding delete_in_state
raw_task_delete k t =
    let k1 = raw_task_free_mutex k t in
    if t == 0
    then (k, null_object)
    else if in_interrupt k
    then (k, not_called_by_isr)
    else if (k.tasks t).priority == idle_priority
    then (k, delete_task_not_allowed)
    else if t == k.raw_task_active && is_locked k
    then (k, sched_disable)
    else delete_in_state k1 t (k1.tasks t).task_state
