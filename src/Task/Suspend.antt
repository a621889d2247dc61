-- ===== src/Task/Suspend.antt =====
-- raw_task.c: suspension and resumption, counted in `suspend_count`.
pub mod Keep
use raw_os.Shared.{ℕ, ◌+◌, ◌%◌, leb, ◌==◌, if◌then◌else◌, ◌&&◌}
use raw_os.Kernel.{
  Kernel, TaskStatus, RawOsError, set_task, rdy, pend, pend_timeout, pend_timeout_suspended,
  suspended, pend_suspended, dly, dly_suspended, deleted, invalid_state, is_locked, success,
  null_object, sched_disable, suspend_task_not_allowed, suspended_count_overflowed, state_unknown,
  has_not_suspended,
}
use raw_os.Kernel.Sched.{raw_sched}
use raw_os.Kernel.Pend.{remove_ready_list, add_ready_list}
use raw_os.Task.{idle_priority}

-- `task_ptr->suspend_count = 1` with the new state
suspend_first : Kernel → ℕ → TaskStatus → Kernel
suspend_first k t s = set_task k t (record (k.tasks t) { suspend_count = 1; task_state = s })

-- `task_ptr->suspend_count++`, a byte
suspend_again : Kernel → ℕ → Kernel × RawOsError
suspend_again k t =
    let n = ((k.tasks t).suspend_count + 1) % 256 in
    let k1 = set_task k t (record (k.tasks t) { suspend_count = n }) in
    if leb 250 n then (k1, suspended_count_overflowed) else (raw_sched k1, success)

suspend_in_state : Kernel → ℕ → TaskStatus → Kernel × RawOsError
unfolding suspend_first suspend_again
suspend_in_state k t rdy = (raw_sched (remove_ready_list (suspend_first k t suspended) t), success)
suspend_in_state k t dly = (raw_sched (suspend_first k t dly_suspended), success)
suspend_in_state k t pend = (raw_sched (suspend_first k t pend_suspended), success)
suspend_in_state k t pend_timeout = (raw_sched (suspend_first k t pend_timeout_suspended), success)
suspend_in_state k t suspended = suspend_again k t
suspend_in_state k t dly_suspended = suspend_again k t
suspend_in_state k t pend_suspended = suspend_again k t
suspend_in_state k t pend_timeout_suspended = suspend_again k t
suspend_in_state k t deleted = (k, state_unknown)
suspend_in_state k t invalid_state = (k, state_unknown)

pub task_suspend : Kernel → ℕ → Kernel × RawOsError
unfolding suspend_in_state
task_suspend k t =
    if t == k.raw_task_active && is_locked k
    then (k, sched_disable)
    else suspend_in_state k t (k.tasks t).task_state

pub raw_task_suspend : Kernel → ℕ → Kernel × RawOsError
raw_task_suspend k t =
    if t == 0
    then (k, null_object)
    else if (k.tasks t).priority == idle_priority
    then (k, suspend_task_not_allowed)
    else task_suspend k t

-- `task_ptr->suspend_count--`, a byte; at 0 the task takes the state `s`.
resume_once : Kernel → ℕ → TaskStatus → Kernel
resume_once k t s =
    let x = k.tasks t in
    let n = (x.suspend_count + 255) % 256 in
    set_task k t (record x { suspend_count = n; task_state = if n == 0 then s else x.task_state })

resume_ready : Kernel → ℕ → Kernel
unfolding resume_once
resume_ready k t =
    let k1 = resume_once k t rdy in
    if ((k1.tasks t).suspend_count) == 0 then add_ready_list k1 t else k1

resume_in_state : Kernel → ℕ → TaskStatus → Kernel × RawOsError
unfolding resume_ready
resume_in_state k t rdy = (k, has_not_suspended)
resume_in_state k t dly = (k, has_not_suspended)
resume_in_state k t pend = (k, has_not_suspended)
resume_in_state k t pend_timeout = (k, has_not_suspended)
resume_in_state k t suspended = (raw_sched (resume_ready k t), success)
resume_in_state k t dly_suspended = (raw_sched (resume_once k t dly), success)
resume_in_state k t pend_suspended = (raw_sched (resume_once k t pend), success)
resume_in_state k t pend_timeout_suspended = (raw_sched (resume_once k t pend_timeout), success)
resume_in_state k t deleted = (k, state_unknown)
resume_in_state k t invalid_state = (k, state_unknown)

pub task_resume : Kernel → ℕ → Kernel × RawOsError
unfolding resume_in_state
task_resume k t = resume_in_state k t (k.tasks t).task_state

pub raw_task_resume : Kernel → ℕ → Kernel × RawOsError
raw_task_resume k t = if t == 0 then (k, null_object) else task_resume k t
