-- ===== src/Kernel/Pend.antt =====
-- raw_pend.c: how a task blocks on an object and is woken.
pub mod Wake
pub mod Order
pub mod Drain
pub mod First
pub mod Ready
pub mod Block
pub mod Change
pub mod Leave
pub mod Join
use raw_os.Shared.{
  ℕ, zero, suc, ◌+◌, Bool, true, false, ltb, ◌==◌, if◌then◌else◌, Option, none, some, List, [], ◌∷◌,
  ◌++◌, erase, update,
}
use raw_os.RunQueue
use raw_os.RunQueue.{RunQueue}
use raw_os.Kernel.{
  Kernel, Task, TaskStatus, BlockState, BlockWay, RawOsError, set_task, wait_forever, system_error,
  rdy, pend, pend_timeout, pend_timeout_suspended, suspended, pend_suspended, dly, dly_suspended,
  deleted, invalid_state, b_ok, b_abort, b_timeout, b_del, way_fifo, way_prio,
}
use raw_os.Kernel.Tick.{tick_list_insert, tick_list_remove}

-- The position in a block list sorted by priority: behind the tasks as urgent as this one.
pub add_to_priority_list : (ℕ → Task) → ℕ → ℕ → List ℕ → List ℕ
add_to_priority_list tasks val t [] = t ∷ []
add_to_priority_list tasks val t (q ∷ rest) =
    if ltb val (tasks q).priority then t ∷ q ∷ rest else q ∷ add_to_priority_list tasks val t rest

-- `list_delete(&task_ptr->task_list)`
pub list_delete : Kernel → ℕ → Kernel
list_delete k t = record k {
  rq = RunQueue.unlink k.rq t;
  block_list = λ o. erase t (k.block_list o);
}

-- `port_system_error_process(e, 0, …)`
abbrev pub raise : Kernel → RawOsError → Kernel
raise k e = record k { calls = system_error e ∷ k.calls }

abbrev critical_errors : Kernel → ℕ → Kernel
critical_errors k zero = k
critical_errors k (suc n) = raise k RawOsError.system_critical_error

abbrev pub set_state : Kernel → ℕ → TaskStatus → Kernel
set_state k t s = set_task k t (record (k.tasks t) { task_state = s })

-- The ready list operations on the kernel's run queue, for a task at its priority.
pub add_ready_list : Kernel → ℕ → Kernel
add_ready_list k t = record k {
  rq = RunQueue.add_ready_list k.rq (k.tasks k.raw_task_active).priority t (k.tasks t).priority;
}

pub add_ready_list_head : Kernel → ℕ → Kernel
add_ready_list_head k t = record k { rq = RunQueue.add_ready_list_head k.rq t (k.tasks t).priority }

pub add_ready_list_end : Kernel → ℕ → Kernel
add_ready_list_end k t = record k { rq = RunQueue.add_ready_list_end k.rq t (k.tasks t).priority }

-- The task leaves the list it is in, which is a ready list or, as a task not ready is never removed,
-- no other.
pub remove_ready_list : Kernel → ℕ → Kernel
remove_ready_list k t =
    let (rq, errors) = RunQueue.remove_ready_list k.rq t (k.tasks t).priority in
    critical_errors (record k { rq = rq }) errors

-- The `switch` of `pend_task_wake_up` and of `delete_pend_obj`, which are the same.
pub leave_block_list : Kernel → ℕ → TaskStatus → Kernel
unfolding list_delete add_ready_list
leave_block_list k t pend = set_state (add_ready_list (list_delete k t) t) t rdy
leave_block_list k t pend_timeout = set_state (add_ready_list (list_delete k t) t) t rdy
leave_block_list k t pend_suspended = set_state (list_delete k t) t suspended
leave_block_list k t pend_timeout_suspended = set_state (list_delete k t) t suspended
leave_block_list k t rdy = raise k RawOsError.system_critical_error
leave_block_list k t suspended = raise k RawOsError.system_critical_error
leave_block_list k t dly = raise k RawOsError.system_critical_error
leave_block_list k t dly_suspended = raise k RawOsError.system_critical_error
leave_block_list k t deleted = raise k RawOsError.system_critical_error
leave_block_list k t invalid_state = raise k RawOsError.system_critical_error

pub unblock : Kernel → ℕ → BlockState → Kernel
unfolding leave_block_list
unblock k t status =
    let k1 = tick_list_remove (leave_block_list k t (k.tasks t).task_state) t in
    set_task k1 t (record (k1.tasks t) { block_status = status; block_obj = none })

pub raw_wake_object : Kernel → ℕ → Kernel
unfolding unblock
raw_wake_object k t = unblock k t b_ok

pub wake_send_msg_size : Kernel → ℕ → ℕ → ℕ → Kernel
unfolding unblock
wake_send_msg_size k t msg size =
    unblock (set_task k t (record (k.tasks t) { msg = msg; msg_size = size })) t b_ok

pub wake_send_msg : Kernel → ℕ → ℕ → Kernel
unfolding unblock
wake_send_msg k t msg = unblock (set_task k t (record (k.tasks t) { msg = msg })) t b_ok

pub delete_pend_obj : Kernel → ℕ → Kernel
unfolding unblock
delete_pend_obj k t = unblock k t b_del

pub insert_blocked : BlockWay → (ℕ → Task) → ℕ → List ℕ → List ℕ
unfolding add_to_priority_list
insert_blocked way_fifo tasks t l = l ++ t ∷ []
insert_blocked way_prio tasks t l = add_to_priority_list tasks (tasks t).priority t l

-- The first half of `raw_pend_object`: the task notes the object, its deadline and its state.
pub mark_blocked : Kernel → ℕ → ℕ → ℕ → Kernel
mark_blocked k o t timeout =
    let k1 = set_task k t (record (k.tasks t) { block_obj = some o }) in
    if timeout == wait_forever
    then set_state k1 t pend
    else set_state (tick_list_insert k1 t timeout) t pend_timeout

pub raw_pend_object : Kernel → ℕ → ℕ → ℕ → Kernel
raw_pend_object k o t timeout =
    let k1 = remove_ready_list (mark_blocked k o t timeout) t in
    let way = (k1.objects o).block_way in
    record k1 {
      block_list = update k1.block_list o (insert_blocked way k1.tasks t (k1.block_list o));
    }

change_block_list : Kernel → ℕ → Option ℕ → Kernel
unfolding add_to_priority_list list_delete
change_block_list k t none = k
change_block_list k t (some o) =
    let k1 = list_delete k t in
    elim (k.objects o).block_way [
      | way_prio ↦ record k1 {
        block_list =
            update k1.block_list o
              (add_to_priority_list k.tasks (k.tasks t).priority t (k1.block_list o));
      }
      | way_fifo ↦ k
    ]

-- The task is blocked, so `block_obj` is not null.
pub change_pend_list_priority : Kernel → ℕ → Kernel
unfolding change_block_list
change_pend_list_priority k t = change_block_list k t (k.tasks t).block_obj

-- `while (!is_list_empty(head)) f(first task)`, with a bound on the rounds. Each round takes its task
-- off the list, so the length of the list is bound enough.
unfoldable pub drain : (Kernel → ℕ → Kernel) → ℕ → Kernel → ℕ → Kernel
drain f zero k o = k
drain f (suc fuel) k o = elim (k.block_list o) [ [] ↦ k | t ∷ rest ↦ drain f fuel (f k t) o ]
