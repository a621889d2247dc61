-- ===== src/WorkQueue.antt =====
-- extension/lib/raw_work_queue.c: work that a task does later, passed to it through a message queue in
-- cells of a free list that all work queues share. The address of a cell counts cells.
use raw_os.Shared.{ℕ, zero, suc, ◌+◌, ◌==◌, if◌then◌else◌, true, update, List}
use raw_os.Kernel.{Kernel, RawOsError, Outcome, success, work_queue_msg_max, wait_forever}
use raw_os.Kernel.Sched.{calculate_time_slice}
use raw_os.Queue.{raw_queue_create, raw_queue_end_post, raw_queue_receive}
use raw_os.Task.{raw_task_create}
use raw_os.Ticker.{tick_list_update}
use raw_os.Timer.{Timers}
use raw_os.Timer.Run.{call_timer_task}

-- The globals, with the fields of the `OBJECT_WORK_QUEUE_MSG` at each address.
pub record WorkCells : Type 0 where
  pub kernel : Kernel
  pub free_work_queue_msg : ℕ
  pub work_queue_msg_size : ℕ
  pub next : ℕ → ℕ
  pub arg : ℕ → ℕ
  pub msg : ℕ → ℕ
  pub handler : ℕ → ℕ

-- The tick of the kernel as a handler of work; the hook of the application is not run.
pub tick_work_handler : Timers → (arg : ℕ) → Timers
tick_work_handler s arg =
    call_timer_task (record s { kernel = calculate_time_slice (tick_list_update s.kernel) arg })

-- `msg_data->next = free_work_queue_msg; free_work_queue_msg = msg_data;`
abbrev free_cell : WorkCells → ℕ → WorkCells
free_cell w msg_data = record w {
  next = update w.next msg_data w.free_work_queue_msg;
  free_work_queue_msg = msg_data;
}

-- `wq` is the address of the queue in the `WORK_QUEUE_STRUCT`, `work_queue_task_obj` that of its task,
-- `storage` what stands at `msg_start`, and `work_queue_task` the address of the function.
pub work_queue_create :
    WorkCells
    → (wq work_queue_task_obj work_task_priority work_queue_stack_base msg_start work_msg_size : ℕ)
    → (storage : List ℕ) → (work_queue_task : ℕ) → WorkCells × RawOsError
work_queue_create w wq obj work_task_priority work_queue_stack_base msg_start work_msg_size storage
      task =
    create_task w obj work_task_priority work_queue_stack_base task
      (raw_queue_create w.kernel wq msg_start storage work_msg_size)
  where
    create_task :
        WorkCells
        → (obj priority stack_base task : ℕ) → Kernel × RawOsError
        → WorkCells × RawOsError
    create_task w obj priority stack_base task (k, success) =
        let (k', ret) = raw_task_create k obj priority 0 stack_base task true in
        (record w { kernel = k' }, ret)
    create_task w obj priority stack_base task (k, ret) = (record w { kernel = k }, ret)

-- A cell whose message was posted stays taken, any other goes back.
settle : WorkCells → ℕ → RawOsError → WorkCells × RawOsError
settle w msg_data success = (w, success)
settle w msg_data ret = (free_cell w msg_data, ret)

pub sche_work_queue : WorkCells → (wq arg msg handler : ℕ) → WorkCells × RawOsError
unfolding settle
sche_work_queue w wq arg msg handler =
    let msg_data = w.free_work_queue_msg in
    let (k, ret) = raw_queue_end_post w.kernel wq msg_data in
    let w' = record w {
      kernel = k;
      free_work_queue_msg = w.next msg_data;
      arg = update w.arg msg_data arg;
      msg = update w.msg msg_data msg;
      handler = update w.handler msg_data handler;
    } in
    if w.free_work_queue_msg == 0 then (w, work_queue_msg_max) else settle w' msg_data ret

-- The receive at the head of the loop of `work_queue_task`; `msg_recv` is the address of its variable.
pub work_queue_wait : WorkCells → (wq msg_recv : ℕ) → WorkCells × Outcome
work_queue_wait w wq msg_recv =
    let (k, ret) = raw_queue_receive w.kernel wq wait_forever msg_recv in
    (record w { kernel = k }, ret)

-- The rest of a round: the handler with its arguments, and the state once it has returned.
pub work_queue_round : WorkCells → (msg_recv : ℕ) → (ℕ × ℕ × ℕ) × WorkCells
work_queue_round w msg_recv =
    let cell = w.kernel.memory msg_recv in
    ((w.handler cell, w.arg cell, w.msg cell), free_cell w cell)

-- `while (--size)` from the cell `p_msg1` on, and the last cell behind the loop. A size of 0, with which
-- the source's count wraps and the loop runs past the cells, is not modelled: nothing is linked.
link_cells : (size p_msg1 : ℕ) → (ℕ → ℕ) → ℕ → ℕ
link_cells zero p_msg1 next = next
link_cells (suc zero) p_msg1 next = update next p_msg1 0
link_cells (suc (suc n)) p_msg1 next =
    link_cells (suc n) (p_msg1 + 1) (update next p_msg1 (p_msg1 + 1))

pub global_work_queue_init : WorkCells → (work_queue_msg size : ℕ) → WorkCells
unfolding link_cells
global_work_queue_init w work_queue_msg size = record w {
  work_queue_msg_size = size;
  free_work_queue_msg = work_queue_msg;
  next = link_cells size work_queue_msg w.next;
}
