-- ===== src/Kernel/Sched.antt =====
-- raw_sched.c: the choice of the next task, and time slices.
pub mod Choice
pub mod Best
use raw_os.Shared.{
  ℕ, zero, ◌-◌, Bool, true, false, ◌||◌, ◌&&◌, not, ◌==◌, if◌then◌else◌, Option, none, some, List,
  [], ◌∷◌,
}
use raw_os.RunQueue.{RunQueue, get_ready_task, move_to_ready_list_end}
use raw_os.Kernel.{Kernel, Task, set_task, context_switch, SchedWay, sched_fifo, sched_rr}

-- `RAW_TASK_OBJ *high_ready_obj` where the highest list is empty is `none`, and no task.
switch_to : Kernel → Option ℕ → Kernel
switch_to k none = k
switch_to k (some t) =
    if t == k.raw_task_active
    then k
    else record k { calls = context_switch k.raw_task_active t ∷ k.calls }

pub raw_sched : Kernel → Kernel
unfolding switch_to
raw_sched k =
    let high = get_ready_task k.rq in
    if not (k.raw_int_nesting == 0) || not (k.raw_sched_lock == 0)
    then k
    else switch_to (record k { high_ready_obj = high }) high

-- `task_ptr->time_slice--` where it is not 0
abbrev count_down : ℕ → ℕ
count_down n = if n == 0 then 0 else n - 1

is_fifo : SchedWay → Bool
is_fifo sched_fifo = true
is_fifo sched_rr = false

-- The ready list of the priority, by the number of tasks on it.
slice_of_list : Kernel → List ℕ → Kernel
unfolding is_fifo
slice_of_list k [] = k
slice_of_list k (t ∷ []) = k
slice_of_list k (t ∷ u ∷ rest) =
    let task = k.tasks t in
    let left = count_down task.time_slice in
    if is_fifo task.sched_way
    then k
    else if left == 0
    then set_task (record k { rq = move_to_ready_list_end k.rq t task.priority }) t
        (record task { time_slice = task.time_total })
    else set_task k t (record task { time_slice = left })

pub calculate_time_slice : Kernel → ℕ → Kernel
unfolding slice_of_list
calculate_time_slice k task_prio = slice_of_list k (k.rq.task_ready_list task_prio)
