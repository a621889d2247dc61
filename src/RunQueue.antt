-- ===== src/RunQueue.antt =====
-- The run queue: `RAW_RUN_QUEUE` of include/raw_obj.h and its operations in raw_pend.c.
-- A ready list is the sequence of the tasks that its `LIST` ring links, first task first; a task is
-- named by a number, its address. An operation takes `task_ptr` and `task_ptr->priority`.
pub mod Valid
pub mod Lists
use raw_os.Shared.{
  ℕ, ◌+◌, ◌-◌, Bool, true, false, ltb, ◌==◌, if◌then◌else◌, Option, none, some, List, [], ◌∷◌, ◌++◌,
  update, is_empty, head?, erase,
}
use raw_os.Bits.{BitMap, bit_set, bit_clear, bit_search_first_one}

-- `CONFIG_RAW_PRIO_MAX` of include/raw_config.h
abbrev pub prio_max : ℕ
prio_max = 62

pub record RunQueue : Type 0 where
  pub highest_priority : ℕ
  pub task_ready_list : ℕ → List ℕ
  pub task_bit_map : BitMap

-- The bit map is static storage: `run_queue_init` leaves it as it is.
pub run_queue_init : RunQueue → RunQueue
run_queue_init rq = record rq {
  highest_priority = prio_max;
  task_ready_list = λ p. if ltb p prio_max then [] else rq.task_ready_list p;
}

raise_highest : RunQueue → ℕ → RunQueue
raise_highest rq priority =
    if ltb priority rq.highest_priority then record rq { highest_priority = priority } else rq

pub add_ready_list_head : RunQueue → ℕ → ℕ → RunQueue
unfolding raise_highest bit_set
add_ready_list_head rq task priority =
    raise_highest
      (record rq {
        task_ready_list = update rq.task_ready_list priority (task ∷ rq.task_ready_list priority);
        task_bit_map = bit_set rq.task_bit_map priority;
      })
      priority

pub add_ready_list_end : RunQueue → ℕ → ℕ → RunQueue
unfolding raise_highest bit_set
add_ready_list_end rq task priority =
    raise_highest
      (record rq {
        task_ready_list =
            update rq.task_ready_list priority (rq.task_ready_list priority ++ task ∷ []);
        task_bit_map = bit_set rq.task_bit_map priority;
      })
      priority

-- `active` is `raw_task_active->priority`
pub add_ready_list : RunQueue → ℕ → ℕ → ℕ → RunQueue
unfolding add_ready_list_head add_ready_list_end
add_ready_list rq active task priority =
    if priority == active
    then add_ready_list_end rq task priority
    else add_ready_list_head rq task priority

-- `list_delete(&task_ptr->task_list)` as the ready lists see it: the task leaves the list it is in.
pub unlink : RunQueue → ℕ → RunQueue
unlink rq task = record rq { task_ready_list = λ p. erase task (rq.task_ready_list p) }

-- The end of `remove_ready_list`, where the last task of the highest priority has left. The number is
-- the count of calls of `port_system_error_process`.
next_highest : RunQueue → ℕ → Option ℕ → RunQueue × ℕ
next_highest rq priority (some i) = (record rq { highest_priority = priority + i }, 0)
next_highest rq priority none = (rq, 1)

pub remove_ready_list : RunQueue → ℕ → ℕ → RunQueue × ℕ
unfolding unlink next_highest bit_clear
remove_ready_list rq task priority =
    let rq1 = unlink rq task in
    let rq2 = record rq1 { task_bit_map = bit_clear rq1.task_bit_map priority } in
    let i = bit_search_first_one rq2.task_bit_map priority (prio_max - priority) in
    if is_empty (rq1.task_ready_list priority)
    then if priority == rq1.highest_priority then next_highest rq2 priority i else (rq2, 0)
    else (rq1, 0)

pub move_to_ready_list_end : RunQueue → ℕ → ℕ → RunQueue
unfolding unlink
move_to_ready_list_end rq task priority =
    let rq1 = unlink rq task in
    record rq1 {
      task_ready_list =
          update rq1.task_ready_list priority (rq1.task_ready_list priority ++ task ∷ []);
    }

-- `high_ready_obj`; `none` where the list of the highest priority is empty, and the source takes the
-- list head for a task.
pub get_ready_task : RunQueue → Option ℕ
get_ready_task rq = head? (rq.task_ready_list rq.highest_priority)
