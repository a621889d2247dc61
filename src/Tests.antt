-- ===== src/Tests.antt =====
-- Concrete kernels, with which the theorems are applied to inputs and the code is run.
mod Semaphores
mod Scheduling
mod Queues
mod Events
mod Priorities
mod Tasks
mod Mutexes
mod Blocks
mod SizedQueues
mod TimerRuns
mod IdleObjects
mod Buffers
use raw_os.Shared.{
  ℕ, ◌≡◌, ◌==◌, if◌then◌else◌, true, false, none, some, [], ◌∷◌, update, count, arith, Bool, List,
}
use raw_os.RunQueue.{RunQueue}
use raw_os.RunQueue.Valid.{IsValid}
use raw_os.MsgRing.{MsgQ}
use raw_os.QueueBuffer
use raw_os.MsgCells.{MsgCells, create}
use raw_os.Kernel.{
  Kernel, Task, TaskStatus, rdy, pend, pend_timeout, suspended, deleted, b_ok, sched_rr, way_prio,
  sem_obj, type_none, mutex_obj, event_obj, queue_obj, inherit_policy, ObjectType,
}
use raw_os.Kernel.Place.{WellFormed, Placed, place}

abbrev pub no_task : Task
no_task = record {
  time_slice = 50;
  time_total = 50;
  sched_way = sched_rr;
  priority = 0;
  bpriority = 0;
  suspend_count = 0;
  mtxlist = [];
  tick_match = 0;
  tick_remain = 0;
  on_tick = false;
  msg = 0;
  task_state = deleted;
  block_status = b_ok;
  block_obj = none;
  suspend_option = 0;
  suspend_flags = 0;
  suspend_info = 0;
  msg_size = 0;
  qb_msg_size = 0;
  task_semaphore_obj = 0;
}

-- Task 1 runs at priority 5, task 2 is the idle task.
abbrev pub running : Task
running = record no_task { priority = 5; bpriority = 5; task_state = rdy }

abbrev pub idle : Task
idle = record no_task { priority = 61; bpriority = 61; task_state = rdy }

-- Task 3 waits for the object 100, task 4 too, with a timeout. Were it an event, task 3 would ask for
-- the flag 1, to be cleared, and task 4 for both 2 and 4.
abbrev pub waiter : Task
waiter = record no_task {
  priority = 3;
  bpriority = 3;
  task_state = pend;
  block_obj = some 100;
  suspend_flags = 1;
  suspend_option = 1;
}

abbrev pub timed_waiter : Task
timed_waiter = record no_task {
  priority = 7;
  bpriority = 7;
  task_state = pend_timeout;
  on_tick = true;
  tick_match = 20;
  suspend_flags = 6;
  suspend_option = 2;
  block_obj = some 100;
}

abbrev pub test_queue : RunQueue
test_queue = record {
  highest_priority = 5;
  task_ready_list = update (update (λ p. []) 5 (1 ∷ [])) 61 (2 ∷ []);
  task_bit_map = update (update (λ p. false) 5 true) 61 true;
}

abbrev pub empty_ring : MsgQ
empty_ring = record {
  storage = 0 ∷ 0 ∷ 0 ∷ [];
  write = 0;
  read = 0;
  size = 3;
  current_numbers = 0;
  peak_numbers = 0;
}

abbrev pub empty_cells : MsgCells
empty_cells =
    create
      (record {
        free_msg = 0;
        peak_numbers = 0;
        write = 0;
        read = 0;
        queue_msg_size = 0;
        queue_current_msg = 0;
        next = λ a. 0;
        msg_ptr = λ a. 0;
        msg_size = λ a. 0;
      })
      50 3

-- The object 100 is of the type that a test asks for, and has no unit, message or owner.
abbrev pub base_kernel : ObjectType → Kernel
base_kernel type = record {
  rq = test_queue;
  block_list = λ o. [];
  tick_list = [];
  tasks = update (update (λ t. no_task) 1 running) 2 idle;
  objects =
      λ o. record { block_way = way_prio; object_type = if o == 100 then type else type_none };
  semaphores = λ o. record { count = 0; peak_count = 0; semphore_send_notify = none };
  mutexes =
      λ o. record { mtxtsk = none; policy = inherit_policy; ceiling_prio = 0; owner_nested = 0 };
  events = λ o. record { flags = 0 };
  queue_buffers = λ o. QueueBuffer.create (λ i. 0) 16 12;
  queue_sizes = λ o. record { msg_cells = empty_cells; queue_size_full_callback = none };
  queues = λ o. record { msg_q = empty_ring; queue_send_notify = none; queue_full_callback = none };
  raw_task_active = 1;
  high_ready_obj = some 1;
  raw_int_nesting = 0;
  raw_sched_lock = 0;
  raw_tick_count = 10;
  raw_os_running = true;
  idle_task_exit = true;
  task_debug = 1 ∷ 2 ∷ [];
  mutex_recursion_levels = 0;
  mutex_recursion_max_levels = 0;
  memory = λ a. 0;
  calls = [];
}

abbrev pub waiting_kernel : ObjectType → Kernel
waiting_kernel type = record (base_kernel type) {
  block_list = update (λ o. []) 100 (3 ∷ 4 ∷ []);
  tick_list = 4 ∷ [];
  tasks = update (update (update (update (λ t. no_task) 1 running) 2 idle) 3 waiter) 4 timed_waiter;
}

pub test_queue-IsValid : IsValid test_queue
test_queue-IsValid = record {
  bits = λ p lt. ground arith;
  least = λ p lt ne. ground arith;
  attained = λ lt. ground arith;
  range = omega arith;
}

pub base_kernel-WellFormed : (type : ObjectType) → WellFormed (base_kernel type)
unfolding count
base_kernel-WellFormed type = record {
  placed = record { in_ready = λ t p. ground arith; in_block = λ t o. ground arith };
  queue = test_queue-IsValid;
  range = λ t. ground arith;
  ticks = λ t. ground arith;
  timers = λ t. ground arith;
}

pub waiting_kernel-WellFormed : (type : ObjectType) → WellFormed (waiting_kernel type)
unfolding count
waiting_kernel-WellFormed type = record {
  placed = record { in_ready = λ t p. ground arith; in_block = λ t o. ground arith };
  queue = test_queue-IsValid;
  range = λ t. ground arith;
  ticks = λ t. ground arith;
  timers = λ t. ground arith;
}
