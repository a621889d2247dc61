-- ===== src/Kernel.antt =====
-- The state of the kernel: include/raw_obj.h, the globals of raw-os.c, and the fields of the objects
-- that tasks block on.
-- Tasks, objects and memory cells are named by their addresses. An argument that is a null pointer is
-- the address 0, and a field that is one is `none`. Each `LIST` ring is the sequence of the tasks that
-- it links, first task first. A task's `task_list` node is in one ring at most, a ready list or a block list, so `list_delete` takes the
-- task out of whichever holds it. What the port or the application implements is not run: each such
-- call is added to `calls`, newest first. The state after `CONTEXT_SWITCH` is that of the call.
pub mod Sched
pub mod Tick
pub mod Pend
pub mod System
pub mod Place
pub mod Frame
use raw_os.Shared.{ℕ, Bool, Option, List, update, ◌==◌, not}
use raw_os.RunQueue.{RunQueue}
use raw_os.MsgRing.{MsgQ}
use raw_os.MsgCells.{MsgCells}
use raw_os.QueueBuffer.{QueueBuffer}

-- `RAW_OS_ERROR`
pub data RawOsError : Type 0 where
  success idle_exit task_0_exit system_error os_running os_stopped no_pend_wait sched_disable
        block_abort block_timeout block_del msg_max msg_empty sched_locked sched_invalid
        sched_overflow state_unknown suspended_count_overflowed has_not_suspended byond_max_priority
        same_priority semaphore_overflow semaphore_task_waiting mutex_not_release_by_occypy
        mutex_owner_nested mutex_boosted_max exceed_ceiling_priority ceiling_priority_not_allowed
        mutex_no_policy no_memory obj_invalidate_state timer_has_actived timer_has_not_actived
        timer_state_invalid timer_invalid_ticks null_pointer byte_align_error null_object
        invalid_sched_way not_called_by_isr not_called_by_task zero_number highest_task_exit
        change_priority_not_allowed mutex_holder_priority_changed delete_task_not_allowed
        suspend_task_not_allowed no_this_option block_size_error byte_size_error pool_size_invalid
        invalid_align invalid_poin queue_full_opt_error error_object_type idle_event_exhausted
        invalid_hours invalid_minutes time_zero_sleep queue_buffer_size_0 queue_buffer_invalid_size
        queue_buffer_full exceed_queue_buffer_msg_size exceed_int_nested_level idle_tick_add_failed
        idle_tick_delete_failed work_queue_msg_max int_msg_handler_error
        mutex_recursion_levels_exceeded system_critical_error queue_check_full queue_check_not_full
        queue_size_check_full queue_size_check_not_full mutex_nested_overflow invalid_task_state :
      RawOsError

pub data TaskStatus : Type 0 where
  rdy pend pend_timeout pend_timeout_suspended suspended pend_suspended dly dly_suspended deleted
        invalid_state :
      TaskStatus

pub data BlockState : Type 0 where
  b_ok b_abort b_timeout b_del : BlockState

pub data ObjectType : Type 0 where
  type_none sem_obj mutex_obj queue_obj queue_buffer_obj queue_size_obj byte_obj block_obj_type
        timer_obj event_obj mqueue_obj :
      ObjectType

pub data BlockWay : Type 0 where
  way_fifo way_prio : BlockWay

pub data SchedWay : Type 0 where
  sched_fifo sched_rr : SchedWay

pub data MutexPolicy : Type 0 where
  ceiling_policy inherit_policy none_policy : MutexPolicy

-- `RAW_TASK_OBJ`. `on_tick` says that `tick_head` is not null. `mtxlist` is the chain of the mutexes
-- that the task holds, linked through `mtxlist` of `RAW_MUTEX`.
pub record Task : Type 0 where
  pub time_slice : ℕ
  pub time_total : ℕ
  pub sched_way : SchedWay
  pub priority : ℕ
  pub bpriority : ℕ
  pub suspend_count : ℕ
  pub mtxlist : List ℕ
  pub tick_match : ℕ
  pub tick_remain : ℕ
  pub on_tick : Bool
  pub msg : ℕ
  pub task_state : TaskStatus
  pub block_status : BlockState
  pub block_obj : Option ℕ
  pub suspend_option : ℕ
  pub suspend_flags : ℕ
  pub suspend_info : ℕ
  pub msg_size : ℕ
  pub qb_msg_size : ℕ
  pub task_semaphore_obj : ℕ

-- `RAW_COMMON_BLOCK_OBJECT` without its list and its name
pub record BlockObject : Type 0 where
  pub block_way : BlockWay
  pub object_type : ObjectType

pub record Semaphore : Type 0 where
  pub count : ℕ
  pub peak_count : ℕ
  pub semphore_send_notify : Option ℕ

pub record Mutex : Type 0 where
  pub mtxtsk : Option ℕ
  pub policy : MutexPolicy
  pub ceiling_prio : ℕ
  pub owner_nested : ℕ

pub record Event : Type 0 where
  pub flags : ℕ

-- `RAW_QUEUE` without its common part
pub record Queue : Type 0 where
  pub msg_q : MsgQ
  pub queue_send_notify : Option ℕ
  pub queue_full_callback : Option ℕ

-- `RAW_QUEUE_SIZE` without its common part
pub record QueueSize : Type 0 where
  pub msg_cells : MsgCells
  pub queue_size_full_callback : Option ℕ

-- A call of code that is not the kernel's: the port's context switch (from, to) and error handler,
-- and the functions that the application registered, with their arguments.
pub data Call : Type 0 where
  context_switch : ℕ → ℕ → Call
  system_error : RawOsError → Call
  notify : ℕ → ℕ → Call
  callback : ℕ → ℕ → ℕ → Call
  timeout : ℕ → ℕ → Call
  size_callback : ℕ → ℕ → ℕ → ℕ → Call

pub record Kernel : Type 0 where
  pub rq : RunQueue
  pub block_list : ℕ → List ℕ
  pub tick_list : List ℕ
  pub tasks : ℕ → Task
  pub objects : ℕ → BlockObject
  pub semaphores : ℕ → Semaphore
  pub mutexes : ℕ → Mutex
  pub events : ℕ → Event
  pub queues : ℕ → Queue
  pub queue_sizes : ℕ → QueueSize
  pub queue_buffers : ℕ → QueueBuffer
  pub raw_task_active : ℕ
  pub high_ready_obj : Option ℕ
  pub raw_int_nesting : ℕ
  pub raw_sched_lock : ℕ
  pub raw_tick_count : ℕ
  pub raw_os_running : Bool
  pub idle_task_exit : Bool
  pub task_debug : List ℕ
  pub mutex_recursion_levels : ℕ
  pub mutex_recursion_max_levels : ℕ
  pub memory : ℕ → ℕ
  pub calls : List Call

-- A field assignment through a task, semaphore, mutex or event pointer.
abbrev pub set_task : Kernel → ℕ → Task → Kernel
set_task k t x = record k { tasks = update k.tasks t x }

abbrev pub set_semaphore : Kernel → ℕ → Semaphore → Kernel
set_semaphore k o s = record k { semaphores = update k.semaphores o s }

abbrev pub set_mutex : Kernel → ℕ → Mutex → Kernel
set_mutex k o m = record k { mutexes = update k.mutexes o m }

abbrev pub set_event : Kernel → ℕ → Event → Kernel
set_event k o e = record k { events = update k.events o e }

abbrev pub set_queue : Kernel → ℕ → Queue → Kernel
set_queue k o q = record k { queues = update k.queues o q }

abbrev pub set_queue_size : Kernel → ℕ → QueueSize → Kernel
set_queue_size k o q = record k { queue_sizes = update k.queue_sizes o q }

abbrev pub set_queue_buffer : Kernel → ℕ → QueueBuffer → Kernel
set_queue_buffer k o q = record k { queue_buffers = update k.queue_buffers o q }

abbrev pub set_object : Kernel → ℕ → BlockObject → Kernel
set_object k o b = record k { objects = update k.objects o b }

-- The widths of `RAW_TICK_TYPE`, `RAW_PROCESSOR_UINT` and `RAW_U32`, and `RAW_WAIT_FOREVER`, as the
-- comments of raw_sem.c give them.
abbrev pub u32_mod : ℕ
u32_mod = 4294967296

abbrev pub wait_forever : ℕ
wait_forever = 4294967295

-- The result of a call that may block: the error code that it returns, or that the active task is
-- blocked and `block_state_post_process` gives the code once the task runs again.
pub data Outcome : Type 0 where
  returned : RawOsError → Outcome
  blocked : Outcome

-- The values of `RAW_OBJECT_TYPE`
abbrev pub type_code : ObjectType → ℕ
type_code type_none = 0
type_code sem_obj = 1
type_code mutex_obj = 2
type_code queue_obj = 3
type_code queue_buffer_obj = 4
type_code queue_size_obj = 5
type_code byte_obj = 6
type_code block_obj_type = 7
type_code timer_obj = 8
type_code event_obj = 9
type_code mqueue_obj = 10

-- `common_block_obj.object_type != type`
abbrev pub wrong_type : Kernel → ℕ → ObjectType → Bool
wrong_type k o type = not (type_code (k.objects o).object_type == type_code type)

-- `if (raw_int_nesting)`, `if (raw_sched_lock)`
abbrev pub in_interrupt : Kernel → Bool
in_interrupt k = not (k.raw_int_nesting == 0)

abbrev pub is_locked : Kernel → Bool
is_locked k = not (k.raw_sched_lock == 0)
