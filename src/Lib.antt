-- ===== src/Lib.antt =====
-- A model of raw-os, a preemptive real-time kernel in C, and theorems on it.
--
-- The parts and the files that model them, with paths from the root of the repository:
--   Bits: the bit map and `bit_search_first_one` (raw_pend.c, raw_system.c)
--   RunQueue: the ready lists by priority, `RAW_RUN_QUEUE` (raw_pend.c, include/raw_obj.h)
--   MsgRing: the ring of messages of a queue (raw_queue.c, include/raw_queue.h)
--   Kernel: the state of the kernel and of its objects (include/raw_obj.h, include/raw_system.h,
--     raw-os.c), with child modules for
--     Kernel.Sched: `raw_sched` and the time slices (raw_sched.c)
--     Kernel.Tick: the tick list, by the time left (raw_tick.c)
--     Kernel.Pend: blocking a task on an object and waking it (raw_pend.c)
--     Kernel.System: interrupts, the scheduler lock, the result of a wait (raw_system.c, raw_task.c)
--     Kernel.Place: where each task is, and the invariant `WellFormed` of the kernel
--     Kernel.Frame: what a step on the lists leaves alone
--   Semaphore (raw_sem.c), Queue (raw_queue.c), Event (raw_event.c), Mutex (raw_mutex.c)
--   Priority: priority inheritance and ceilings (raw_mutex.c, `change_internal_task_priority` of
--     raw_task.c)
--   Task: creation and sleep; Task.Suspend and Task.Control: the other calls of raw_task.c
--   Ticker: `tick_list_update` (raw_tick.c)
--   MsgCells: the linked cells of a sized queue, and QueueSize: its calls (raw_queue_size.c)
--   QueueBuffer: messages of bytes in a ring, and BufferQueue: the calls of the queues that hold them
--     (raw_queue_buffer.c)
--   Block: pools of blocks that are linked through their memory (raw_block.c)
--   Timer: the list of timers; Timer.Control: the calls of an application; Timer.Run: the task that
--     runs the timers (raw_timer.c)
--   IdleEvent: the events of the idle task (raw_idle_event.c, raw_obj.c)
--   TaskSemaphore (raw_task_sem.c), MultiLock (extension/lib/raw_mlock.c) and WorkQueue
--     (extension/lib/raw_work_queue.c): calls of the objects above
--   Shared: lists, tests, sorted lists and chains of links; Tests: the theorems at concrete inputs
--
-- How the parts interact: every call of an object (`raw_semaphore_get`, `raw_queue_end_post`, ...)
-- checks its guards, changes the object, moves tasks between the ready lists, the block list of the
-- object and the tick list through Kernel.Pend and Kernel.Tick, and ends with `raw_sched`, which
-- chooses the task to run. Mutexes change priorities too, through Priority, which moves tasks in
-- the ready and the block lists and follows chains of owners.
--
-- The model: a call is a function from the kernel's state to the state and the error code. A task,
-- an object or a memory cell is named by its address; a `LIST` ring is the sequence of the tasks in
-- it. A call that blocks gives the outcome `blocked`, and the code that runs when its task goes on is
-- a function of its own (`raw_semaphore_get_resume`, ...). A critical section is one step. The
-- configuration is that of include/raw_config.h with the checks of arguments compiled in. Callbacks
-- of the application and the functions of the port are not run: a call of one is added to `calls`.
-- Counters have the width of the source's types where the source tests for an overflow or wraps:
-- the tick count and the timeouts are 32 bits (`u32_mod`).
--
-- Fuel: the search in the bit map takes one round for each bit of the width at most, and each round
-- passes a word. A loop that empties a list takes as many rounds as the list has tasks. The change of
-- a priority, which recurs along the owners of mutexes, takes five rounds, because
-- `mutex_recursion_levels` stops the fifth. The loop that links the blocks of a pool takes a round
-- for each block and at most one more, and so does the loop of the timer
-- task for the timers in its list.
--
-- Linked memory: cells and blocks are addresses, and their links a function from addresses; the lists
-- that they make are found through the links. Timers are named by their addresses too.
--
-- Not modelled: byte pools, state machines, active objects, the shell, posix and
-- memory extensions, and the port. Statistics, traces and the
-- stack check of a task have no effect on the state that is modelled.
pub mod Shared
pub mod Bits
pub mod RunQueue
pub mod MsgRing
pub mod Kernel
pub mod Semaphore
pub mod Block
pub mod MsgCells
pub mod Priority
pub mod Mutex
pub mod Task
pub mod Ticker
pub mod Timer
pub mod IdleEvent
pub mod TaskSemaphore
pub mod MultiLock
pub mod WorkQueue
pub mod Queue
pub mod QueueSize
pub mod QueueBuffer
pub mod BufferQueue
pub mod Event
pub mod Tests
