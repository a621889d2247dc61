-- ===== src/Kernel/System.antt =====
-- raw_system.c and the locks of raw_task.c: interrupts, the scheduler lock, and the code that a task
-- runs when it comes back from a block.
use raw_os.Shared.{
  refl, ℕ, ◌+◌, ◌-◌, false, leb, ◌==◌, if◌then◌else◌, Option, none, some, ◌∷◌, update, ◌≡◌, arith,
}
use raw_os.RunQueue.{get_ready_task}
use raw_os.Kernel.{
  Kernel, BlockState, RawOsError, b_ok, b_abort, b_timeout, b_del, success, block_abort,
  block_timeout, block_del, not_called_by_isr, sched_overflow, sched_invalid, sched_locked,
  exceed_int_nested_level, context_switch, system_error, in_interrupt, is_locked,
}
use raw_os.Kernel.Sched.{raw_sched}

-- `INT_NESTED_LEVEL`
abbrev pub int_nested_level : ℕ
int_nested_level = 100

pub raw_enter_interrupt : Kernel → Kernel × RawOsError
raw_enter_interrupt k =
    if leb int_nested_level k.raw_int_nesting
    then (
      record k { calls = system_error exceed_int_nested_level ∷ k.calls },
      exceed_int_nested_level,
    )
    else (record k { raw_int_nesting = k.raw_int_nesting + 1 }, success)

switch_from_interrupt : Kernel → Option ℕ → Kernel
switch_from_interrupt k none = k
switch_from_interrupt k (some t) =
    if t == k.raw_task_active
    then k
    else record k { calls = context_switch k.raw_task_active t ∷ k.calls }

-- It asserts that the nesting is not 0, so the subtraction does not wrap. `raw_int_switch` is the
-- port's context switch at the end of an interrupt.
pub raw_finish_int : Kernel → Kernel
unfolding switch_from_interrupt
raw_finish_int k =
    let k1 = record k { raw_int_nesting = k.raw_int_nesting - 1 } in
    let high = get_ready_task k.rq in
    if in_interrupt k1
    then k1
    else if is_locked k1
    then k1
    else switch_from_interrupt (record k1 { high_ready_obj = high }) high

pub raw_system_time_set : Kernel → ℕ → Kernel × RawOsError
raw_system_time_set k time =
    if in_interrupt k then (k, not_called_by_isr) else (record k { raw_tick_count = time }, success)

block_error : BlockState → RawOsError
block_error b_ok = success
block_error b_abort = block_abort
block_error b_timeout = block_timeout
block_error b_del = block_del

-- `if (msg) *msg = task_ptr->msg;`
deliver : BlockState → Kernel → ℕ → ℕ → Kernel
deliver b_ok k msg value = if msg == 0 then k else record k { memory = update k.memory msg value }
deliver b_abort k msg value = k
deliver b_timeout k msg value = k
deliver b_del k msg value = k

-- What a call that blocked does when its task runs again. `msg` is where a message goes, or 0.
pub block_state_post_process : Kernel → ℕ → ℕ → Kernel × RawOsError
unfolding block_error deliver
block_state_post_process k t msg =
    let status = (k.tasks t).block_status in
    (deliver status k msg (k.tasks t).msg, block_error status)

pub raw_disable_sche : Kernel → Kernel × RawOsError
raw_disable_sche k =
    if in_interrupt k
    then (k, not_called_by_isr)
    else if leb 250 k.raw_sched_lock
    then (k, sched_overflow)
    else (record k { raw_sched_lock = k.raw_sched_lock + 1 }, success)

pub raw_enable_sche : Kernel → Kernel × RawOsError
raw_enable_sche k =
    let k1 = record k { raw_sched_lock = k.raw_sched_lock - 1 } in
    if in_interrupt k
    then (k, not_called_by_isr)
    else if k.raw_sched_lock == 0
    then (k, sched_invalid)
    else if is_locked k1
    then (k1, sched_locked)
    else (raw_sched k1, success)

-- A task that was woken by a post or a put finds its call successful, and its message delivered.
pub post_process_ok :
    (k : Kernel) (t address value : ℕ)
    → (address == 0) ≡ false
    → (k.tasks t).block_status ≡ b_ok
    → (k.tasks t).msg ≡ value
    → ((block_state_post_process k t address).1 ≡ success)
      × ((block_state_post_process k t address).0.memory address ≡ value)
unfolding block_state_post_process
post_process_ok k t address value valid e m = ground arith

-- With no place for the message, only the result is taken from the task.
pub post_process_woken :
    (k : Kernel) (t : ℕ)
    → (k.tasks t).block_status ≡ b_ok
    → block_state_post_process k t 0 ≡ (k, success)
unfolding block_state_post_process
post_process_woken k t e = rw e refl
