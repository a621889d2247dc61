-- ===== src/Semaphore.antt =====
-- raw_sem.c: counting semaphores. Each function checks its arguments as with RAW_SEMA_FUNCTION_CHECK.
pub mod Laws
pub mod Count
use raw_os.Shared.{
  ℕ, zero, suc, ◌+◌, ◌-◌, Bool, true, false, ltb, ◌==◌, if◌then◌else◌, Option, none, some, List, [],
  ◌∷◌, length, is_empty, not,
}
use raw_os.Kernel.{
  Kernel, Semaphore, BlockObject, RawOsError, Outcome, returned, blocked, sem_obj, type_none,
  way_prio, set_semaphore, set_object, wrong_type, in_interrupt, is_locked, success, null_object,
  semaphore_overflow, error_object_type, not_called_by_isr, no_pend_wait, sched_disable,
  semaphore_task_waiting, notify,
}
use raw_os.Kernel.Sched.{raw_sched}
use raw_os.Kernel.Pend.{raw_wake_object, delete_pend_obj, raw_pend_object, drain}
use raw_os.Kernel.System.{block_state_post_process}

-- `(RAW_PROCESSOR_UINT) - 1`
abbrev pub max_count : ℕ
max_count = 4294967295

pub raw_semaphore_create : Kernel → ℕ → ℕ → Kernel × RawOsError
raw_semaphore_create k o initial_count =
    let k1 = record k { block_list = λ q. if o == q then [] else k.block_list q } in
    let k2 =
      set_semaphore k1 o (record {
        count = initial_count;
        peak_count = initial_count;
        semphore_send_notify = none;
      }) in
    if o == 0
    then (k, null_object)
    else if initial_count == max_count
    then (k, semaphore_overflow)
    else (set_object k2 o (record { block_way = way_prio; object_type = sem_obj }), success)

-- `if (semaphore_ptr->semphore_send_notify) semaphore_ptr->semphore_send_notify(semaphore_ptr);`
call_notify : Kernel → ℕ → Option ℕ → Kernel
call_notify k o none = k
call_notify k o (some f) = record k { calls = notify f o ∷ k.calls }

-- The count goes up by one, and the peak with it.
count_up : Semaphore → Semaphore
count_up s =
    let count = s.count + 1 in
    record s { count = count; peak_count = if ltb s.peak_count count then count else s.peak_count }

-- `semaphore_put` where no task waits.
put_count : Kernel → ℕ → Kernel × RawOsError
unfolding call_notify count_up
put_count k o =
    let s = k.semaphores o in
    if s.count == max_count
    then (k, semaphore_overflow)
    else (call_notify (set_semaphore k o (count_up s)) o s.semphore_send_notify, success)

wake_first : Kernel → List ℕ → Kernel
wake_first k [] = k
wake_first k (t ∷ rest) = raw_wake_object k t

pub semaphore_put : Kernel → ℕ → Bool → Kernel × RawOsError
unfolding put_count wake_first
semaphore_put k o opt_wake_all =
    let waiting = k.block_list o in
    if wrong_type k o sem_obj
    then (k, error_object_type)
    else if is_empty waiting
    then put_count k o
    else if opt_wake_all
    then (raw_sched (drain raw_wake_object (length waiting) k o), success)
    else (raw_sched (wake_first k waiting), success)

pub raw_semaphore_put : Kernel → ℕ → Kernel × RawOsError
raw_semaphore_put k o = if o == 0 then (k, null_object) else semaphore_put k o false

pub raw_semaphore_put_notify : Kernel → ℕ → Kernel × RawOsError
raw_semaphore_put_notify k o = if o == 0 then (k, null_object) else semaphore_put k o false

pub raw_semaphore_put_all : Kernel → ℕ → Kernel × RawOsError
raw_semaphore_put_all k o = if o == 0 then (k, null_object) else semaphore_put k o true

pub raw_semphore_send_notify : Kernel → ℕ → Option ℕ → Kernel × RawOsError
raw_semphore_send_notify k o notify_function =
    if o == 0
    then (k, null_object)
    else if in_interrupt k
    then (k, not_called_by_isr)
    else if wrong_type k o sem_obj
    then (k, error_object_type)
    else (
      set_semaphore k o (record (k.semaphores o) { semphore_send_notify = notify_function }),
      success,
    )

pub raw_semaphore_get : Kernel → ℕ → ℕ → Kernel × Outcome
raw_semaphore_get k o wait_option =
    let s = k.semaphores o in
    if o == 0
    then (k, returned null_object)
    else if in_interrupt k
    then (k, returned not_called_by_isr)
    else if wrong_type k o sem_obj
    then (k, returned error_object_type)
    else if not (s.count == 0)
    then (set_semaphore k o (record s { count = s.count - 1 }), returned success)
    else if wait_option == 0
    then (k, returned no_pend_wait)
    else if is_locked k
    then (k, returned sched_disable)
    else (raw_sched (raw_pend_object k o k.raw_task_active wait_option), blocked)

-- `raw_semaphore_get` once its task runs again.
pub raw_semaphore_get_resume : Kernel → Kernel × RawOsError
raw_semaphore_get_resume k = block_state_post_process k k.raw_task_active 0

pub raw_semaphore_set : Kernel → ℕ → ℕ → Kernel × RawOsError
raw_semaphore_set k o sem_count =
    let s = k.semaphores o in
    let k1 = set_semaphore k o (record s { count = sem_count }) in
    if o == 0
    then (k, null_object)
    else if in_interrupt k
    then (k, not_called_by_isr)
    else if wrong_type k o sem_obj
    then (k, error_object_type)
    else if not (s.count == 0)
    then (k1, success)
    else if is_empty (k.block_list o)
    then (k1, success)
    else (k, semaphore_task_waiting)

pub raw_semaphore_delete : Kernel → ℕ → Kernel × RawOsError
raw_semaphore_delete k o =
    let k1 = set_object k o (record (k.objects o) { object_type = type_none }) in
    if o == 0
    then (k, null_object)
    else if in_interrupt k
    then (k, not_called_by_isr)
    else if wrong_type k o sem_obj
    then (k, error_object_type)
    else (raw_sched (drain delete_pend_obj (length (k1.block_list o)) k1 o), success)
