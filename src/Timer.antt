-- ===== src/Timer.antt =====
-- raw_timer.c: software timers, in a list sorted by the ticks that are left, and the task that runs
-- them. `timer_mutex` guards the list.
pub mod Control
pub mod Run
pub mod Call
pub mod Round
pub mod Loop
pub mod Turn
pub mod Expire
pub mod Keep
pub mod Stale
use raw_os.Shared.{
  ℕ, zero, suc, ◌+◌, ◌-◌, ◌%◌, Bool, true, false, ◌==◌, if◌then◌else◌, not, ◌&&◌, Option, none,
  some, List, [], ◌∷◌, erase, head?, update, insert_by,
}
use raw_os.Kernel.{
  Kernel, ObjectType, RawOsError, Outcome, returned, blocked, timer_obj, type_none, type_code,
  in_interrupt, success, null_object, null_pointer, not_called_by_isr, error_object_type,
  timer_invalid_ticks, timer_state_invalid, u32_mod, wait_forever, timeout,
}
use raw_os.Mutex.{raw_mutex_get, raw_mutex_get_resume, raw_mutex_put}
use raw_os.Semaphore.{raw_semaphore_create, raw_semaphore_get, raw_semaphore_put, raw_semaphore_set}
use raw_os.Task.{raw_task_create}

pub data TimerState : Type 0 where
  timer_deactive timer_active timer_deleted : TimerState

-- `RAW_TIMER`. `to_head` says that the field is not null. A function is its address.
pub record RawTimer : Type 0 where
  pub to_head : Bool
  pub raw_timeout_function : ℕ
  pub match_tick : ℕ
  pub remain : ℕ
  pub init_count : ℕ
  pub reschedule_ticks : ℕ
  pub raw_timeout_param : ℕ
  pub timer_state : TimerState
  pub object_type : ObjectType

-- The globals of raw_timer.c, with the addresses of the mutex and the semaphore.
pub record Timers : Type 0 where
  pub kernel : Kernel
  pub timer_mutex : ℕ
  pub timer_sem : ℕ
  pub timer_head : List ℕ
  pub timers : ℕ → RawTimer
  pub raw_timer_count : ℕ
  pub raw_timer_ctrl : ℕ

-- What a call that takes `timer_mutex` comes to: its result, a wait for the mutex, or a failed
-- assertion that the mutex was got.
pub data Ending : Type 0 where
  done : RawOsError → Ending
  waits : Ending
  asserts : Ending

abbrev pub set_timer : Timers → ℕ → RawTimer → Timers
set_timer s t x = record s { timers = update s.timers t x }

abbrev pub is_deactive : TimerState → Bool
is_deactive timer_deactive = true
is_deactive timer_active = false
is_deactive timer_deleted = false

abbrev pub is_active : TimerState → Bool
is_active timer_active = true
is_active timer_deactive = false
is_active timer_deleted = false

abbrev pub is_deleted : TimerState → Bool
is_deleted timer_deleted = true
is_deleted timer_deactive = false
is_deleted timer_active = false

abbrev pub not_a_timer : RawTimer → Bool
not_a_timer x = not (type_code x.object_type == 8)

-- `timer->match - raw_timer_count`, in `RAW_TICK_TYPE`
abbrev pub left : ℕ → RawTimer → ℕ
left now x = (x.match_tick + u32_mod - now) % u32_mod

unfoldable pub timer_list_priority_insert : Timers → ℕ → List ℕ
timer_list_priority_insert s t =
    insert_by (λ q. left s.raw_timer_count (s.timers q)) (s.timers t).remain t s.timer_head

unfoldable pub timer_list_remove : Timers → ℕ → Timers
timer_list_remove s t =
    if (s.timers t).to_head
    then set_timer (record s { timer_head = erase t s.timer_head }) t
        (record (s.timers t) { to_head = false })
    else s

-- The timer goes into the list, `ticks` ticks from now.
unfoldable pub start_timer : Timers → (t ticks : ℕ) → Timers
unfolding timer_list_priority_insert
start_timer s t ticks =
    let s' = set_timer s t (record (s.timers t) {
      match_tick = (s.raw_timer_count + ticks) % u32_mod;
      remain = ticks;
      to_head = true;
    }) in
    record s' { timer_head = timer_list_priority_insert s' t }

abbrev unlock : ℕ → Timers → Timers
unlock nested_max s = record s { kernel = (raw_mutex_put nested_max s.kernel s.timer_mutex).0 }

after_get : ℕ → Timers → (Timers → Timers) → Outcome → Timers × Ending
after_get nested_max s body (returned success) = (unlock nested_max (body s), done success)
after_get nested_max s body (returned other) = (s, asserts)
after_get nested_max s body blocked = (s, waits)

after_wait : ℕ → Timers → (Timers → Timers) → RawOsError → Timers × Ending
after_wait nested_max s body success = (unlock nested_max (body s), done success)
after_wait nested_max s body other = (s, asserts)

-- `raw_mutex_get`, the assertion, the section that the mutex guards, `raw_mutex_put`. `nested_max` is
-- as for `raw_mutex_get`.
pub under_mutex : (nested_max : ℕ) → Timers → (Timers → Timers) → Timers × Ending
unfolding after_get
under_mutex nested_max s body =
    let (k, result) = raw_mutex_get nested_max s.kernel s.timer_mutex wait_forever in
    after_get nested_max (record s { kernel = k }) body result

-- The same once a task that waited for the mutex runs again.
pub under_mutex_resume : (nested_max : ℕ) → Timers → (Timers → Timers) → Timers × Ending
unfolding after_wait
under_mutex_resume nested_max s body =
    let (k, result) = raw_mutex_get_resume s.kernel in
    after_wait nested_max (record s { kernel = k }) body result

-- The sections of the calls.
unfoldable pub activate_section : ℕ → Timers → Timers
unfolding start_timer
activate_section t s =
    let s' = start_timer s t (s.timers t).init_count in
    set_timer s' t (record (s'.timers t) { timer_state = timer_active })

unfoldable pub change_section : (t initial_ticks reschedule_ticks : ℕ) → Timers → Timers
change_section t initial_ticks reschedule_ticks s =
    set_timer s t
      (record (s.timers t) { init_count = initial_ticks; reschedule_ticks = reschedule_ticks })

pub deactivate_section : ℕ → Timers → Timers
unfolding timer_list_remove
deactivate_section t s =
    let s' = timer_list_remove s t in
    set_timer s' t (record (s'.timers t) { timer_state = timer_deactive })

pub delete_section : ℕ → Timers → Timers
unfolding timer_list_remove
delete_section t s =
    let s' =
      timer_list_remove (set_timer s t (record (s.timers t) { object_type = type_none })) t in
    set_timer s' t (record (s'.timers t) { timer_state = timer_deleted })
