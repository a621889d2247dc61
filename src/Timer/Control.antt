-- ===== src/Timer/Control.antt =====
-- The calls of raw_timer.c that an application makes: create, activate, change, deactivate, delete.
use raw_os.Shared.{ℕ, Bool, false, ◌==◌, if◌then◌else◌, not}
use raw_os.Kernel.{
  timer_obj, in_interrupt, success, null_object, null_pointer, not_called_by_isr, error_object_type,
  timer_invalid_ticks, timer_state_invalid,
}
use raw_os.Timer.{
  Timers, Ending, done, waits, asserts, set_timer, is_deactive, is_active, is_deleted, not_a_timer,
  under_mutex, activate_section, change_section, deactivate_section, delete_section, timer_deactive,
}

pub raw_timer_activate : (nested_max : ℕ) → Timers → (t expiration_input : ℕ) → Timers × Ending
raw_timer_activate nested_max s t expiration_input =
    let x = s.timers t in
    let s' = set_timer s t (record x { raw_timeout_param = expiration_input }) in
    if t == 0
    then (s, done null_object)
    else if in_interrupt s.kernel
    then (s, done not_called_by_isr)
    else if not_a_timer x
    then (s, done error_object_type)
    else if is_active x.timer_state
    then (s, done timer_state_invalid)
    else if is_deleted x.timer_state
    then (s, done timer_state_invalid)
    else under_mutex nested_max s' (activate_section t)

-- `raw_timer_create` does not look at the result of `raw_timer_activate`.
abbrev ignore_result : Timers × Ending → Timers × Ending
ignore_result (s, done e) = (s, done success)
ignore_result (s, waits) = (s, waits)
ignore_result (s, asserts) = (s, asserts)

-- A timer that is created is in no list, whatever list it was in.
pub raw_timer_create :
    (nested_max : ℕ)
    → Timers
    → (t expiration_function expiration_input initial_ticks reschedule_ticks : ℕ)
    → (auto_activate : Bool) → Timers × Ending
raw_timer_create nested_max s t expiration_function expiration_input initial_ticks reschedule_ticks
      auto_activate =
    let s' = set_timer s t (record {
      to_head = false;
      raw_timeout_function = expiration_function;
      match_tick = 0;
      remain = 0;
      init_count = initial_ticks;
      reschedule_ticks = reschedule_ticks;
      raw_timeout_param = expiration_input;
      timer_state = timer_deactive;
      object_type = timer_obj;
    }) in
    if t == 0
    then (s, done null_object)
    else if expiration_function == 0
    then (s, done null_pointer)
    else if initial_ticks == 0
    then (s, done timer_invalid_ticks)
    else if in_interrupt s.kernel
    then (s, done not_called_by_isr)
    else if auto_activate
    then ignore_result (raw_timer_activate nested_max s' t expiration_input)
    else (s', done success)

pub raw_timer_change :
    (nested_max : ℕ) → Timers → (t initial_ticks reschedule_ticks : ℕ) → Timers × Ending
raw_timer_change nested_max s t initial_ticks reschedule_ticks =
    let x = s.timers t in
    if t == 0
    then (s, done null_object)
    else if in_interrupt s.kernel
    then (s, done not_called_by_isr)
    else if not_a_timer x
    then (s, done error_object_type)
    else if not (is_deactive x.timer_state)
    then (s, done timer_state_invalid)
    else under_mutex nested_max s (change_section t initial_ticks reschedule_ticks)

pub raw_timer_deactivate : (nested_max : ℕ) → Timers → ℕ → Timers × Ending
raw_timer_deactivate nested_max s t =
    let x = s.timers t in
    if t == 0
    then (s, done null_object)
    else if in_interrupt s.kernel
    then (s, done not_called_by_isr)
    else if not_a_timer x
    then (s, done error_object_type)
    else if is_deactive x.timer_state
    then (s, done timer_state_invalid)
    else if is_deleted x.timer_state
    then (s, done timer_state_invalid)
    else under_mutex nested_max s (deactivate_section t)

pub raw_timer_delete : (nested_max : ℕ) → Timers → ℕ → Timers × Ending
raw_timer_delete nested_max s t =
    let x = s.timers t in
    if t == 0
    then (s, done null_object)
    else if in_interrupt s.kernel
    then (s, done not_called_by_isr)
    else if not_a_timer x
    then (s, done error_object_type)
    else if is_deleted x.timer_state
    then (s, done timer_state_invalid)
    else under_mutex nested_max s (delete_section t)
