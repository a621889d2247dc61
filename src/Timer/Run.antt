-- ===== src/Timer/Run.antt =====
-- The task of raw_timer.c, what starts it, and the tick that drives it.
use raw_os.Shared.{
  ℕ, zero, suc, ◌+◌, ◌-◌, ◌%◌, Bool, true, ◌==◌, if◌then◌else◌, not, ◌&&◌, Option, none, some, List,
  [], ◌∷◌, head?,
}
use raw_os.Kernel.{Outcome, u32_mod, wait_forever, timeout}
use raw_os.Semaphore.{raw_semaphore_create, raw_semaphore_get, raw_semaphore_put, raw_semaphore_set}
use raw_os.Task.{raw_task_create}
use raw_os.Timer.{Timers, set_timer, is_deactive, timer_deactive, timer_list_remove, start_timer}

-- `iter->next`
abbrev pub successor : ℕ → List ℕ → Option ℕ
successor t [] = none
successor t (x ∷ xs) = if t == x then head? xs else successor t xs

-- The functions of the application are not run, and by the comment in `timer_task` call nothing of
-- this file: `stops` says of a function and its parameter that it returns TIMER_CALLBACK_STOP.
module _ (stops : ℕ → ℕ → Bool) where
  -- The timer's function is called, and may stop the timer.
  unfoldable pub call_timeout : Timers → ℕ → Timers
  unfolding timer_list_remove
  call_timeout s t =
      let x = s.timers t in
      let called = record s {
        kernel = record s.kernel {
          calls = timeout x.raw_timeout_function x.raw_timeout_param ∷ s.kernel.calls;
        };
      } in
      let removed = timer_list_remove called t in
      if x.raw_timeout_function == 0
      then s
      else if stops x.raw_timeout_function x.raw_timeout_param && not (is_deactive x.timer_state)
      then set_timer removed t (record (removed.timers t) { timer_state = timer_deactive })
      else called

  -- A timer whose tick has come.
  unfoldable pub expire_timer : Timers → ℕ → Timers
  unfolding timer_list_remove start_timer call_timeout
  expire_timer s t =
      let s1 = timer_list_remove s t in
      let s2 =
        if not ((s.timers t).reschedule_ticks == 0)
        then start_timer s1 t (s.timers t).reschedule_ticks
        else set_timer s1 t (record (s1.timers t) { timer_state = timer_deactive }) in
      call_timeout s2 t

  -- The loop of `timer_task`, at `iter`, which is `none` at the head of the ring. With `none` it has
  -- not ended within the fuel.
  unfoldable pub run_timers : (fuel : ℕ) → Timers → (iter : Option ℕ) → Option Timers
  unfolding expire_timer
  run_timers fuel s none = some s
  run_timers zero s (some t) = none
  run_timers (suc fuel) s (some t) =
      let rest = run_timers fuel (expire_timer s t) (successor t s.timer_head) in
      if s.raw_timer_count == (s.timers t).match_tick then rest else some s

  -- A turn of `timer_task` with the mutex held, up to the call that releases it.
  unfoldable pub timer_task_turn : (fuel : ℕ) → Timers → Option Timers
  unfolding run_timers
  timer_task_turn fuel s =
      let s' = record s { raw_timer_count = (s.raw_timer_count + 1) % u32_mod } in
      run_timers fuel s' (head? s'.timer_head)

-- `timer_task` before its loop.
pub timer_task_start : Timers → Timers
timer_task_start s = record s { kernel = (raw_semaphore_set s.kernel s.timer_sem 0).0 }

-- The wait at the head of its loop.
pub timer_task_wait : Timers → Timers × Outcome
timer_task_wait s =
    let (k, result) = raw_semaphore_get s.kernel s.timer_sem wait_forever in
    (record s { kernel = k }, result)

-- `RAW_TIMER_RATE`, `TIMER_TASK_PRIORITY`
abbrev timer_rate : ℕ
timer_rate = 1

abbrev timer_task_priority : ℕ
timer_task_priority = 5

-- It runs at every tick of the kernel.
pub call_timer_task : Timers → Timers
call_timer_task s =
    let ctrl = (s.raw_timer_ctrl + u32_mod - 1) % u32_mod in
    if ctrl == 0
    then record s {
      raw_timer_ctrl = timer_rate;
      kernel = (raw_semaphore_put s.kernel s.timer_sem).0;
    }
    else record s { raw_timer_ctrl = ctrl }

-- The arguments are the addresses of the task object, its stack and `timer_task`.
pub raw_timer_init : Timers → (raw_timer_obj timer_task_stack timer_task : ℕ) → Timers
raw_timer_init s raw_timer_obj timer_task_stack timer_task =
    let k1 =
      (raw_task_create s.kernel raw_timer_obj timer_task_priority 0 timer_task_stack timer_task
        true).0 in
    record s {
      raw_timer_ctrl = timer_rate;
      timer_head = [];
      kernel = (raw_semaphore_create k1 s.timer_sem 0).0;
    }
