-- ===== src/Tests/TimerRuns.antt =====
-- Timers at concrete inputs.
use raw_os.Shared.{ℕ, ◌≡◌, ◌+◌, ◌%◌, refl, Bool, true, false, update, count, [], ◌∷◌, some, arith}
use raw_os.Kernel.{timer_obj, sem_obj, u32_mod}
use raw_os.Timer.{Timers, RawTimer, timer_active, timer_deactive, activate_section, change_section}
use raw_os.Timer.Run.{timer_task_turn}
use raw_os.Timer.Expire.{key}
use raw_os.Timer.Turn.{Ready, Turned, timer_task_turn_lem}
use raw_os.Timer.Keep.{activate_section-Ready}
use raw_os.Timer.Stale.{turns, change_section_of_zero}
use raw_os.Tests.{base_kernel}

abbrev idle_timer : RawTimer
idle_timer = record {
  to_head = false;
  raw_timeout_function = 700;
  match_tick = 0;
  remain = 0;
  init_count = 5;
  reschedule_ticks = 0;
  raw_timeout_param = 9;
  timer_state = timer_deactive;
  object_type = timer_obj;
}

abbrev running_timer : ℕ → ℕ → RawTimer
running_timer match_tick period = record idle_timer {
  to_head = true;
  match_tick = match_tick;
  reschedule_ticks = period;
  timer_state = timer_active;
}

-- At tick 10 the timers 1 and 2 have a tick left, and timer 3 has four. Timer 1 has a period of 6.
abbrev three : Timers
three = record {
  kernel = base_kernel sem_obj;
  timer_mutex = 200;
  timer_sem = 201;
  timer_head = 1 ∷ 2 ∷ 3 ∷ [];
  timers =
      update (update (update (λ t. idle_timer) 1 (running_timer 11 6)) 2 (running_timer 11 0)) 3
        (running_timer 14 0);
  raw_timer_count = 10;
  raw_timer_ctrl = 1;
}

abbrev never : ℕ → ℕ → Bool
never f p = false

three-Ready : Ready three
unfolding count
three-Ready = record {
  sorted = ((omega arith, (omega arith, tt)), ((omega arith, tt), (tt, tt)));
  not_yet = (omega arith, (omega arith, (omega arith, tt)));
  linked = λ t. ground arith;
  running = λ t on. ground arith;
  count_fits = omega arith;
  match_fits = λ t. ground arith;
  reschedule_fits = λ t. ground arith;
}

timer_task_turn_lem_example :
    (s' : Timers) × (timer_task_turn never 4 three ≡ some s') × Turned never three s'
timer_task_turn_lem_example = timer_task_turn_lem never 4 three three-Ready (omega arith)

activate_section-Ready_example :
    let s' = activate_section 4 three in Ready s' × (key s' 4 ≡ 5) × (count 4 s'.timer_head ≡ 1)
activate_section-Ready_example =
    activate_section-Ready three 4 three-Ready refl (omega arith) (omega arith)

change_section_of_zero_example :
    let s' = activate_section 4 (change_section 4 0 7 three) in
    (s'.timer_head ≡ 4 ∷ three.timer_head)
    × (turns never 1 1000 s' ≡ some (record s' { raw_timer_count = (10 + 1000) % u32_mod }))
change_section_of_zero_example =
    change_section_of_zero never 0 4 7 1000 three three-Ready refl (omega arith)
