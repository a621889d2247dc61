-- ===== src/Tests/Tasks.antt =====
-- Tasks at concrete inputs.
use raw_os.Shared.{◌+◌, ◌*◌, ◌≤◌, ◌<◌, refl, arith}
use raw_os.Kernel.{Kernel, sem_obj}
use raw_os.Kernel.Place.{WellFormed}
use raw_os.Task.{sleep_ticks, delay}
use raw_os.Task.Ticks.{sleep_ticks_lem}
use raw_os.Task.Delay.{Asleep, delay-WellFormed}
use raw_os.Task.Suspend.{task_suspend, task_resume}
use raw_os.Task.Suspend.Keep.{task_suspend-WellFormed, task_resume-WellFormed}
use raw_os.Tests.{waiting_kernel, waiting_kernel-WellFormed}

abbrev k0 : Kernel
k0 = waiting_kernel sem_obj

sleep_ticks_lem_example :
    let asked = (1 * 3600 + 2 * 60 + 3) * 1000 + 14 in
    let ticks = sleep_ticks 1 2 3 14 in (ticks * 10 ≤ asked + 5) × (asked + 5 < ticks * 10 + 10)
sleep_ticks_lem_example =
    sleep_ticks_lem 1 2 3 14 (omega arith) (omega arith) (omega arith) (omega arith)

delay-WellFormed_example : WellFormed (delay k0 1 25) × Asleep k0 (delay k0 1 25) 1 25
delay-WellFormed_example =
    delay-WellFormed k0 1 25 2 refl (waiting_kernel-WellFormed sem_obj) refl refl refl

task_suspend-WellFormed_example : WellFormed (task_suspend k0 4).0
task_suspend-WellFormed_example =
    task_suspend-WellFormed k0 4 2 (waiting_kernel-WellFormed sem_obj) refl refl

task_resume-WellFormed_example : WellFormed (task_resume (task_suspend k0 4).0 4).0
task_resume-WellFormed_example =
    task_resume-WellFormed (task_suspend k0 4).0 4
      (task_suspend-WellFormed k0 4 2 (waiting_kernel-WellFormed sem_obj) refl refl)
