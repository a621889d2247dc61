-- ===== src/Task/Suspend/Keep.antt =====
-- Suspension and resumption as moves of a task.
use raw_os.Shared.{
  ℕ, ◌+◌, ◌%◌, ◌≡◌, refl, ◌∙◌, ap, false, ◌==◌, ◌&&◌, update, arith, Bool-cases, inl, inr, if_cases,
  leb, ==_refl, Option,
}
use raw_os.Kernel.{
  Kernel, TaskStatus, rdy, pend, pend_timeout, pend_timeout_suspended, suspended, pend_suspended,
  dly, dly_suspended, deleted, invalid_state, set_task, RawOsError, is_locked,
}
use raw_os.Kernel.Place.{place, WellFormed, has_timer, place_in}
use raw_os.Kernel.Place.Moves.{Placed-ext, set_task-WellFormed}
use raw_os.Kernel.Sched.Choice.{raw_sched-WellFormed}
use raw_os.Kernel.Pend.Leave.{leave-WellFormed}
use raw_os.Kernel.Pend.Join.{join-WellFormed}
use raw_os.Task.Suspend.{
  suspend_first, suspend_again, suspend_in_state, task_suspend, resume_once, resume_ready,
  resume_in_state, task_resume,
}

-- A state that is in the same list as another, and has a timer exactly if the other has one.
abbrev Alike : TaskStatus → TaskStatus → Type 0
Alike s s' =
    ((p : ℕ) (o : Option ℕ) → place_in s p o ≡ place_in s' p o) × (has_timer s ≡ has_timer s')

-- A task that takes a state that is in the same list, and changes its count.
set_task-Alike :
    (k : Kernel) (t n : ℕ) (s : TaskStatus)
    → Alike s (k.tasks t).task_state
    → WellFormed k
    → WellFormed (set_task k t (record (k.tasks t) { suspend_count = n; task_state = s }))
set_task-Alike k t n s alike w = record {
  placed = Placed-ext _ same w.placed;
  queue = w.queue;
  range = λ u. ground (arith, w.range u, w.range t);
  ticks = λ u. ground (arith, w.ticks u, w.ticks t);
  timers = λ u. ground (arith, w.timers u, w.timers t, alike.1);
}
  where
    same :
        (u : ℕ)
        → place (k.tasks u)
          ≡ place (update k.tasks t (record (k.tasks t) { suspend_count = n; task_state = s }) u)
    same u = ground (arith, alike.0 (k.tasks t).priority (k.tasks t).block_obj)

suspend_again-WellFormed : (k : Kernel) (t : ℕ) → WellFormed k → WellFormed (suspend_again k t).0
unfolding suspend_again
suspend_again-WellFormed k t w =
    let n = ((k.tasks t).suspend_count + 1) % 256 in
    let next =
      set_task-WellFormed k t (record (k.tasks t) { suspend_count = n }) refl refl refl refl w in
    if_cases (λ (r : Kernel × RawOsError). WellFormed r.0) (leb 250 n) (λ e. next)
      λ e. raw_sched-WellFormed _ next

suspend_in_state-WellFormed :
    (k : Kernel) (t idle : ℕ) (s : TaskStatus)
    → (k.tasks t).task_state ≡ s
    → WellFormed k
    → (k.tasks idle).task_state ≡ rdy
    → (t == idle) ≡ false
    → WellFormed (suspend_in_state k t s).0
unfolding suspend_in_state suspend_first
suspend_in_state-WellFormed k t idle rdy e w other apart = raw_sched-WellFormed _ (
    leave-WellFormed k _ t idle (record (k.tasks t) { suspend_count = 1; task_state = suspended })
      refl refl (λ u. refl) (λ u. ground (arith, no_timer)) refl refl no_timer w e other apart)
  where
    no_timer : (k.tasks t).on_tick ≡ false
    no_timer = w.timers t ∙ ap has_timer e
suspend_in_state-WellFormed k t idle dly e w other apart =
    raw_sched-WellFormed _ (set_task-Alike k t 1 dly_suspended (rw e ((λ p o. refl), refl)) w)
suspend_in_state-WellFormed k t idle pend e w other apart =
    raw_sched-WellFormed _ (set_task-Alike k t 1 pend_suspended (rw e ((λ p o. refl), refl)) w)
suspend_in_state-WellFormed k t idle pend_timeout e w other apart =
    raw_sched-WellFormed _
      (set_task-Alike k t 1 pend_timeout_suspended (rw e ((λ p o. refl), refl)) w)
suspend_in_state-WellFormed k t idle suspended e w other apart = suspend_again-WellFormed k t w
suspend_in_state-WellFormed k t idle dly_suspended e w other apart = suspend_again-WellFormed k t w
suspend_in_state-WellFormed k t idle pend_suspended e w other apart = suspend_again-WellFormed k t w
suspend_in_state-WellFormed k t idle pend_timeout_suspended e w other apart =
    suspend_again-WellFormed k t w
suspend_in_state-WellFormed k t idle deleted e w other apart = w
suspend_in_state-WellFormed k t idle invalid_state e w other apart = w

-- Suspending a task in any state keeps the kernel well formed, if another task stays ready.
pub task_suspend-WellFormed :
    (k : Kernel) (t idle : ℕ)
    → WellFormed k
    → (k.tasks idle).task_state ≡ rdy
    → (t == idle) ≡ false
    → WellFormed (task_suspend k t).0
unfolding task_suspend
task_suspend-WellFormed k t idle w other apart =
    if_cases (λ (r : Kernel × RawOsError). WellFormed r.0) (t == k.raw_task_active && is_locked k)
      (λ e. w) λ e. suspend_in_state-WellFormed k t idle (k.tasks t).task_state refl w other apart

resume_once-WellFormed :
    (k : Kernel) (t : ℕ) (s : TaskStatus)
    → Alike s (k.tasks t).task_state
    → WellFormed k
    → WellFormed (resume_once k t s)
unfolding resume_once
resume_once-WellFormed k t s alike w =
    let n = ((k.tasks t).suspend_count + 255) % 256 in
    elim (Bool-cases (n == 0)) [
      | inl last ↦ rw last (set_task-Alike k t n s alike w)
      | inr more ↦ rw more (set_task-Alike k t n (k.tasks t).task_state ((λ p o. refl), refl) w)
    ]

resume_ready-WellFormed :
    (k : Kernel) (t : ℕ)
    → (k.tasks t).task_state ≡ suspended
    → WellFormed k
    → WellFormed (resume_ready k t)
unfolding resume_ready resume_once
resume_ready-WellFormed k t was w =
    let n = ((k.tasks t).suspend_count + 255) % 256 in
    elim (Bool-cases (n == 0)) [
      | inl last ↦ rw (==_refl t, last) (join-WellFormed k t _ refl refl refl was w)
      | inr more ↦
          rw (==_refl t, more) (set_task-Alike k t n (k.tasks t).task_state ((λ p o. refl), refl) w)
    ]

resume_in_state-WellFormed :
    (k : Kernel) (t : ℕ) (s : TaskStatus)
    → (k.tasks t).task_state ≡ s
    → WellFormed k
    → WellFormed (resume_in_state k t s).0
unfolding resume_in_state
resume_in_state-WellFormed k t rdy e w = w
resume_in_state-WellFormed k t dly e w = w
resume_in_state-WellFormed k t pend e w = w
resume_in_state-WellFormed k t pend_timeout e w = w
resume_in_state-WellFormed k t deleted e w = w
resume_in_state-WellFormed k t invalid_state e w = w
resume_in_state-WellFormed k t suspended e w =
    raw_sched-WellFormed _ (resume_ready-WellFormed k t e w)
resume_in_state-WellFormed k t dly_suspended e w =
    raw_sched-WellFormed _ (resume_once-WellFormed k t dly (rw e ((λ p o. refl), refl)) w)
resume_in_state-WellFormed k t pend_suspended e w =
    raw_sched-WellFormed _ (resume_once-WellFormed k t pend (rw e ((λ p o. refl), refl)) w)
resume_in_state-WellFormed k t pend_timeout_suspended e w =
    raw_sched-WellFormed _ (resume_once-WellFormed k t pend_timeout (rw e ((λ p o. refl), refl)) w)

-- Resuming a task in any state keeps the kernel well formed: a task whose last suspension ends is in
-- the list, and has the timer, of the state that it goes back to.
pub task_resume-WellFormed : (k : Kernel) (t : ℕ) → WellFormed k → WellFormed (task_resume k t).0
unfolding task_resume
task_resume-WellFormed k t w = resume_in_state-WellFormed k t (k.tasks t).task_state refl w
