-- ===== src/Kernel/Pend/Join.antt =====
-- A task in no list becomes ready: by a resumption or the end of a delay.
use raw_os.Shared.{ℕ, ◌≡◌, update, arith}
use raw_os.RunQueue.Lists.{count-add_ready_list}
use raw_os.RunQueue.Valid.{add_ready_list-IsValid}
use raw_os.Kernel.{Kernel, Task, rdy, suspended, set_task}
use raw_os.Kernel.Place.{on_ready, place, WellFormed}
use raw_os.Kernel.Place.Moves.{Placed-ext, ready-Placed}
use raw_os.Kernel.Pend.{add_ready_list}

pub join-WellFormed :
    (k : Kernel) (t : ℕ) (x : Task)
    → x.priority ≡ (k.tasks t).priority
    → x.task_state ≡ rdy
    → x.on_tick ≡ (k.tasks t).on_tick
    → (k.tasks t).task_state ≡ suspended
    → WellFormed k
    → WellFormed (add_ready_list (set_task k t x) t)
unfolding add_ready_list
join-WellFormed k t x priority state timer was w = record {
  placed =
      Placed-ext _ same
        (ready-Placed t w.placed p _ (λ u q. count-add_ready_list k.rq _ t p u q) (ground arith));
  queue = add_ready_list-IsValid k.rq _ t p (ground (arith, w.range t, priority)) w.queue;
  range = λ u. ground (arith, w.range u, w.range t, priority);
  ticks = λ u. ground (arith, w.ticks u, w.ticks t, timer);
  timers = λ u. ground (arith, w.timers u, w.timers t, timer);
}
  where
    p : ℕ
    p = (update k.tasks t x t).priority

    same : (u : ℕ) → update (λ v. place (k.tasks v)) t (on_ready p) u ≡ place (update k.tasks t x u)
    same u = ground (arith, state)
