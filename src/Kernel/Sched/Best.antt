-- ===== src/Kernel/Sched/Best.antt =====
-- Which task `raw_sched` chooses.
use raw_os.Shared.{
  ℕ, ◌≤◌, ◌≡◌, refl, ◌∙◌, ap, false, ◌==◌, if◌then◌else◌, some, List, [], ◌∷◌, count, arith,
  not-empty_of_count, count-cons,
}
use raw_os.RunQueue.{get_ready_task}
use raw_os.RunQueue.Valid.{get_ready_task_lem}
use raw_os.Kernel.{Kernel, rdy, context_switch, in_interrupt, is_locked}
use raw_os.Kernel.Place.{WellFormed}
use raw_os.Kernel.Sched.{raw_sched}

-- `t` is ready, no ready task is more urgent, and the port is asked to switch to it unless it runs.
pub record Chosen (k k' : Kernel) (t : ℕ) : Type 0 where
  pub ready : (k.tasks t).task_state ≡ rdy
  pub best : (u : ℕ) → (k.tasks u).task_state ≡ rdy → (k.tasks t).priority ≤ (k.tasks u).priority
  pub high : k'.high_ready_obj ≡ some t
  pub switched :
      k'.calls
      ≡ (if t == k.raw_task_active then k.calls else context_switch k.raw_task_active t ∷ k.calls)

-- A ready task's list is not empty.
highest-le :
    (k : Kernel) (u : ℕ)
    → WellFormed k
    → (k.tasks u).task_state ≡ rdy
    → k.rq.highest_priority ≤ (k.tasks u).priority
highest-le k u w e =
    w.queue.least (k.tasks u).priority (w.range u)
      (not-empty_of_count u _ (ground (arith, w.placed.in_ready u (k.tasks u).priority)))

raw_sched-head :
    (k : Kernel) (t : ℕ) (rest : List ℕ)
    → in_interrupt k ≡ false
    → is_locked k ≡ false
    → k.rq.task_ready_list k.rq.highest_priority ≡ t ∷ rest
    → ((raw_sched k).high_ready_obj ≡ some t)
      × ((raw_sched k).calls ≡ (
          if t == k.raw_task_active then k.calls else context_switch k.raw_task_active t ∷ k.calls))
unfolding raw_sched
raw_sched-head k t rest task free e =
    let high : get_ready_task k.rq ≡ some t = get_ready_task_lem k.rq t rest e in
    rw (task, free, high) (ground arith)

-- With no interrupt running, no lock, and some task ready, such as the idle task, the scheduler
-- chooses a ready task than which none is more urgent, and asks for the switch exactly if it is not
-- the running one.
pub raw_sched-Chosen :
    (k : Kernel) (idle : ℕ)
    → WellFormed k
    → in_interrupt k ≡ false
    → is_locked k ≡ false
    → (k.tasks idle).task_state ≡ rdy
    → (t : ℕ) × Chosen k (raw_sched k) t
raw_sched-Chosen k idle w task free e = go (k.rq.task_ready_list k.rq.highest_priority) refl
  where
    go :
        (l : List ℕ)
        → k.rq.task_ready_list k.rq.highest_priority ≡ l
        → (t : ℕ) × Chosen k (raw_sched k) t
    go [] none_ready =
        let low = highest-le k idle w e in
        let some_task = w.queue.attained (omega (arith, w.range idle)) in absurd (ground arith)
    go (t ∷ rest) first =
        let here = w.placed.in_ready t k.rq.highest_priority in
        let counted = ap (count t) first ∙ count-cons t t rest in
        let r = raw_sched-head k t rest task free first in
        let mine : ((k.tasks t).task_state ≡ rdy) × ((k.tasks t).priority ≡ k.rq.highest_priority) =
          ground arith in
        (
          t,
          record {
            ready = mine.0;
            best = λ u h. rw mine.1 (highest-le k u w h);
            high = r.0;
            switched = r.1;
          },
        )
