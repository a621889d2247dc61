-- ===== src/Kernel/Pend/Ready.antt =====
-- The run queue operations of the kernel field by field.
use raw_os.Shared.{
  ℕ, zero, suc, ◌+◌, ◌≡◌, refl, false, ◌==◌, List, [], ◌∷◌, b2n, count, arith, count-cons,
  count-snoc, count-erase, not-empty_of_count, erase_of_count,
}
use raw_os.RunQueue
use raw_os.RunQueue.{prio_max}
use raw_os.RunQueue.Valid.{IsValid, remove_ready_list-IsValid}
use raw_os.Kernel.Frame.{SameObjects, SameObjects-lists, SameObjects-refl, SameObjects-trans}
use raw_os.Kernel.{Kernel, Task, BlockWay, way_fifo, way_prio, rdy}
use raw_os.Kernel.Place.{WellFormed}
use raw_os.Kernel.Pend.{critical_errors, remove_ready_list, add_to_priority_list, insert_blocked}

module _ (k : Kernel) where
  rq-critical_errors : (n : ℕ) → (critical_errors k n).rq ≡ k.rq
  rq-critical_errors zero = refl
  rq-critical_errors (suc n) = refl

  tasks-critical_errors : (n : ℕ) → (critical_errors k n).tasks ≡ k.tasks
  tasks-critical_errors zero = refl
  tasks-critical_errors (suc n) = refl

  block_list-critical_errors : (n : ℕ) → (critical_errors k n).block_list ≡ k.block_list
  block_list-critical_errors zero = refl
  block_list-critical_errors (suc n) = refl

  tick_list-critical_errors : (n : ℕ) → (critical_errors k n).tick_list ≡ k.tick_list
  tick_list-critical_errors zero = refl
  tick_list-critical_errors (suc n) = refl

module _ (k : Kernel) (t : ℕ) where
  pub rq-remove_ready_list :
      (remove_ready_list k t).rq ≡ (RunQueue.remove_ready_list k.rq t (k.tasks t).priority).0
  unfolding remove_ready_list
  rq-remove_ready_list = rq-critical_errors _ _

  pub tasks-remove_ready_list : (remove_ready_list k t).tasks ≡ k.tasks
  unfolding remove_ready_list
  tasks-remove_ready_list = tasks-critical_errors _ _

  pub block_list-remove_ready_list : (remove_ready_list k t).block_list ≡ k.block_list
  unfolding remove_ready_list
  block_list-remove_ready_list = block_list-critical_errors _ _

  pub tick_list-remove_ready_list : (remove_ready_list k t).tick_list ≡ k.tick_list
  unfolding remove_ready_list
  tick_list-remove_ready_list = tick_list-critical_errors _ _

pub count-add_to_priority_list :
    (tasks : ℕ → Task) (val t u : ℕ) (l : List ℕ)
    → count u (add_to_priority_list tasks val t l) ≡ b2n (t == u) + count u l
unfolding add_to_priority_list
count-add_to_priority_list tasks val t u [] = count-cons u t []
count-add_to_priority_list tasks val t u (q ∷ rest) = ground (
  arith,
  count-cons u t (q ∷ rest),
  count-cons u q rest,
  count-cons u q (add_to_priority_list tasks val t rest),
  count-add_to_priority_list tasks val t u rest,
)

pub count-insert_blocked :
    (way : BlockWay) (tasks : ℕ → Task) (t u : ℕ) (l : List ℕ)
    → count u (insert_blocked way tasks t l) ≡ b2n (t == u) + count u l
unfolding insert_blocked
count-insert_blocked way_fifo tasks t u l = omega (arith, count-snoc u t l)
count-insert_blocked way_prio tasks t u l = count-add_to_priority_list tasks _ t u l

-- A ready task leaves its ready list, while another task, such as the idle task, stays ready.
pub remove_ready-IsValid :
    (k : Kernel) (t idle : ℕ)
    → WellFormed k
    → (k.tasks t).task_state ≡ rdy
    → (k.tasks idle).task_state ≡ rdy
    → (t == idle) ≡ false
    → IsValid (RunQueue.remove_ready_list k.rq t (k.tasks t).priority).0
      × ((RunQueue.remove_ready_list k.rq t (k.tasks t).priority).1 ≡ 0)
remove_ready-IsValid k t idle w is_ready other apart =
    remove_ready_list-IsValid k.rq t (k.tasks t).priority (k.tasks idle).priority (w.range t)
      (λ q ne. erase_of_count t _ (ground (arith, w.placed.in_ready t q)))
      (not-empty_of_count t _ (ground (arith, w.placed.in_ready t (k.tasks t).priority)))
      (w.range idle)
      (not-empty_of_count idle _ (
        ground (
          arith,
          count-erase idle t (k.rq.task_ready_list (k.tasks idle).priority),
          w.placed.in_ready idle (k.tasks idle).priority,
        )))
      w.queue

critical_errors-SameObjects : (k : Kernel) (n : ℕ) → SameObjects k (critical_errors k n)
critical_errors-SameObjects k zero = SameObjects-refl k
critical_errors-SameObjects k (suc n) = SameObjects-lists _ _ _ _ _ _ _

pub remove_ready_list-SameObjects : (k : Kernel) (t : ℕ) → SameObjects k (remove_ready_list k t)
unfolding remove_ready_list
remove_ready_list-SameObjects k t =
    let (rq, errors) = RunQueue.remove_ready_list k.rq t (k.tasks t).priority in
    let k1 = record k { rq = rq } in
    let first : SameObjects k k1 = SameObjects-lists _ _ _ _ _ _ _ in
    SameObjects-trans first (critical_errors-SameObjects k1 errors)
