-- ===== src/RunQueue/Lists.antt =====
-- What the operations of the run queue do to the ready lists, counted task by task.
use raw_os.Shared.{
  ℕ, ◌+◌, ◌≡◌, ◌&&◌, ◌==◌, if◌then◌else◌, b2n, count, erase, arith, count-cons, count-snoc,
  count-erase, erase_of_count, ap,
}
use mathlib.Core.Path.{fun_ext}
use raw_os.RunQueue.{
  RunQueue, add_ready_list_head, add_ready_list_end, add_ready_list, unlink, remove_ready_list,
  move_to_ready_list_end,
}

module _ (rq : RunQueue) (t p u q : ℕ) where
  pub count-add_ready_list_head :
      count u ((add_ready_list_head rq t p).task_ready_list q)
      ≡ b2n ((p == q) && (t == u)) + count u (rq.task_ready_list q)
  unfolding add_ready_list_head
  count-add_ready_list_head = ground (arith, count-cons u t (rq.task_ready_list p))

  pub count-add_ready_list_end :
      count u ((add_ready_list_end rq t p).task_ready_list q)
      ≡ b2n ((p == q) && (t == u)) + count u (rq.task_ready_list q)
  unfolding add_ready_list_end
  count-add_ready_list_end = ground (arith, count-snoc u t (rq.task_ready_list p))

  pub count-remove_ready_list :
      count u ((remove_ready_list rq t p).0.task_ready_list q)
      ≡ (if t == u then 0 else count u (rq.task_ready_list q))
  unfolding remove_ready_list
  count-remove_ready_list = ground (arith, count-erase u t (rq.task_ready_list q))

  pub count-move_to_ready_list_end :
      count u ((move_to_ready_list_end rq t p).task_ready_list q)
      ≡ (if t == u then b2n (p == q) else count u (rq.task_ready_list q))
  unfolding move_to_ready_list_end
  count-move_to_ready_list_end = ground (
    arith,
    count-snoc u t (erase t (rq.task_ready_list p)),
    count-erase u t (rq.task_ready_list p),
    count-erase u t (rq.task_ready_list q),
  )

pub count-add_ready_list :
    (rq : RunQueue) (a t p u q : ℕ)
    → count u ((add_ready_list rq a t p).task_ready_list q)
      ≡ b2n ((p == q) && (t == u)) + count u (rq.task_ready_list q)
unfolding add_ready_list
count-add_ready_list rq a t p u q =
    ground (arith, count-add_ready_list_head rq t p u q, count-add_ready_list_end rq t p u q)

-- A task in no ready list leaves them as they are.
pub unlink_of_absent :
    (rq : RunQueue) (t : ℕ) → ((p : ℕ) → count t (rq.task_ready_list p) ≡ 0) → unlink rq t ≡ rq
unfolding unlink
unlink_of_absent rq t absent =
    ap (λ l. record rq { task_ready_list = l }) (fun_ext (λ p. erase_of_count t _ (absent p)))
