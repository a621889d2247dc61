-- ===== src/Kernel/Pend/Leave.antt =====
-- A running or ready task that leaves the ready lists for no block list: by a delay or a suspension.
use raw_os.Shared.{
  ℕ, ◌+◌, ◌≡◌, refl, ◌∙◌, ap, false, ◌==◌, ◌&&◌, if◌then◌else◌, b2n, count, update, arith,
}
use raw_os.RunQueue
use raw_os.RunQueue.Lists.{count-remove_ready_list}
use raw_os.Kernel.{Kernel, Task, rdy}
use raw_os.Kernel.Place.{Place, nowhere, place, WellFormed, has_timer}
use raw_os.Kernel.Place.Moves.{remove-Placed, Placed-ext}
use raw_os.Kernel.Pend.{remove_ready_list}
use raw_os.Kernel.Pend.Ready.{
  rq-remove_ready_list, tasks-remove_ready_list, block_list-remove_ready_list,
  tick_list-remove_ready_list, remove_ready-IsValid,
}

-- The kernel `m` is `k` with the task `t` changed to `x`, and put into the tick list if `x` says so.
module _ (k m : Kernel) (t idle : ℕ) (x : Task) (rq : m.rq ≡ k.rq)
    (lists : m.block_list ≡ k.block_list)
    (tasks : (u : ℕ) → m.tasks u ≡ (if t == u then x else k.tasks u))
    (ticks : (u : ℕ) → count u m.tick_list ≡ b2n (t == u && x.on_tick) + count u k.tick_list)
    (priority : x.priority ≡ (k.tasks t).priority) (out : place x ≡ nowhere)
    (timer : x.on_tick ≡ has_timer x.task_state) (w : WellFormed k)
    (is_ready : (k.tasks t).task_state ≡ rdy) (other : (k.tasks idle).task_state ≡ rdy)
    (apart : (t == idle) ≡ false) where
  abbrev left : Kernel
  left = remove_ready_list m t

  rq-left : left.rq ≡ (RunQueue.remove_ready_list k.rq t (k.tasks t).priority).0
  rq-left =
      let same : (m.tasks t).priority ≡ (k.tasks t).priority = ground (arith, tasks t, priority) in
      rw (rq-remove_ready_list m t, same, rq) refl

  tasks-left : (u : ℕ) → left.tasks u ≡ (if t == u then x else k.tasks u)
  tasks-left u = ap (λ f. f u) (tasks-remove_ready_list m t) ∙ tasks u

  lists-left : left.block_list ≡ k.block_list
  lists-left = block_list-remove_ready_list m t ∙ lists

  after : ℕ → Place
  after = update (λ u. place (k.tasks u)) t nowhere

  place-left : (u : ℕ) → after u ≡ place (left.tasks u)
  unfolding after
  place-left u = rw (tasks-left u) (ground (arith, out))

  pub leave-WellFormed : WellFormed left
  unfolding after
  leave-WellFormed = record {
    placed =
        rw (rq-left, lists-left)
          (Placed-ext after place-left (
            remove-Placed t w.placed _
              (λ u q. count-remove_ready_list k.rq t (k.tasks t).priority u q)
              (λ q. ground arith)));
    queue = rw rq-left (remove_ready-IsValid k t idle w is_ready other apart).0;
    range = λ u. rw (tasks-left u) (ground (arith, w.range u, w.range t, priority));
    ticks = λ u.
        rw (tick_list-remove_ready_list m t, tasks-left u)
          (ground (arith, ticks u, w.ticks u, w.ticks t, w.timers t));
    timers = λ u. rw (tasks-left u) (ground (arith, w.timers u, timer));
  }
