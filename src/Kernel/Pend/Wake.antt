-- ===== src/Kernel/Pend/Wake.antt =====
-- Waking a blocked task, by a post or the deletion of its object.
use raw_os.Shared.{
  ℕ, ◌≡◌, refl, sym, ◌∙◌, ap, Bool, true, false, ◌==◌, if◌then◌else◌, none, b2n, count, erase,
  arith, count-erase, Bool-cases, inl, inr,
}
use raw_os.RunQueue
use raw_os.RunQueue.{RunQueue, prio_max}
use raw_os.RunQueue.Valid.{IsValid, add_ready_list-IsValid}
use raw_os.RunQueue.Lists.{count-add_ready_list, unlink_of_absent}
use raw_os.Kernel.Frame.{SameObjects, SameObjects-lists, SameObjects-trans}
use raw_os.Kernel.{
  set_task, Kernel, Task, TaskStatus, BlockState, rdy, pend, pend_timeout, pend_timeout_suspended,
  suspended, pend_suspended, b_ok,
}
use raw_os.Kernel.Tick.{tick_list_remove}
use raw_os.Kernel.Tick.Remove.{
  rq-tick_list_remove, block_list-tick_list_remove, tasks-tick_list_remove, count-tick_list_remove,
  tick_list_remove-SameObjects,
}
use raw_os.Kernel.Place.{Place, Placed, place, is_pending, WellFormed, at_ready, place_in}
use raw_os.Kernel.Place.Moves.{Placed-ext}
use raw_os.Kernel.Pend.{
  leave_block_list, unblock, raw_wake_object, wake_send_msg, wake_send_msg_size,
}

-- The state that a pending task wakes in.
abbrev pub woken : TaskStatus → TaskStatus
woken pend = rdy
woken pend_timeout = rdy
woken pend_suspended = suspended
woken pend_timeout_suspended = suspended
woken other = other

-- A pending task once it is woken.
abbrev pub woken_task : BlockState → Task → Task
woken_task status x = record x {
  task_state = woken x.task_state;
  on_tick = false;
  block_status = status;
  block_obj = none;
}

abbrev is_rdy : TaskStatus → Bool
is_rdy rdy = true
is_rdy other = false

module _ (k : Kernel) (t : ℕ) (status : BlockState)
    (waits : is_pending (k.tasks t).task_state ≡ true) where
  abbrev active : ℕ
  active = (k.tasks k.raw_task_active).priority

  leave_lem :
      (s : TaskStatus)
      → is_pending s ≡ true
      → ((leave_block_list k t s).rq ≡ (
          if is_rdy (woken s)
          then RunQueue.add_ready_list (RunQueue.unlink k.rq t) active t (k.tasks t).priority
          else RunQueue.unlink k.rq t))
        × ((leave_block_list k t s).block_list ≡ (λ o. erase t (k.block_list o)))
        × ((leave_block_list k t s).tick_list ≡ k.tick_list)
        × ((u : ℕ)
            → (leave_block_list k t s).tasks u
              ≡ (if t == u then record (k.tasks t) { task_state = woken s } else k.tasks u))
  unfolding leave_block_list
  leave_lem pend h = (refl, refl, refl, λ u. refl)
  leave_lem pend_timeout h = (refl, refl, refl, λ u. refl)
  leave_lem pend_suspended h = (refl, refl, refl, λ u. refl)
  leave_lem pend_timeout_suspended h = (refl, refl, refl, λ u. refl)
  leave_lem other h = cc

  abbrev left : Kernel
  left = leave_block_list k t (k.tasks t).task_state

  pub tasks-unblock :
      (u : ℕ)
      → (unblock k t status).tasks u ≡ (if t == u then woken_task status (k.tasks t) else k.tasks u)
  unfolding unblock
  tasks-unblock u = ground (
    arith,
    tasks-tick_list_remove left t u,
    tasks-tick_list_remove left t t,
    (leave_lem (k.tasks t).task_state waits).3 u,
    (leave_lem (k.tasks t).task_state waits).3 t,
  )

  pub rq-unblock : (unblock k t status).rq ≡ (
      if is_rdy (woken (k.tasks t).task_state)
      then RunQueue.add_ready_list (RunQueue.unlink k.rq t) active t (k.tasks t).priority
      else RunQueue.unlink k.rq t)
  unfolding unblock
  rq-unblock = rq-tick_list_remove left t ∙ (leave_lem (k.tasks t).task_state waits).0

  pub block_list-unblock : (unblock k t status).block_list ≡ (λ o. erase t (k.block_list o))
  unfolding unblock
  block_list-unblock =
      block_list-tick_list_remove left t ∙ (leave_lem (k.tasks t).task_state waits).1

  pub count-tick_list-unblock :
      count t k.tick_list ≡ b2n (k.tasks t).on_tick
      → (u : ℕ)
      → count u (unblock k t status).tick_list ≡ (if t == u then 0 else count u k.tick_list)
  unfolding unblock
  count-tick_list-unblock h u =
      let lem = leave_lem (k.tasks t).task_state waits in
      let flag : left.tasks t ≡ record (k.tasks t) { task_state = woken (k.tasks t).task_state } =
        lem.3 t ∙ (ground arith) in
      let same : count t left.tick_list ≡ b2n (left.tasks t).on_tick =
        ap (count t) lem.2 ∙ h ∙ sym (ap (λ (x : Task). b2n x.on_tick) flag) in
      count-tick_list_remove left t u same ∙ ap (λ l. if t == u then 0 else count u l) lem.2

  -- A task that waits is in no ready list.
  unlink-waiting : WellFormed k → RunQueue.unlink k.rq t ≡ k.rq
  unlink-waiting w = unlink_of_absent k.rq t (λ p. ground (arith, w.placed.in_ready t p))

  queue-unblock : WellFormed k → IsValid (unblock k t status).rq
  queue-unblock w = rw (rq-unblock, unlink-waiting w) (go (is_rdy (woken (k.tasks t).task_state)))
    where
      go :
          (b : Bool)
          → IsValid (if b then RunQueue.add_ready_list k.rq active t (k.tasks t).priority else k.rq)
      go true = add_ready_list-IsValid k.rq active t (k.tasks t).priority (w.range t) w.queue
      go false = w.queue

  after : ℕ → Place
  after u =
      if t == u
      then place_in (woken (k.tasks t).task_state) (k.tasks t).priority none
      else place (k.tasks u)

  place-unblock : (u : ℕ) → after u ≡ place ((unblock k t status).tasks u)
  unfolding after
  place-unblock u = rw (tasks-unblock u) (ground arith)

  in_ready-after :
      WellFormed k
      → (u p : ℕ)
      → count u (
          (if is_rdy (woken (k.tasks t).task_state)
              then RunQueue.add_ready_list k.rq active t (k.tasks t).priority
              else k.rq).task_ready_list
            p)
        ≡ b2n (at_ready (after u) p)
  unfolding after
  in_ready-after w u p = ground (
    arith,
    w.placed.in_ready u p,
    w.placed.in_ready t p,
    count-add_ready_list k.rq active t (k.tasks t).priority u p,
  )

  Placed-unblock :
      WellFormed k
      → Placed
          (unblock k t status).rq.task_ready_list
          (unblock k t status).block_list
          (λ u. place ((unblock k t status).tasks u))
  unfolding after
  Placed-unblock w =
      rw (rq-unblock, block_list-unblock, unlink-waiting w)
        (Placed-ext after place-unblock (record {
          in_ready = in_ready-after w;
          in_block = λ u o. ground (arith, w.placed.in_block u o, count-erase u t (k.block_list o));
        }))

  -- Waking a pending task, with any status, keeps the kernel well formed: each task is in the list
  -- where its state says, once, the run queue is valid, and the timers are those of the states.
  pub unblock-WellFormed : WellFormed k → WellFormed (unblock k t status)
  unblock-WellFormed w = record {
    placed = Placed-unblock w;
    queue = queue-unblock w;
    range = λ u. rw (tasks-unblock u) (ground (arith, w.range u, w.range t));
    ticks = λ u.
        rw (tasks-unblock u, count-tick_list-unblock (w.ticks t) u) (ground (arith, w.ticks u));
    timers = λ u. rw (tasks-unblock u) (ground (arith, w.timers u));
  }

leave-SameObjects : (k : Kernel) (t : ℕ) (s : TaskStatus) → SameObjects k (leave_block_list k t s)
unfolding leave_block_list
leave-SameObjects k t pend = SameObjects-lists _ _ _ _ _ _ _
leave-SameObjects k t other = SameObjects-lists _ _ _ _ _ _ _

pub unblock-SameObjects :
    (k : Kernel) (t : ℕ) (status : BlockState) → SameObjects k (unblock k t status)
unfolding unblock
unblock-SameObjects k t status =
    let left = leave_block_list k t (k.tasks t).task_state in
    let last : SameObjects (tick_list_remove left t) (unblock k t status) =
      SameObjects-lists _ _ _ _ _ _ _ in
    SameObjects-trans
      (SameObjects-trans (leave-SameObjects k t (k.tasks t).task_state)
        (tick_list_remove-SameObjects left t))
      last

pub raw_wake_object_lem : (k : Kernel) (t : ℕ) → raw_wake_object k t ≡ unblock k t b_ok
unfolding raw_wake_object
raw_wake_object_lem k t = refl

pub wake_send_msg_lem :
    (k : Kernel) (t msg : ℕ)
    → wake_send_msg k t msg ≡ unblock (set_task k t (record (k.tasks t) { msg = msg })) t b_ok
unfolding wake_send_msg
wake_send_msg_lem k t msg = refl

pub wake_send_msg_size_lem :
    (k : Kernel) (t msg size : ℕ)
    → wake_send_msg_size k t msg size
      ≡ unblock (set_task k t (record (k.tasks t) { msg = msg; msg_size = size })) t b_ok
unfolding wake_send_msg_size
wake_send_msg_size_lem k t msg size = refl

tasks-leave_block_list :
    (k : Kernel) (t : ℕ) (s : TaskStatus)
    → is_pending s ≡ false
    → (leave_block_list k t s).tasks ≡ k.tasks
unfolding leave_block_list
tasks-leave_block_list k t pend e = cc
tasks-leave_block_list k t pend_timeout e = cc
tasks-leave_block_list k t pend_suspended e = cc
tasks-leave_block_list k t pend_timeout_suspended e = cc
tasks-leave_block_list k t other e = refl

woken-awake : (s : TaskStatus) → is_pending s ≡ true → is_pending (woken s) ≡ false
woken-awake pend e = refl
woken-awake pend_timeout e = refl
woken-awake pend_suspended e = refl
woken-awake pend_timeout_suspended e = refl
woken-awake other e = cc

-- After a wake-up a task does not wait, whatever its state was.
pub unblock_awake :
    (k : Kernel) (t : ℕ) (status : BlockState)
    → is_pending ((unblock k t status).tasks t).task_state ≡ false
unfolding unblock
unblock_awake k t status = elim (Bool-cases (is_pending (k.tasks t).task_state)) [
  | inl waits ↦
      ground (arith, tasks-unblock k t status waits t, woken-awake (k.tasks t).task_state waits)
  | inr e ↦
      let same = ap (λ f. f t) (tasks-leave_block_list k t (k.tasks t).task_state e) in
      let left = leave_block_list k t (k.tasks t).task_state in
      ground (arith, tasks-tick_list_remove left t t, same, e)
]
