-- ===== src/Kernel/Pend/Block.antt =====
-- `raw_pend_object`, field by field and as a move of its task.
use raw_os.Shared.{
  ℕ, ◌+◌, ◌%◌, ◌≡◌, refl, ◌∙◌, ap, true, false, not, ◌==◌, ◌&&◌, if◌then◌else◌, some, b2n, count,
  update, arith, if_cases,
}
use raw_os.RunQueue
use raw_os.RunQueue.Lists.{count-remove_ready_list}
use raw_os.Kernel.Frame.{SameObjects, SameObjects-lists, SameObjects-trans}
use raw_os.Kernel.{Kernel, Task, rdy, pend, pend_timeout, wait_forever, u32_mod, set_task}
use raw_os.Kernel.Tick.{tick_list_insert}
use raw_os.Kernel.Tick.Insert.{
  rq-tick_list_insert, block_list-tick_list_insert, tasks-tick_list_insert, count-tick_list_insert,
  tick_list_insert-SameObjects,
}
use raw_os.Kernel.Place.{Place, nowhere, on_block, place, WellFormed}
use raw_os.Kernel.Place.Moves.{remove-Placed, block-Placed, Placed-ext}
use raw_os.Kernel.Pend.{mark_blocked, raw_pend_object, remove_ready_list, insert_blocked, set_state}
use raw_os.Kernel.Pend.Ready.{
  rq-remove_ready_list, tasks-remove_ready_list, block_list-remove_ready_list,
  tick_list-remove_ready_list, count-insert_blocked, remove_ready-IsValid,
  remove_ready_list-SameObjects,
}

-- A ready task `t`, while another task stays ready; the time is not `RAW_NO_WAIT`.
module _ (k : Kernel) (o t timeout : ℕ) (finite : (timeout == 0) ≡ false) where
  -- The task as it blocks.
  pub blocked_task : Task
  blocked_task =
      let x = k.tasks t in
      if timeout == wait_forever
      then record x { block_obj = some o; task_state = pend }
      else record x {
        block_obj = some o;
        tick_match = (k.raw_tick_count + timeout) % u32_mod;
        tick_remain = timeout;
        on_tick = true;
        task_state = pend_timeout;
      }

  abbrev noted : Kernel
  noted = set_task k t (record (k.tasks t) { block_obj = some o })

  tasks-mark_blocked :
      (u : ℕ) → (mark_blocked k o t timeout).tasks u ≡ (if t == u then blocked_task else k.tasks u)
  unfolding mark_blocked blocked_task
  tasks-mark_blocked u = ground (
    arith,
    tasks-tick_list_insert noted t timeout finite u,
    tasks-tick_list_insert noted t timeout finite t,
  )

  rq-mark_blocked : (mark_blocked k o t timeout).rq ≡ k.rq
  unfolding mark_blocked
  rq-mark_blocked = ground (arith, rq-tick_list_insert noted t timeout)

  block_list-mark_blocked : (mark_blocked k o t timeout).block_list ≡ k.block_list
  unfolding mark_blocked
  block_list-mark_blocked = ground (arith, block_list-tick_list_insert noted t timeout)

  tick_list-mark_blocked :
      (u : ℕ)
      → count u (mark_blocked k o t timeout).tick_list
        ≡ b2n (t == u && not (timeout == wait_forever)) + count u k.tick_list
  unfolding mark_blocked
  tick_list-mark_blocked u = ground (arith, count-tick_list_insert noted t timeout finite u)

  abbrev marked : Kernel
  marked = mark_blocked k o t timeout

  pub tasks-raw_pend_object :
      (u : ℕ)
      → (raw_pend_object k o t timeout).tasks u ≡ (if t == u then blocked_task else k.tasks u)
  unfolding raw_pend_object
  tasks-raw_pend_object u = ap (λ f. f u) (tasks-remove_ready_list marked t) ∙ tasks-mark_blocked u

  priority-blocked_task : blocked_task.priority ≡ (k.tasks t).priority
  unfolding blocked_task
  priority-blocked_task = ground arith

  priority-marked : (marked.tasks t).priority ≡ (k.tasks t).priority
  priority-marked = ground (arith, tasks-mark_blocked t, priority-blocked_task)

  pub rq-raw_pend_object :
      (raw_pend_object k o t timeout).rq
      ≡ (RunQueue.remove_ready_list k.rq t (k.tasks t).priority).0
  unfolding raw_pend_object
  rq-raw_pend_object = rw (rq-remove_ready_list marked t, priority-marked, rq-mark_blocked) refl

  pub block_list-raw_pend_object :
      (raw_pend_object k o t timeout).block_list
      ≡ update k.block_list o (
          insert_blocked
            ((remove_ready_list marked t).objects o).block_way
            marked.tasks
            t
            (k.block_list o))
  unfolding raw_pend_object
  block_list-raw_pend_object =
      let lists : (remove_ready_list marked t).block_list ≡ k.block_list =
        block_list-remove_ready_list marked t ∙ block_list-mark_blocked in
      let way = ((remove_ready_list marked t).objects o).block_way in
      λ i.
        update (lists i) o (insert_blocked way (tasks-remove_ready_list marked t i) t (lists i o))

  tick_list-raw_pend_object : (raw_pend_object k o t timeout).tick_list ≡ marked.tick_list
  unfolding raw_pend_object
  tick_list-raw_pend_object = tick_list-remove_ready_list marked t

  after : ℕ → Place
  after = update (update (λ u. place (k.tasks u)) t nowhere) t (on_block o)

  place-raw_pend_object : (u : ℕ) → after u ≡ place ((raw_pend_object k o t timeout).tasks u)
  unfolding after blocked_task
  place-raw_pend_object u = rw (tasks-raw_pend_object u) (ground arith)

  -- A ready task that blocks on an object, for ever or with a timeout, leaves the kernel well formed,
  -- if another task stays ready.
  pub raw_pend_object-WellFormed :
      (idle : ℕ)
      → WellFormed k
      → (k.tasks t).task_state ≡ rdy
      → (k.tasks idle).task_state ≡ rdy
      → (t == idle) ≡ false
      → WellFormed (raw_pend_object k o t timeout)
  unfolding blocked_task after
  raw_pend_object-WellFormed idle w is_ready other apart = record {
    placed =
        rw (rq-raw_pend_object, block_list-raw_pend_object)
          (Placed-ext after place-raw_pend_object (
            block-Placed t
              (remove-Placed t w.placed _
                (λ u q. count-remove_ready_list k.rq t (k.tasks t).priority u q)
                (λ q. ground arith))
              o _ (λ u. count-insert_blocked _ _ t u (k.block_list o)) (ground arith)));
    queue = rw rq-raw_pend_object (remove_ready-IsValid k t idle w is_ready other apart).0;
    range = λ u. rw (tasks-raw_pend_object u) (ground (arith, w.range u, w.range t));
    ticks = λ u. rw (tasks-raw_pend_object u) (ticks' w is_ready u);
    timers = λ u. rw (tasks-raw_pend_object u) (ground (arith, w.timers u, w.timers t));
  }
    where
      ticks' :
          WellFormed k
          → (k.tasks t).task_state ≡ rdy
          → (u : ℕ)
          → count u (raw_pend_object k o t timeout).tick_list
            ≡ b2n (if t == u then blocked_task else k.tasks u).on_tick
      ticks' w is_ready u =
          ap (count u) tick_list-raw_pend_object
          ∙ ground (arith, tick_list-mark_blocked u, w.ticks u, w.timers u)

mark_blocked-SameObjects :
    (k : Kernel) (o t timeout : ℕ) → SameObjects k (mark_blocked k o t timeout)
unfolding mark_blocked
mark_blocked-SameObjects k o t timeout =
    if_cases (SameObjects k) (timeout == wait_forever) (λ e. SameObjects-lists _ _ _ _ _ _ _)
      λ e.
        SameObjects-trans (SameObjects-trans note (tick_list_insert-SameObjects noted t timeout))
          state
  where
    noted : Kernel
    noted = set_task k t (record (k.tasks t) { block_obj = some o })

    note : SameObjects k noted
    note = SameObjects-lists _ _ _ _ _ _ _

    state :
        SameObjects
          (tick_list_insert noted t timeout)
          (set_state (tick_list_insert noted t timeout) t pend_timeout)
    state = SameObjects-lists _ _ _ _ _ _ _

pub raw_pend_object-SameObjects :
    (k : Kernel) (o t timeout : ℕ) → SameObjects k (raw_pend_object k o t timeout)
unfolding raw_pend_object
raw_pend_object-SameObjects k o t timeout =
    let k1 = remove_ready_list (mark_blocked k o t timeout) t in
    let last : SameObjects k1 (raw_pend_object k o t timeout) = SameObjects-lists _ _ _ _ _ _ _ in
    SameObjects-trans
      (SameObjects-trans (mark_blocked-SameObjects k o t timeout)
        (remove_ready_list-SameObjects (mark_blocked k o t timeout) t))
      last
