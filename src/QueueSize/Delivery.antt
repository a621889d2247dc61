-- ===== src/QueueSize/Delivery.antt =====
-- Where a message with a size goes: into a cell of the queue, or to the first task that waits.
use raw_os.Shared.{
  ℕ, ◌<◌, ◌≡◌, refl, ◌∙◌, ap, Bool, true, false, leb, ◌==◌, if◌then◌else◌, not, Option, none, some,
  List, [], ◌∷◌, ◌++◌, arith, ◌&&◌, ◌⊎◌, inl, inr, Bool-cases, ==_refl,
}
use raw_os.MsgCells.Contents.{Contains}
use raw_os.MsgCells.Post.{post-Contains}
use raw_os.MsgCells.Take.{receive-Contains}
use raw_os.Kernel.{
  b_ok, Kernel, Task, queue_size_obj, set_task, wrong_type, success, msg_max, returned,
  in_interrupt,
}
use raw_os.Kernel.Place.{WellFormed}
use raw_os.Kernel.Place.Moves.{set_task-WellFormed}
use raw_os.Kernel.Pend.Wake.{woken_task, wake_send_msg_size_lem}
use raw_os.Kernel.Pend.First.{WokeFirst, raw_sched-WokeFirst, unblock-WokeFirst}
use raw_os.Kernel.System.{post_process_woken}
use raw_os.QueueSize.{
  msg_size_post, call_full, raw_queue_size_receive, raw_queue_size_receive_resume, take_result,
}

-- A post to a queue that is not full and for which tasks wait gives the message and its size to the
-- first of them, wakes it and no other, and leaves the cells as they are.
pub msg_size_post-WokeFirst :
    (k : Kernel) (o t p_void size : ℕ) (rest : List ℕ) (to_end : Bool)
    → WellFormed k
    → wrong_type k o queue_size_obj ≡ false
    → leb (k.queue_sizes o).msg_cells.queue_msg_size (k.queue_sizes o).msg_cells.queue_current_msg
      ≡ false
    → k.block_list o ≡ t ∷ rest
    → let (k', status) = msg_size_post k o p_void size to_end false in
      WokeFirst (set_task k t (record (k.tasks t) { msg = p_void; msg_size = size })) k' o t rest
      × (status ≡ success)
unfolding msg_size_post
msg_size_post-WokeFirst k o t p_void size rest to_end w type room e =
    rw (type, room, e, wake_send_msg_size_lem k t p_void size)
      (
        raw_sched-WokeFirst k1 _ o t rest (
            unblock-WokeFirst k1 o t rest
              (set_task-WellFormed k t (record (k.tasks t) { msg = p_void; msg_size = size }) refl
                refl refl refl w)
              e),
        refl,
      )
  where
    k1 : Kernel
    k1 = set_task k t (record (k.tasks t) { msg = p_void; msg_size = size })

queue_sizes-call_full :
    (k : Kernel) (o p_void size : ℕ) (f : Option ℕ)
    → (call_full k o p_void size f).queue_sizes ≡ k.queue_sizes
unfolding call_full
queue_sizes-call_full k o p_void size none = refl
queue_sizes-call_full k o p_void size (some f) = refl

-- With no task waiting, a post to a queue that has room puts the message and its size at the end or,
-- if asked to, at the front, and succeeds; a post to a full queue fails with `msg_max` and changes no
-- queue.
pub msg_size_post-Contains :
    (k : Kernel) (o p_void size : ℕ) (to_end all : Bool) (msgs : List (ℕ × ℕ))
    → wrong_type k o queue_size_obj ≡ false
    → Contains (k.queue_sizes o).msg_cells msgs
    → k.block_list o ≡ []
    → let q = (k.queue_sizes o).msg_cells in
      let (k', status) = msg_size_post k o p_void size to_end all in
      ((q.queue_current_msg < q.queue_msg_size)
        × (status ≡ success)
        × Contains
            (k'.queue_sizes o).msg_cells
            (if to_end then msgs ++ (p_void, size) ∷ [] else (p_void, size) ∷ msgs))
      ⊎ ((q.queue_current_msg ≡ q.queue_msg_size)
          × (status ≡ msg_max)
          × (k'.queue_sizes ≡ k.queue_sizes))
unfolding msg_size_post
msg_size_post-Contains k o p_void size to_end all msgs type c e =
    let q = (k.queue_sizes o).msg_cells in
    elim (Bool-cases (leb q.queue_msg_size q.queue_current_msg)) [
      | inl full ↦
          rw (type, full)
            (inr (
              ground (arith, c.holds.room, c.holds.counted),
              refl,
              queue_sizes-call_full k o p_void size _,
            ))
      | inr room ↦
          let lt : q.queue_current_msg < q.queue_msg_size = ground arith in
          rw (type, room, e, ==_refl o)
            (inl (lt, refl, post-Contains q msgs p_void size to_end c lt))
    ]

-- A receive from a queue with messages returns at once with the oldest and its size, stored where the
-- caller asks, in two places, and leaves the others in their order.
pub raw_queue_size_receive-Contains :
    (k : Kernel) (o wait_option msg_ptr receive_size : ℕ) (msgs : List (ℕ × ℕ))
    → (in_interrupt k && not (wait_option == 0)) ≡ false
    → (o == 0) ≡ false
    → (msg_ptr == 0) ≡ false
    → (receive_size == 0) ≡ false
    → (receive_size == msg_ptr) ≡ false
    → wrong_type k o queue_size_obj ≡ false
    → Contains (k.queue_sizes o).msg_cells msgs
    → 0 < (k.queue_sizes o).msg_cells.queue_current_msg
    → let (k', status) = raw_queue_size_receive k o wait_option msg_ptr receive_size in
      (status ≡ returned success)
      × ((rest : List (ℕ × ℕ)) × (msgs ≡ (k'.memory msg_ptr, k'.memory receive_size) ∷ rest)
          × Contains (k'.queue_sizes o).msg_cells rest)
unfolding raw_queue_size_receive
raw_queue_size_receive-Contains k o wait_option msg_ptr receive_size msgs task valid place place'
      apart type c lt =
    let q = (k.queue_sizes o).msg_cells in
    let r = receive-Contains q msgs c lt in
    let full : not (q.queue_current_msg == 0) ≡ true = ground arith in
    rw
      (
        task,
        valid,
        place,
        place',
        type,
        full,
        apart,
        ==_refl o,
        ==_refl msg_ptr,
        ==_refl receive_size,
      )
      (refl, r)

resume_woken :
    (k : Kernel) (x : Task) (msg_ptr receive_size : ℕ)
    → k.tasks k.raw_task_active ≡ x
    → x.block_status ≡ b_ok
    → (msg_ptr == receive_size) ≡ false
    → let (k', status) = raw_queue_size_receive_resume k msg_ptr receive_size in
      (status ≡ success) × (k'.memory msg_ptr ≡ x.msg) × (k'.memory receive_size ≡ x.msg_size)
unfolding raw_queue_size_receive_resume take_result
resume_woken k x msg_ptr receive_size e ok apart =
    let woken = post_process_woken k k.raw_task_active (ap (λ (y : Task). y.block_status) e ∙ ok) in
    rw (woken, e, apart, ==_refl msg_ptr, ==_refl receive_size) (refl, refl, refl)

-- A task that waited for a message with a size takes both from its own record when it runs again:
-- after a post that woke it the receive succeeds, with the message and the size that were posted.
pub msg_size_post-resume :
    (k : Kernel) (o t p_void size msg_ptr receive_size : ℕ) (rest : List ℕ) (to_end : Bool)
    → WellFormed k
    → wrong_type k o queue_size_obj ≡ false
    → leb (k.queue_sizes o).msg_cells.queue_msg_size (k.queue_sizes o).msg_cells.queue_current_msg
      ≡ false
    → k.block_list o ≡ t ∷ rest
    → (msg_ptr == receive_size) ≡ false
    → let later = record (msg_size_post k o p_void size to_end false).0 { raw_task_active = t } in
      let (k', status) = raw_queue_size_receive_resume later msg_ptr receive_size in
      (status ≡ success) × (k'.memory msg_ptr ≡ p_void) × (k'.memory receive_size ≡ size)
msg_size_post-resume k o t p_void size msg_ptr receive_size rest to_end w type room e apart =
    let d = (msg_size_post-WokeFirst k o t p_void size rest to_end w type room e).0 in
    let x : Task = record (k.tasks t) { msg = p_void; msg_size = size } in
    let later = record (msg_size_post k o p_void size to_end false).0 { raw_task_active = t } in
    resume_woken later (woken_task b_ok x) msg_ptr receive_size
      (d.tasks_after t ∙ rw (==_refl t) refl) refl apart
