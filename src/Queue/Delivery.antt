-- ===== src/Queue/Delivery.antt =====
-- Where a message goes: into the ring, to the first task that waits, or to all of them.
use raw_os.Shared.{
  ℕ, ◌<◌, ◌≡◌, refl, ◌∙◌, ap, Bool, true, false, leb, ◌==◌, if◌then◌else◌, not, Option, none, some,
  List, [], ◌∷◌, ◌++◌, arith, update, ◌&&◌, ◌⊎◌, inl, inr, Bool-cases, ==_refl,
}
use raw_os.MsgRing.{MsgQ, post_end, post_front}
use raw_os.MsgRing.Contents.{
  IsValid, contents, contents-post_end, contents-post_front, post-IsValid, contents-receive,
}
use raw_os.Kernel.{
  Kernel, Task, queue_obj, set_task, set_queue, wrong_type, success, msg_max, returned,
  in_interrupt,
}
use raw_os.Kernel.Place.{WellFormed}
use raw_os.Kernel.Place.Moves.{set_task-WellFormed}
use raw_os.Kernel.Pend.Wake.{wake_send_msg_lem}
use raw_os.Kernel.Pend.First.{WokeFirst, raw_sched-WokeFirst, unblock-WokeFirst}
use raw_os.Kernel.System.{post_process_ok}
use raw_os.Queue.{
  msg_post, post_ring, call_send, call_full, raw_queue_receive, raw_queue_receive_resume,
}

-- A post to a queue that is not full and for which tasks wait gives the message to the first of them,
-- wakes it and no other, and leaves the ring as it is.
pub msg_post-WokeFirst :
    (k : Kernel) (o t msg : ℕ) (rest : List ℕ) (to_end : Bool)
    → WellFormed k
    → wrong_type k o queue_obj ≡ false
    → leb (k.queues o).msg_q.size (k.queues o).msg_q.current_numbers ≡ false
    → k.block_list o ≡ t ∷ rest
    → let (k', status) = msg_post k o msg to_end false in
      WokeFirst (set_task k t (record (k.tasks t) { msg = msg })) k' o t rest × (status ≡ success)
unfolding msg_post
msg_post-WokeFirst k o t msg rest to_end w type room e =
    rw (type, room, e, wake_send_msg_lem k t msg)
      (
        raw_sched-WokeFirst k1 _ o t rest (
            unblock-WokeFirst k1 o t rest
              (set_task-WellFormed k t (record (k.tasks t) { msg = msg }) refl refl refl refl w) e),
        refl,
      )
  where
    k1 : Kernel
    k1 = set_task k t (record (k.tasks t) { msg = msg })

queues-call_send : (k : Kernel) (o : ℕ) (f : Option ℕ) → (call_send k o f).queues ≡ k.queues
unfolding call_send
queues-call_send k o none = refl
queues-call_send k o (some f) = refl

queues-call_full : (k : Kernel) (o msg : ℕ) (f : Option ℕ) → (call_full k o msg f).queues ≡ k.queues
unfolding call_full
queues-call_full k o msg none = refl
queues-call_full k o msg (some f) = refl

posted : MsgQ → ℕ → Bool → MsgQ
posted q msg true = post_end q msg
posted q msg false = post_front q msg

posted_lem :
    (q : MsgQ) (msg : ℕ) (to_end : Bool)
    → IsValid q
    → q.current_numbers < q.size
    → IsValid (posted q msg to_end)
      × (contents (posted q msg to_end)
          ≡ (if to_end then contents q ++ msg ∷ [] else msg ∷ contents q))
unfolding posted
posted_lem q msg true v room = ((post-IsValid q msg v room).0, contents-post_end q msg v room)
posted_lem q msg false v room = ((post-IsValid q msg v room).1, contents-post_front q msg v room)

post_ring_lem :
    (k : Kernel) (o msg : ℕ) (to_end : Bool)
    → ((post_ring k o msg to_end).queues o).msg_q ≡ posted (k.queues o).msg_q msg to_end
unfolding post_ring posted
post_ring_lem k o msg true =
    let q = record (k.queues o) { msg_q = post_end (k.queues o).msg_q msg } in
    rw (queues-call_send (set_queue k o q) o (k.queues o).queue_send_notify, ==_refl o) refl
post_ring_lem k o msg false =
    let q = record (k.queues o) { msg_q = post_front (k.queues o).msg_q msg } in
    rw (queues-call_send (set_queue k o q) o (k.queues o).queue_send_notify, ==_refl o) refl

-- With no task waiting, a post to a ring that has room puts the message at the end or, if asked to, at
-- the front, and succeeds; a post to a full ring fails with `msg_max` and changes no ring.
pub msg_post-contents :
    (k : Kernel) (o msg : ℕ) (to_end all : Bool)
    → wrong_type k o queue_obj ≡ false
    → IsValid (k.queues o).msg_q
    → k.block_list o ≡ []
    → let q = (k.queues o).msg_q in
      let (k', status) = msg_post k o msg to_end all in
      let q' = (k'.queues o).msg_q in
      ((q.current_numbers < q.size)
        × (status ≡ success)
        × IsValid q'
        × (contents q' ≡ (if to_end then contents q ++ msg ∷ [] else msg ∷ contents q)))
      ⊎ ((q.current_numbers ≡ q.size) × (status ≡ msg_max) × (k'.queues ≡ k.queues))
unfolding msg_post
msg_post-contents k o msg to_end all type v e =
    elim (Bool-cases (leb (k.queues o).msg_q.size (k.queues o).msg_q.current_numbers)) [
      | inl full ↦ rw (type, full) (inr (ground (arith, v.fits), refl, queues-call_full k o msg _))
      | inr room ↦
          let lt : (k.queues o).msg_q.current_numbers < (k.queues o).msg_q.size = ground arith in
          let r = posted_lem (k.queues o).msg_q msg to_end v lt in
          rw (type, room, e, post_ring_lem k o msg to_end) (inl (lt, refl, r.0, r.1))
    ]

-- A receive from a queue with messages returns at once with the oldest, stored where the caller
-- asks, and leaves the others in their order.
pub raw_queue_receive-contents :
    (k : Kernel) (o wait_option msg : ℕ)
    → (in_interrupt k && not (wait_option == 0)) ≡ false
    → (o == 0) ≡ false
    → (msg == 0) ≡ false
    → wrong_type k o queue_obj ≡ false
    → IsValid (k.queues o).msg_q
    → 0 < (k.queues o).msg_q.current_numbers
    → let (k', status) = raw_queue_receive k o wait_option msg in
      let q' = (k'.queues o).msg_q in
      (status ≡ returned success)
      × IsValid q'
      × (contents (k.queues o).msg_q ≡ k'.memory msg ∷ contents q')
unfolding raw_queue_receive
raw_queue_receive-contents k o wait_option msg task valid place type v some_left =
    let r = contents-receive (k.queues o).msg_q v some_left in
    let full : not ((k.queues o).msg_q.current_numbers == 0) ≡ true = ground arith in
    rw (task, valid, place, type, full, ==_refl o, ==_refl msg) (refl, r.1, r.0)

-- A task that waited for a message takes it from its own record when it runs again: after a post that
-- woke it the receive succeeds, and the message that was posted is where the task asked for it.
pub msg_post-resume :
    (k : Kernel) (o t msg address : ℕ) (rest : List ℕ) (to_end : Bool)
    → WellFormed k
    → wrong_type k o queue_obj ≡ false
    → leb (k.queues o).msg_q.size (k.queues o).msg_q.current_numbers ≡ false
    → k.block_list o ≡ t ∷ rest
    → (address == 0) ≡ false
    → let later = record (msg_post k o msg to_end false).0 { raw_task_active = t } in
      let (k', status) = raw_queue_receive_resume later address in
      (status ≡ success) × (k'.memory address ≡ msg)
unfolding raw_queue_receive_resume
msg_post-resume k o t msg address rest to_end w type room e valid =
    let d = (msg_post-WokeFirst k o t msg rest to_end w type room e).0 in
    let x = d.tasks_after t in
    let later = record (msg_post k o msg to_end false).0 { raw_task_active = t } in
    post_process_ok (record later { memory = update later.memory address 0 }) t address msg valid
      (ap (λ (y : Task). y.block_status) x ∙ (ground arith))
      (ap (λ (y : Task). y.msg) x ∙ (ground arith))
