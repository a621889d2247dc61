-- ===== src/Tests/Queues.antt =====
-- Queues at concrete inputs.
use raw_os.Shared.{◌≡◌, ◌<◌, ◌++◌, refl, true, false, [], ◌∷◌, arith, if◌then◌else◌, ◌⊎◌}
use raw_os.MsgRing.{MsgQ}
use raw_os.MsgRing.Contents.{IsValid, contents}
use raw_os.Kernel.{Kernel, queue_obj, success, msg_max, set_task, set_queue, returned}
use raw_os.Kernel.Pend.First.{WokeFirst}
use raw_os.Queue.{msg_post, raw_queue_receive, raw_queue_receive_resume}
use raw_os.Queue.Delivery.{
  msg_post-WokeFirst, msg_post-contents, raw_queue_receive-contents, msg_post-resume,
}
use raw_os.Tests.{waiting_kernel, waiting_kernel-WellFormed, base_kernel}

-- A ring of three messages that holds 8 and 9, wrapped round the end of its storage.
abbrev ring : MsgQ
ring = record {
  storage = 9 ∷ 0 ∷ 8 ∷ [];
  write = 1;
  read = 2;
  size = 3;
  current_numbers = 2;
  peak_numbers = 3;
}

ring-IsValid : IsValid ring
ring-IsValid = record {
  stored = refl;
  read_in = omega arith;
  fits = omega arith;
  write_at = refl;
  peak = omega arith;
}

abbrev k0 : Kernel
k0 = waiting_kernel queue_obj

abbrev k1 : Kernel
k1 =
    set_queue (base_kernel queue_obj) 100
      (record ((base_kernel queue_obj).queues 100) { msg_q = ring })

msg_post-WokeFirst_example :
    let (k', status) = msg_post k0 100 77 true false in
    WokeFirst (set_task k0 3 (record (k0.tasks 3) { msg = 77 })) k' 100 3 (4 ∷ [])
    × (status ≡ success)
msg_post-WokeFirst_example =
    msg_post-WokeFirst k0 100 3 77 (4 ∷ []) true (waiting_kernel-WellFormed queue_obj) refl refl
      refl

msg_post-contents_example :
    let q = (k1.queues 100).msg_q in
    let (k', status) = msg_post k1 100 77 true false in
    let q' = (k'.queues 100).msg_q in
    ((q.current_numbers < q.size)
      × (status ≡ success)
      × IsValid q'
      × (contents q' ≡ (if true then contents q ++ 77 ∷ [] else 77 ∷ contents q)))
    ⊎ ((q.current_numbers ≡ q.size) × (status ≡ msg_max) × (k'.queues ≡ k1.queues))
msg_post-contents_example = msg_post-contents k1 100 77 true false refl ring-IsValid refl

raw_queue_receive-contents_example :
    let (k', status) = raw_queue_receive k1 100 0 500 in
    let q' = (k'.queues 100).msg_q in
    (status ≡ returned success)
    × IsValid q'
    × (contents (k1.queues 100).msg_q ≡ k'.memory 500 ∷ contents q')
raw_queue_receive-contents_example =
    raw_queue_receive-contents k1 100 0 500 refl refl refl refl ring-IsValid (omega arith)

msg_post-resume_example :
    let later = record (msg_post k0 100 77 true false).0 { raw_task_active = 3 } in
    let (k', status) = raw_queue_receive_resume later 500 in
    (status ≡ success) × (k'.memory 500 ≡ 77)
msg_post-resume_example =
    msg_post-resume k0 100 3 77 500 (4 ∷ []) true (waiting_kernel-WellFormed queue_obj) refl refl
      refl refl
