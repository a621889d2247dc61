-- ===== src/Queue.antt =====
-- raw_queue.c: message queues. A message is the address that is sent, and 0 is refused.
pub mod Delivery
use raw_os.Shared.{
  ℕ, ◌+◌, ◌-◌, Bool, true, false, ltb, leb, ◌==◌, if◌then◌else◌, not, ◌&&◌, Option, none, some,
  List, [], ◌∷◌, length, is_empty, update,
}
use raw_os.MsgRing
use raw_os.MsgRing.{MsgQ}
use raw_os.Kernel.{
  Kernel, Queue, RawOsError, Outcome, returned, blocked, queue_obj, type_none, way_prio, set_queue,
  set_object, wrong_type, in_interrupt, is_locked, success, null_object, null_pointer, zero_number,
  error_object_type, msg_max, not_called_by_isr, no_pend_wait, sched_disable, queue_check_full,
  queue_check_not_full, notify, callback,
}
use raw_os.Kernel.Sched.{raw_sched}
use raw_os.Kernel.Pend.{wake_send_msg, delete_pend_obj, raw_pend_object, drain}
use raw_os.Kernel.System.{block_state_post_process}

-- `msg_start` is the address of the storage, and `storage` what stands there.
pub raw_queue_create : Kernel → ℕ → ℕ → List ℕ → ℕ → Kernel × RawOsError
raw_queue_create k o msg_start storage number =
    let k1 = record k { block_list = λ q. if o == q then [] else k.block_list q } in
    let k2 = set_queue k1 o (record {
      msg_q = MsgRing.create storage number;
      queue_send_notify = none;
      queue_full_callback = none;
    }) in
    if o == 0
    then (k, null_object)
    else if msg_start == 0
    then (k, null_pointer)
    else if number == 0
    then (k, zero_number)
    else (set_object k2 o (record { block_way = way_prio; object_type = queue_obj }), success)

pub raw_queue_full_register : Kernel → ℕ → Option ℕ → Kernel × RawOsError
raw_queue_full_register k o callback_full =
    if in_interrupt k
    then (k, not_called_by_isr)
    else (set_queue k o (record (k.queues o) { queue_full_callback = callback_full }), success)

call_full : Kernel → ℕ → ℕ → Option ℕ → Kernel
call_full k o msg none = k
call_full k o msg (some f) = record k { calls = callback f o msg ∷ k.calls }

call_send : Kernel → ℕ → Option ℕ → Kernel
call_send k o none = k
call_send k o (some f) = record k { calls = notify f o ∷ k.calls }

-- A message that no task waits for goes into the ring.
post_ring : Kernel → ℕ → ℕ → Bool → Kernel
unfolding call_send
post_ring k o msg to_end =
    let q = k.queues o in
    let ring = if to_end then MsgRing.post_end q.msg_q msg else MsgRing.post_front q.msg_q msg in
    call_send (set_queue k o (record q { msg_q = ring })) o q.queue_send_notify

wake_first : Kernel → List ℕ → ℕ → Kernel
wake_first k [] msg = k
wake_first k (t ∷ rest) msg = wake_send_msg k t msg

-- `to_end` says that `opt_send_method` is SEND_TO_END.
pub msg_post : Kernel → ℕ → ℕ → Bool → Bool → Kernel × RawOsError
unfolding call_full post_ring wake_first
msg_post k o msg to_end opt_wake_all =
    let q = k.queues o in
    let waiting = k.block_list o in
    if wrong_type k o queue_obj
    then (k, error_object_type)
    else if leb q.msg_q.size q.msg_q.current_numbers
    then (call_full k o msg q.queue_full_callback, msg_max)
    else if is_empty waiting
    then (post_ring k o msg to_end, success)
    else if opt_wake_all
    then (raw_sched (drain (λ k' t. wake_send_msg k' t msg) (length waiting) k o), success)
    else (raw_sched (wake_first k waiting msg), success)

abbrev checked_post : Kernel → ℕ → ℕ → Bool → Bool → Kernel × RawOsError
checked_post k o msg to_end opt_wake_all =
    if o == 0
    then (k, null_object)
    else if msg == 0
    then (k, null_pointer)
    else msg_post k o msg to_end opt_wake_all

pub raw_queue_front_post : Kernel → ℕ → ℕ → Kernel × RawOsError
raw_queue_front_post k o msg = checked_post k o msg false false

pub raw_queue_end_post : Kernel → ℕ → ℕ → Kernel × RawOsError
raw_queue_end_post k o msg = checked_post k o msg true false

pub raw_queue_post_notify : Kernel → ℕ → ℕ → Kernel × RawOsError
raw_queue_post_notify k o msg = checked_post k o msg true false

pub raw_queue_all_post : Kernel → ℕ → ℕ → Bool → Kernel × RawOsError
raw_queue_all_post k o msg to_end = checked_post k o msg to_end true

pub raw_queue_send_notify : Kernel → ℕ → Option ℕ → Kernel × RawOsError
raw_queue_send_notify k o notify_function =
    if o == 0
    then (k, null_object)
    else if in_interrupt k
    then (k, not_called_by_isr)
    else if wrong_type k o queue_obj
    then (k, error_object_type)
    else (set_queue k o (record (k.queues o) { queue_send_notify = notify_function }), success)

abbrev store : Kernel → ℕ → ℕ → Kernel
store k address value = record k { memory = update k.memory address value }

-- `msg` is where the message goes.
pub raw_queue_receive : Kernel → ℕ → ℕ → ℕ → Kernel × Outcome
raw_queue_receive k o wait_option msg =
    let q = k.queues o in
    let (pmsg, ring) = MsgRing.receive q.msg_q in
    if in_interrupt k && not (wait_option == 0)
    then (k, returned not_called_by_isr)
    else if o == 0
    then (k, returned null_object)
    else if msg == 0
    then (k, returned null_pointer)
    else if wrong_type k o queue_obj
    then (k, returned error_object_type)
    else if not (q.msg_q.current_numbers == 0)
    then (store (set_queue k o (record q { msg_q = ring })) msg pmsg, returned success)
    else if wait_option == 0
    then (store k msg 0, returned no_pend_wait)
    else if is_locked k
    then (store k msg 0, returned sched_disable)
    else (raw_sched (raw_pend_object k o k.raw_task_active wait_option), blocked)

-- `raw_queue_receive` once its task runs again.
pub raw_queue_receive_resume : Kernel → ℕ → Kernel × RawOsError
raw_queue_receive_resume k msg = block_state_post_process (store k msg 0) k.raw_task_active msg

pub raw_queue_full_check : Kernel → ℕ → RawOsError
raw_queue_full_check k o =
    let q = (k.queues o).msg_q in
    if o == 0
    then null_object
    else if wrong_type k o queue_obj
    then error_object_type
    else if leb q.size q.current_numbers
    then queue_check_full
    else queue_check_not_full

pub raw_queue_flush : Kernel → ℕ → Kernel × RawOsError
raw_queue_flush k o =
    let q = k.queues o in
    if o == 0
    then (k, null_object)
    else if in_interrupt k
    then (k, not_called_by_isr)
    else if wrong_type k o queue_obj
    then (k, error_object_type)
    else (set_queue k o (record q { msg_q = MsgRing.flush q.msg_q }), success)

pub raw_queue_delete : Kernel → ℕ → Kernel × RawOsError
raw_queue_delete k o =
    let k1 = set_object k o (record (k.objects o) { object_type = type_none }) in
    if o == 0
    then (k, null_object)
    else if in_interrupt k
    then (k, not_called_by_isr)
    else if wrong_type k o queue_obj
    then (k, error_object_type)
    else (raw_sched (drain delete_pend_obj (length (k1.block_list o)) k1 o), success)
