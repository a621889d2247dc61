-- ===== src/BufferQueue.antt =====
-- raw_queue_buffer.c: the calls of the queues of messages of bytes. A message is the bytes from the
-- address that is sent on. The buffer of a queue is apart from the memory that the calls read and
-- write.
pub mod Delivery
use raw_os.Shared.{
  ℕ, ◌+◌, ◌*◌, ◌/◌, ◌%◌, Bool, ltb, ◌==◌, if◌then◌else◌, not, List, [], ◌∷◌, length, is_empty,
  update,
}
use raw_os.QueueBuffer
use raw_os.QueueBuffer.{
  is_queue_buffer_free, is_buffer_empty, copy_to, msg_to_end_buffer, buffer_to_msg,
}
use raw_os.Kernel.{
  Kernel, RawOsError, Outcome, returned, blocked, queue_buffer_obj, type_none, way_prio, u32_mod,
  set_queue_buffer, set_object, set_task, wrong_type, in_interrupt, is_locked, success, null_object,
  null_pointer, error_object_type, not_called_by_isr, no_pend_wait, sched_disable, invalid_align,
  queue_buffer_size_0, queue_buffer_invalid_size, queue_buffer_full, exceed_queue_buffer_msg_size,
}
use raw_os.Kernel.Sched.{raw_sched}
use raw_os.Kernel.Pend.{raw_wake_object, delete_pend_obj, raw_pend_object, drain}
use raw_os.Kernel.System.{block_state_post_process}

-- The bytes from an address on.
abbrev pub bytes_at : Kernel → ℕ → ℕ → ℕ
bytes_at k address i = k.memory (address + i)

pub raw_queue_buffer_create :
    Kernel → (o msg_buffer buffer_size max_msg_size : ℕ) → Kernel × RawOsError
raw_queue_buffer_create k o msg_buffer buffer_size max_msg_size =
    let bufsz = (buffer_size + 3) % u32_mod / 4 * 4 in
    let k1 = record k { block_list = λ q. if o == q then [] else k.block_list q } in
    let k2 =
      set_queue_buffer k1 o (QueueBuffer.create (bytes_at k msg_buffer) bufsz max_msg_size) in
    if o == 0
    then (k, null_object)
    else if msg_buffer == 0
    then (k, null_pointer)
    else if bufsz == 0
    then (k, queue_buffer_size_0)
    else if not (bufsz == buffer_size)
    then (k, queue_buffer_invalid_size)
    else if not (msg_buffer % 4 == 0)
    then (k, invalid_align)
    else (
      set_object k2 o (record { block_way = way_prio; object_type = queue_buffer_obj }),
      success,
    )

-- The first task that waits gets the bytes where it asked for them.
give_first : Kernel → List ℕ → (p_void msg_size : ℕ) → Kernel
give_first k [] p_void msg_size = k
give_first k (t ∷ rest) p_void msg_size =
    let x = k.tasks t in
    let k1 = record k { memory = copy_to k.memory x.msg (bytes_at k p_void) msg_size } in
    raw_wake_object (set_task k1 t (record x { qb_msg_size = msg_size })) t

pub queue_buffer_post : Kernel → (o p_void msg_size : ℕ) → Kernel × RawOsError
unfolding give_first
queue_buffer_post k o p_void msg_size =
    let q = k.queue_buffers o in
    let waiting = k.block_list o in
    if wrong_type k o queue_buffer_obj
    then (k, error_object_type)
    else if not (is_queue_buffer_free q msg_size)
    then (k, queue_buffer_full)
    else if is_empty waiting
    then (set_queue_buffer k o (msg_to_end_buffer q (bytes_at k p_void) msg_size), success)
    else (raw_sched (give_first k waiting p_void msg_size), success)

pub raw_queue_buffer_end_post : Kernel → (o p_void msg_size : ℕ) → Kernel × RawOsError
raw_queue_buffer_end_post k o p_void msg_size =
    if o == 0
    then (k, null_object)
    else if p_void == 0
    then (k, null_pointer)
    else if ltb (k.queue_buffers o).maxmsz msg_size
    then (k, exceed_queue_buffer_msg_size)
    else queue_buffer_post k o p_void msg_size

-- `msg` and `receive_size` are where the bytes and their number go.
pub raw_queue_buffer_receive : Kernel → (o wait_option msg receive_size : ℕ) → Kernel × Outcome
raw_queue_buffer_receive k o wait_option msg receive_size =
    let q = k.queue_buffers o in
    let (actsz, out, q') = buffer_to_msg q (bytes_at k msg) in
    let t = k.raw_task_active in
    let asks = set_task k t (record (k.tasks t) { msg = msg }) in
    if in_interrupt k
    then (k, returned not_called_by_isr)
    else if o == 0
    then (k, returned null_object)
    else if msg == 0
    then (k, returned null_pointer)
    else if wrong_type k o queue_buffer_obj
    then (k, returned error_object_type)
    else if not (is_buffer_empty q)
    then (
      set_queue_buffer
          (record k { memory = update (copy_to k.memory msg out actsz) receive_size actsz }) o q',
      returned success,
    )
    else if wait_option == 0
    then (k, returned no_pend_wait)
    else if is_locked k
    then (k, returned sched_disable)
    else (raw_sched (raw_pend_object asks o t wait_option), blocked)

take_size : Kernel → (receive_size : ℕ) → RawOsError → Kernel
take_size k receive_size success = record k {
  memory = update k.memory receive_size (k.tasks k.raw_task_active).qb_msg_size;
}
take_size k receive_size other = k

-- `raw_queue_buffer_receive` once its task runs again.
pub raw_queue_buffer_receive_resume : Kernel → (receive_size : ℕ) → Kernel × RawOsError
unfolding take_size
raw_queue_buffer_receive_resume k receive_size =
    let (k', result) = block_state_post_process k k.raw_task_active 0 in
    (take_size k' receive_size result, result)

pub raw_queue_buffer_flush : Kernel → ℕ → Kernel × RawOsError
raw_queue_buffer_flush k o =
    if in_interrupt k
    then (k, not_called_by_isr)
    else if o == 0
    then (k, null_object)
    else if wrong_type k o queue_buffer_obj
    then (k, error_object_type)
    else (set_queue_buffer k o (QueueBuffer.flush (k.queue_buffers o)), success)

pub raw_queue_buffer_delete : Kernel → ℕ → Kernel × RawOsError
raw_queue_buffer_delete k o =
    let k1 = set_object k o (record (k.objects o) { object_type = type_none }) in
    if o == 0
    then (k, null_object)
    else if in_interrupt k
    then (k, not_called_by_isr)
    else if wrong_type k o queue_buffer_obj
    then (k, error_object_type)
    else (raw_sched (drain delete_pend_obj (length (k1.block_list o)) k1 o), success)

-- The two arguments behind the queue are where the sizes go.
pub raw_queue_buffer_info_get :
    Kernel → (o queue_buffer_free_size queue_buffer_size : ℕ) → Kernel × RawOsError
raw_queue_buffer_info_get k o queue_buffer_free_size queue_buffer_size =
    let q = k.queue_buffers o in
    let memory =
      update (update k.memory queue_buffer_free_size q.frbufsz) queue_buffer_size q.bufsz in
    if o == 0
    then (k, null_object)
    else if queue_buffer_free_size == 0
    then (k, null_object)
    else if queue_buffer_size == 0
    then (k, null_object)
    else if wrong_type k o queue_buffer_obj
    then (k, error_object_type)
    else (record k { memory = memory }, success)
