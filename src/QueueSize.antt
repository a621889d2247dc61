-- ===== src/QueueSize.antt =====
-- raw_queue_size.c: queues of messages with a size, in cells that the queue links. A message is the
-- address that is sent, and 0 is refused.
pub mod Delivery
use raw_os.Shared.{
  ℕ, ◌-◌, Bool, true, false, leb, ◌==◌, if◌then◌else◌, not, ◌&&◌, Option, none, some, List, [], ◌∷◌,
  length, is_empty, update,
}
use raw_os.MsgCells
use raw_os.MsgCells.{MsgCells}
use raw_os.Kernel.{
  Kernel, QueueSize, RawOsError, Outcome, returned, blocked, queue_size_obj, type_none, way_prio,
  set_queue_size, set_object, wrong_type, in_interrupt, is_locked, success, null_object,
  null_pointer, zero_number, error_object_type, msg_max, not_called_by_isr, no_pend_wait,
  sched_disable, queue_size_check_full, queue_size_check_not_full, size_callback,
}
use raw_os.Kernel.Sched.{raw_sched}
use raw_os.Kernel.Pend.{wake_send_msg_size, delete_pend_obj, raw_pend_object, drain}
use raw_os.Kernel.System.{block_state_post_process}

abbrev set_cells : Kernel → ℕ → MsgCells → Kernel
set_cells k o cells = set_queue_size k o (record (k.queue_sizes o) { msg_cells = cells })

pub raw_queue_size_create : Kernel → (o msg_start number : ℕ) → Kernel × RawOsError
raw_queue_size_create k o msg_start number =
    let k1 = record k { block_list = λ q. if o == q then [] else k.block_list q } in
    let k2 = set_queue_size k1 o (record {
      msg_cells = MsgCells.create (k.queue_sizes o).msg_cells msg_start number;
      queue_size_full_callback = none;
    }) in
    if o == 0
    then (k, null_object)
    else if msg_start == 0
    then (k, null_pointer)
    else if number == 0
    then (k, zero_number)
    else (set_object k2 o (record { block_way = way_prio; object_type = queue_size_obj }), success)

pub raw_queue_size_full_register : Kernel → ℕ → Option ℕ → Kernel × RawOsError
raw_queue_size_full_register k o callback_full =
    if in_interrupt k then (k, not_called_by_isr) else (
      set_queue_size k o (record (k.queue_sizes o) { queue_size_full_callback = callback_full }),
      success,
    )

call_full : Kernel → (o p_void size : ℕ) → Option ℕ → Kernel
call_full k o p_void size none = k
call_full k o p_void size (some f) = record k { calls = size_callback f o p_void size ∷ k.calls }

wake_first : Kernel → List ℕ → (p_void size : ℕ) → Kernel
wake_first k [] p_void size = k
wake_first k (t ∷ rest) p_void size = wake_send_msg_size k t p_void size

-- `to_end` says that `opt_send_method` is SEND_TO_END.
pub msg_size_post :
    Kernel → (o p_void size : ℕ) → (to_end opt_wake_all : Bool) → Kernel × RawOsError
unfolding call_full wake_first
msg_size_post k o p_void size to_end opt_wake_all =
    let q = k.queue_sizes o in
    let waiting = k.block_list o in
    if wrong_type k o queue_size_obj
    then (k, error_object_type)
    else if leb q.msg_cells.queue_msg_size q.msg_cells.queue_current_msg
    then (call_full k o p_void size q.queue_size_full_callback, msg_max)
    else if is_empty waiting
    then (set_cells k o (MsgCells.post q.msg_cells p_void size to_end), success)
    else if opt_wake_all
    then (
      raw_sched (drain (λ k' t. wake_send_msg_size k' t p_void size) (length waiting) k o),
      success,
    )
    else (raw_sched (wake_first k waiting p_void size), success)

abbrev checked_post :
    Kernel → (o p_void size : ℕ) → (to_end opt_wake_all : Bool) → Kernel × RawOsError
checked_post k o p_void size to_end opt_wake_all =
    if o == 0
    then (k, null_object)
    else if p_void == 0
    then (k, null_pointer)
    else msg_size_post k o p_void size to_end opt_wake_all

pub raw_queue_size_front_post : Kernel → (o p_void size : ℕ) → Kernel × RawOsError
raw_queue_size_front_post k o p_void size = checked_post k o p_void size false false

pub raw_queue_size_end_post : Kernel → (o p_void size : ℕ) → Kernel × RawOsError
raw_queue_size_end_post k o p_void size = checked_post k o p_void size true false

pub raw_queue_size_all_post : Kernel → (o p_void size : ℕ) → Bool → Kernel × RawOsError
raw_queue_size_all_post k o p_void size to_end = checked_post k o p_void size to_end true

abbrev store : Kernel → ℕ → ℕ → Kernel
store k address value = record k { memory = update k.memory address value }

-- `msg_ptr` and `receive_size` are where the message and its size go.
pub raw_queue_size_receive : Kernel → (o wait_option msg_ptr receive_size : ℕ) → Kernel × Outcome
raw_queue_size_receive k o wait_option msg_ptr receive_size =
    let q = k.queue_sizes o in
    let (msg, size, cells) = MsgCells.receive q.msg_cells in
    let nothing = store (store k msg_ptr 0) receive_size 0 in
    if in_interrupt k && not (wait_option == 0)
    then (k, returned not_called_by_isr)
    else if o == 0
    then (k, returned null_object)
    else if msg_ptr == 0
    then (k, returned null_pointer)
    else if receive_size == 0
    then (k, returned null_pointer)
    else if wrong_type k o queue_size_obj
    then (k, returned error_object_type)
    else if not (q.msg_cells.queue_current_msg == 0)
    then (set_cells (store (store k msg_ptr msg) receive_size size) o cells, returned success)
    else if wait_option == 0
    then (nothing, returned no_pend_wait)
    else if is_locked k
    then (nothing, returned sched_disable)
    else (raw_sched (raw_pend_object k o k.raw_task_active wait_option), blocked)

take_result : Kernel → (msg_ptr receive_size : ℕ) → RawOsError → Kernel
take_result k msg_ptr receive_size success =
    let x = k.tasks k.raw_task_active in store (store k receive_size x.msg_size) msg_ptr x.msg
take_result k msg_ptr receive_size other = store (store k msg_ptr 0) receive_size 0

-- `raw_queue_size_receive` once its task runs again.
pub raw_queue_size_receive_resume : Kernel → (msg_ptr receive_size : ℕ) → Kernel × RawOsError
unfolding take_result
raw_queue_size_receive_resume k msg_ptr receive_size =
    let (k', result) = block_state_post_process k k.raw_task_active 0 in
    (take_result k' msg_ptr receive_size result, result)

pub raw_queue_size_full_check : Kernel → ℕ → RawOsError
raw_queue_size_full_check k o =
    let q = (k.queue_sizes o).msg_cells in
    if o == 0
    then null_object
    else if wrong_type k o queue_size_obj
    then error_object_type
    else if leb q.queue_msg_size q.queue_current_msg
    then queue_size_check_full
    else queue_size_check_not_full

pub raw_queue_size_flush : Kernel → ℕ → Kernel × RawOsError
raw_queue_size_flush k o =
    if o == 0
    then (k, null_object)
    else if in_interrupt k
    then (k, not_called_by_isr)
    else if wrong_type k o queue_size_obj
    then (k, error_object_type)
    else (set_cells k o (MsgCells.flush (k.queue_sizes o).msg_cells), success)

pub raw_queue_size_delete : Kernel → ℕ → Kernel × RawOsError
raw_queue_size_delete k o =
    let k1 = set_object k o (record (k.objects o) { object_type = type_none }) in
    if o == 0
    then (k, null_object)
    else if in_interrupt k
    then (k, not_called_by_isr)
    else if wrong_type k o queue_size_obj
    then (k, error_object_type)
    else (raw_sched (drain delete_pend_obj (length (k1.block_list o)) k1 o), success)

-- The arguments behind the queue are where the three numbers go; `queue_peak_msg_size` is not tested
-- for a null pointer.
pub raw_queue_size_get_information :
    Kernel → (o queue_free_msg_size queue_peak_msg_size queue_current_msg : ℕ) → Kernel × RawOsError
raw_queue_size_get_information k o queue_free_msg_size queue_peak_msg_size queue_current_msg =
    let q = (k.queue_sizes o).msg_cells in
    let k1 = store k queue_free_msg_size (q.queue_msg_size - q.queue_current_msg) in
    let k2 = store k1 queue_current_msg q.queue_current_msg in
    if o == 0
    then (k, null_object)
    else if queue_free_msg_size == 0
    then (k, null_pointer)
    else if queue_current_msg == 0
    then (k, null_pointer)
    else if wrong_type k o queue_size_obj
    then (k, error_object_type)
    else (store k2 queue_peak_msg_size q.peak_numbers, success)
