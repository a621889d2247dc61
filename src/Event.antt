-- ===== src/Event.antt =====
-- raw_event.c: event flag groups.
pub mod Grant
pub mod Granted
pub mod Wake
use Prim.Native.Nat.{bit_and, bit_or}
use raw_os.Shared.{ℕ, ◌-◌, Bool, ◌==◌, if◌then◌else◌, not, List, [], ◌∷◌, length, update, ◌||◌}
use raw_os.Kernel.{
  Kernel, RawOsError, Outcome, returned, blocked, event_obj, type_none, way_prio, set_event,
  set_object, set_task, wrong_type, in_interrupt, is_locked, success, null_object,
  error_object_type, not_called_by_isr, no_this_option, no_pend_wait, sched_disable,
}
use raw_os.Kernel.Sched.{raw_sched}
use raw_os.Kernel.Pend.{raw_wake_object, delete_pend_obj, raw_pend_object, drain}
use raw_os.Kernel.System.{block_state_post_process}

-- `option & RAW_FLAGS_AND_MASK`, `option & RAW_FLAGS_CLEAR_MASK`
abbrev pub wants_all : ℕ → Bool
wants_all option = not (bit_and option 2 == 0)

abbrev pub wants_clear : ℕ → Bool
wants_clear option = not (bit_and option 1 == 0)

-- `flags & ~mask`, in 32 bits
abbrev pub without : ℕ → ℕ → ℕ
without flags mask = bit_and flags (4294967295 - mask)

-- Whether the flags satisfy a request.
pub satisfied : ℕ → ℕ → ℕ → Bool
satisfied flags requested option =
    if wants_all option
    then bit_and flags requested == requested
    else not (bit_and flags requested == 0)

pub raw_event_create : Kernel → ℕ → ℕ → Kernel × RawOsError
raw_event_create k o flags_init =
    let k1 = record k { block_list = λ q. if o == q then [] else k.block_list q } in
    let k2 = set_event k1 o (record { flags = flags_init }) in
    if o == 0
    then (k, null_object)
    else (set_object k2 o (record { block_way = way_prio; object_type = event_obj }), success)

abbrev is_option : ℕ → Bool
is_option n = n == 2 || n == 0 || n == 3 || n == 1

-- The flags are there: they are stored at `actual_flags_ptr`, and cleared if the option says so.
take_flags : Kernel → ℕ → ℕ → ℕ → ℕ → Kernel
take_flags k o requested option actual_flags_ptr =
    let flags = (k.events o).flags in
    let k1 = record k { memory = update k.memory actual_flags_ptr flags } in
    if wants_clear option then set_event k1 o (record { flags = without flags requested }) else k1

-- The task notes what it waits for.
note_request : Kernel → ℕ → ℕ → ℕ → ℕ → Kernel
note_request k t requested option actual_flags_ptr = set_task k t (record (k.tasks t) {
  suspend_option = option;
  suspend_flags = requested;
  suspend_info = actual_flags_ptr;
})

pub raw_event_get : Kernel → ℕ → ℕ → ℕ → ℕ → ℕ → Kernel × Outcome
unfolding take_flags note_request
raw_event_get k o requested_flags get_option actual_flags_ptr wait_option =
    let t = k.raw_task_active in
    let noted = note_request k t requested_flags get_option actual_flags_ptr in
    if o == 0
    then (k, returned null_object)
    else if in_interrupt k
    then (k, returned not_called_by_isr)
    else if not (is_option get_option)
    then (k, returned no_this_option)
    else if wrong_type k o event_obj
    then (k, returned error_object_type)
    else if satisfied (k.events o).flags requested_flags get_option
    then (take_flags k o requested_flags get_option actual_flags_ptr, returned success)
    else if wait_option == 0
    then (k, returned no_pend_wait)
    else if is_locked k
    then (k, returned sched_disable)
    else (raw_sched (raw_pend_object noted o t wait_option), blocked)

-- `raw_event_get` once its task runs again.
pub raw_event_get_resume : Kernel → Kernel × RawOsError
raw_event_get_resume k = block_state_post_process k k.raw_task_active 0

-- A round of the loop of `event_set` whose task is satisfied.
pub grant : Kernel → ℕ → ℕ → ℕ → Kernel
grant k o current t =
    let k1 = record k { memory = update k.memory (k.tasks t).suspend_info current } in
    let k2 = raw_wake_object k1 t in
    let x = k2.tasks t in
    if wants_clear x.suspend_option
    then set_event k2 o (record { flags = without (k2.events o).flags x.suspend_flags })
    else k2

-- The loop reads the next task before it wakes one, so it runs over the list as it was.
pub grant_all : Kernel → ℕ → ℕ → List ℕ → Kernel
grant_all k o current [] = k
grant_all k o current (t ∷ rest) =
    let x = k.tasks t in
    grant_all
      (if satisfied current x.suspend_flags x.suspend_option then grant k o current t else k) o
      current rest

pub event_set : Kernel → ℕ → ℕ → ℕ → Kernel × RawOsError
event_set k o flags_to_set set_option =
    let flags = (k.events o).flags in
    let current = bit_or flags flags_to_set in
    let k1 = set_event k o (record { flags = current }) in
    if wrong_type k o event_obj
    then (k, error_object_type)
    else if wants_all set_option
    then (set_event k o (record { flags = bit_and flags flags_to_set }), success)
    else (raw_sched (grant_all k1 o current (k1.block_list o)), success)

pub raw_event_set : Kernel → ℕ → ℕ → ℕ → Kernel × RawOsError
raw_event_set k o flags_to_set set_option =
    if o == 0
    then (k, null_object)
    else if not (set_option == 2 || set_option == 0)
    then (k, no_this_option)
    else event_set k o flags_to_set set_option

pub raw_event_delete : Kernel → ℕ → Kernel × RawOsError
raw_event_delete k o =
    let k1 = set_object k o (record (k.objects o) { object_type = type_none }) in
    let k2 = drain delete_pend_obj (length (k1.block_list o)) k1 o in
    if o == 0
    then (k, null_object)
    else if in_interrupt k
    then (k, not_called_by_isr)
    else if wrong_type k o event_obj
    then (k, error_object_type)
    else (raw_sched (set_event k2 o (record { flags = 0 })), success)
