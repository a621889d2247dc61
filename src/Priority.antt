-- ===== src/Priority.antt =====
-- The priority of a task that holds mutexes: `change_internal_task_priority` of raw_task.c with
-- `release_mutex`, `mtx_chg_pri`, `mutex_state_change` and `chg_pri_mutex` of raw_mutex.c.
-- These call one another; `mutex_recursion_levels` bounds the depth. Here the change of a priority
-- takes fuel, and the others take the change as an argument.
pub mod Depth
pub mod Held
pub mod Steady
use raw_os.Shared.{
  ℕ, zero, suc, ◌+◌, ◌-◌, Bool, true, false, ltb, ◌==◌, if◌then◌else◌, Option, none, some, List, [],
  ◌∷◌, erase,
}
use raw_os.Kernel.{
  Kernel, Task, TaskStatus, MutexPolicy, RawOsError, set_task, rdy, pend, pend_timeout,
  pend_timeout_suspended, suspended, pend_suspended, dly, dly_suspended, deleted, invalid_state,
  ceiling_policy, inherit_policy, none_policy, mutex_obj, wrong_type, success, state_unknown,
  exceed_ceiling_priority, mutex_recursion_levels_exceeded,
}
use raw_os.Kernel.Pend.{
  remove_ready_list, add_ready_list_head, add_ready_list_end, change_pend_list_priority, raise,
}

-- `CONFIG_RAW_MUTEX_RECURSION_LEVELS`
abbrev pub max_recursion : ℕ
max_recursion = 3

-- The priority of the first task that waits, or `pri` if none does.
pub first_priority : (ℕ → Task) → List ℕ → ℕ → ℕ
first_priority tasks [] pri = pri
first_priority tasks (t ∷ rest) pri = (tasks t).priority

-- The `switch` on the policy of a held mutex: the new value of `pri`.
pub bound_of : Kernel → ℕ → MutexPolicy → ℕ → ℕ
unfolding first_priority
bound_of k m ceiling_policy pri = (k.mutexes m).ceiling_prio
bound_of k m inherit_policy pri = first_priority k.tasks (k.block_list m) pri
bound_of k m none_policy pri = pri

-- The loop of `release_mutex` over the mutexes that are still held, with its variables `pri` and
-- `newpri`.
pub held_priority : Kernel → List ℕ → ℕ → ℕ → ℕ
held_priority k [] pri newpri = newpri
held_priority k (m ∷ chain) pri newpri =
    let pri' = bound_of k m (k.mutexes m).policy pri in
    held_priority k chain pri' (if ltb pri' newpri then pri' else newpri)

abbrev pub Change : Type 0
Change = Kernel → ℕ → ℕ → Kernel

abbrev pub drop_mutex : List ℕ → Option ℕ → List ℕ
drop_mutex chain none = chain
drop_mutex chain (some m) = erase m chain

pub release_mutex : Change → Kernel → ℕ → Option ℕ → Kernel
unfolding held_priority
release_mutex change k t relmtxcb =
    let x = k.tasks t in
    let chain = drop_mutex x.mtxlist relmtxcb in
    let k1 = set_task k t (record x { mtxlist = chain }) in
    let newpri = held_priority k chain x.bpriority x.bpriority in
    if newpri == x.priority then k1 else change k1 t newpri

-- The owner of a mutex that a task blocks on takes its new priority, or falls back. An owner that is
-- null is not handled by the source; here nothing changes.
follow_owner : Change → Kernel → Option ℕ → ℕ → ℕ → Kernel
follow_owner change k none priority oldpri = k
follow_owner change k (some owner) priority oldpri =
    if ltb priority (k.tasks owner).priority
    then change k owner priority
    else if (k.tasks owner).priority == oldpri
    then release_mutex change k owner none
    else k

abbrev inherits : MutexPolicy → Bool
inherits inherit_policy = true
inherits ceiling_policy = false
inherits none_policy = false

follow_mutex : Change → Kernel → Option ℕ → ℕ → ℕ → Kernel
unfolding follow_owner
follow_mutex change k none priority oldpri = k
follow_mutex change k (some m) priority oldpri =
    if wrong_type k m mutex_obj
    then k
    else if inherits (k.mutexes m).policy
    then follow_owner change k (k.mutexes m).mtxtsk priority oldpri
    else k

pub mtx_chg_pri : Change → Kernel → ℕ → ℕ → Kernel
mtx_chg_pri change k t oldpri =
    let levels = k.mutex_recursion_levels + 1 in
    let deepest =
      if ltb k.mutex_recursion_max_levels levels then levels else k.mutex_recursion_max_levels in
    let k1 = record k { mutex_recursion_levels = levels; mutex_recursion_max_levels = deepest } in
    let k2 = follow_mutex change k1 (k.tasks t).block_obj (k.tasks t).priority oldpri in
    if ltb max_recursion k.mutex_recursion_levels
    then raise k mutex_recursion_levels_exceeded
    else record k2 { mutex_recursion_levels = k2.mutex_recursion_levels - 1 }

abbrev pub set_priority : Kernel → ℕ → ℕ → Kernel
set_priority k t p = set_task k t (record (k.tasks t) { priority = p })

change_ready : Kernel → ℕ → ℕ → Kernel
change_ready k t new_priority =
    let k1 = set_priority (remove_ready_list k t) t new_priority in
    if t == k.raw_task_active then add_ready_list_head k1 t else add_ready_list_end k1 t

change_pending : Change → Kernel → ℕ → ℕ → Kernel
change_pending change k t new_priority =
    mtx_chg_pri change (change_pend_list_priority (set_priority k t new_priority) t) t
      (k.tasks t).priority

-- The `switch` of `change_internal_task_priority` on the task's state.
change_in_state : Change → Kernel → ℕ → ℕ → TaskStatus → Kernel × RawOsError
change_in_state change k t p rdy = (change_ready k t p, success)
change_in_state change k t p dly = (set_priority k t p, success)
change_in_state change k t p suspended = (set_priority k t p, success)
change_in_state change k t p dly_suspended = (set_priority k t p, success)
change_in_state change k t p pend = (change_pending change k t p, success)
change_in_state change k t p pend_timeout = (change_pending change k t p, success)
change_in_state change k t p pend_suspended = (change_pending change k t p, success)
change_in_state change k t p pend_timeout_suspended = (change_pending change k t p, success)
change_in_state change k t p deleted = (k, state_unknown)
change_in_state change k t p invalid_state = (k, state_unknown)

-- With no fuel left nothing changes.
pub change_fuel : ℕ → Kernel → ℕ → ℕ → Kernel × RawOsError
change_fuel zero k t p = (k, success)
change_fuel (suc fuel) k t p =
    change_in_state (λ k' t' p'. (change_fuel fuel k' t' p').0) k t p (k.tasks t).task_state

pub change_internal_task_priority : Kernel → ℕ → ℕ → Kernel × RawOsError
change_internal_task_priority = change_fuel 5

abbrev pub change : Change
change k t p = (change_internal_task_priority k t p).0

settle_owner : Kernel → Option ℕ → ℕ → Kernel
settle_owner k none priority = k
settle_owner k (some owner) priority =
    if (k.tasks owner).priority == priority then release_mutex change k owner none else k

settle_mutex : Kernel → Option ℕ → ℕ → Kernel
unfolding settle_owner
settle_mutex k none priority = k
settle_mutex k (some m) priority =
    if wrong_type k m mutex_obj
    then k
    else if inherits (k.mutexes m).policy
    then settle_owner k (k.mutexes m).mtxtsk priority
    else k

-- A task has stopped waiting: the owner of its mutex may lose the priority that it lent.
pub mutex_state_change : Kernel → ℕ → Kernel
unfolding settle_mutex
mutex_state_change k t = settle_mutex k (k.tasks t).block_obj (k.tasks t).priority

-- The lowest priority that the ceilings allow, and the highest that the held mutexes ask for.
pub ceiling_of : Kernel → Option ℕ → ℕ
ceiling_of k none = 0
ceiling_of k (some m) = if wrong_type k m mutex_obj then 0 else elim (k.mutexes m).policy [
  | ceiling_policy ↦ (k.mutexes m).ceiling_prio
  | inherit_policy ↦ 0
  | none_policy ↦ 0
]

abbrev larger : ℕ → ℕ → ℕ
larger a b = if ltb a b then b else a

-- The loop over the held mutexes, with its variables `pri`, `hi_pri` and `low_pri`.
scan_held : Kernel → List ℕ → ℕ → ℕ → ℕ → ℕ × ℕ
scan_held k [] pri hi_pri low_pri = (hi_pri, low_pri)
scan_held k (m ∷ chain) pri hi_pri low_pri =
    let pri' = bound_of k m (k.mutexes m).policy pri in
    let low : ℕ = elim (k.mutexes m).policy [
      | ceiling_policy ↦ larger low_pri (k.mutexes m).ceiling_prio
      | inherit_policy ↦ low_pri
      | none_policy ↦ low_pri
    ] in
    scan_held k chain pri' (if ltb pri' hi_pri then pri' else hi_pri) low

-- The priority that a task may be given, and whether the one asked for is allowed.
pub chg_pri_mutex : Kernel → ℕ → ℕ → ℕ × RawOsError
unfolding scan_held ceiling_of
chg_pri_mutex k t priority =
    let (hi_pri, low_pri) =
      scan_held k (k.tasks t).mtxlist priority priority (ceiling_of k (k.tasks t).block_obj) in
    if ltb priority low_pri then (low_pri, exceed_ceiling_priority) else (hi_pri, success)
