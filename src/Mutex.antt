-- ===== src/Mutex.antt =====
-- raw_mutex.c: mutexes with priority inheritance or a priority ceiling.
pub mod Owner
pub mod Free
pub mod Nesting
use raw_os.Shared.{
  ℕ, ◌+◌, ◌-◌, Bool, true, false, ltb, ◌==◌, if◌then◌else◌, Option, none, some, List, [], ◌∷◌,
  length, opt_is, not, ◌&&◌,
}
use raw_os.Kernel.{
  Kernel, Mutex, MutexPolicy, RawOsError, Outcome, returned, blocked, set_task, set_mutex,
  set_object, mutex_obj, type_none, way_prio, wrong_type, in_interrupt, is_locked, success,
  null_object, error_object_type, not_called_by_isr, mutex_owner_nested, mutex_nested_overflow,
  exceed_ceiling_priority, no_pend_wait, sched_disable, mutex_not_release_by_occypy, ceiling_policy,
  inherit_policy, none_policy,
}
use raw_os.Kernel.Sched.{raw_sched}
use raw_os.Kernel.Pend.{raw_wake_object, delete_pend_obj, raw_pend_object, drain, raise}
use raw_os.Kernel.System.{block_state_post_process}
use raw_os.Priority.{change, release_mutex}

-- A policy of another value is refused by the source; the type has none.
pub raw_mutex_create : Kernel → ℕ → MutexPolicy → ℕ → Kernel × RawOsError
raw_mutex_create k o policy ceiling_prio =
    let k1 = record k { block_list = λ q. if o == q then [] else k.block_list q } in
    let m = record (k.mutexes o) { mtxtsk = none; policy = policy; ceiling_prio = ceiling_prio } in
    let k2 = set_mutex k1 o m in
    if o == 0
    then (k, null_object)
    else (set_object k2 o (record { block_way = way_prio; object_type = mutex_obj }), success)

abbrev pub is_ceiling : MutexPolicy → Bool
is_ceiling ceiling_policy = true
is_ceiling inherit_policy = false
is_ceiling none_policy = false

abbrev pub is_inherit : MutexPolicy → Bool
is_inherit ceiling_policy = false
is_inherit inherit_policy = true
is_inherit none_policy = false

-- The owner takes its own mutex again. `nested_max` is `(RAW_MUTEX_NESTED_TYPE) - 1`; the port chooses
-- the type.
own_again : ℕ → Kernel → ℕ → Kernel
own_again nested_max k o =
    let m = k.mutexes o in
    if m.owner_nested == nested_max
    then raise k mutex_nested_overflow
    else set_mutex k o (record m { owner_nested = m.owner_nested + 1 })

-- The mutex `o` becomes the first in the chain of the mutexes that `t` holds.
abbrev link_owner : Kernel → ℕ → ℕ → Mutex → Kernel
link_owner k o t m =
    let x = k.tasks t in set_task (set_mutex k o m) t (record x { mtxlist = o ∷ x.mtxlist })

-- A new owner is raised to the ceiling.
pub raise_to_ceiling : Kernel → ℕ → ℕ → Kernel
raise_to_ceiling k o t =
    let m = k.mutexes o in
    if is_ceiling m.policy
    then if ltb m.ceiling_prio (k.tasks t).priority then change k t m.ceiling_prio else k
    else k

-- A free mutex is taken, nested once.
pub take_mutex : Kernel → ℕ → ℕ → Kernel
unfolding raise_to_ceiling
take_mutex k o t =
    raise_to_ceiling (link_owner k o t (record (k.mutexes o) { mtxtsk = some t; owner_nested = 1 }))
      o t

-- Before the task waits, it lends the owner its priority.
lend_priority : Kernel → ℕ → ℕ → Kernel
lend_priority k o owner =
    let priority = (k.tasks k.raw_task_active).priority in
    if is_inherit (k.mutexes o).policy
    then if ltb priority (k.tasks owner).priority then change k owner priority else k
    else k

-- The end of `raw_mutex_get`, by the owner.
get_owned : Kernel → ℕ → ℕ → Option ℕ → Kernel × Outcome
unfolding lend_priority take_mutex
get_owned k o wait_option none = (take_mutex k o k.raw_task_active, returned success)
get_owned k o wait_option (some owner) =
    let lent = lend_priority k o owner in
    if wait_option == 0
    then (k, returned no_pend_wait)
    else if is_locked k
    then (k, returned sched_disable)
    else (raw_sched (raw_pend_object lent o lent.raw_task_active wait_option), blocked)

pub raw_mutex_get : ℕ → Kernel → ℕ → ℕ → Kernel × Outcome
unfolding own_again get_owned
raw_mutex_get nested_max k o wait_option =
    let m = k.mutexes o in
    if o == 0
    then (k, returned null_object)
    else if in_interrupt k
    then (k, returned not_called_by_isr)
    else if wrong_type k o mutex_obj
    then (k, returned error_object_type)
    else if opt_is m.mtxtsk k.raw_task_active
    then (own_again nested_max k o, returned mutex_owner_nested)
    else if is_ceiling m.policy && ltb (k.tasks k.raw_task_active).bpriority m.ceiling_prio
    then (k, returned exceed_ceiling_priority)
    else get_owned k o wait_option m.mtxtsk

-- `raw_mutex_get` once its task runs again.
pub raw_mutex_get_resume : Kernel → Kernel × RawOsError
raw_mutex_get_resume k = block_state_post_process k k.raw_task_active 0

-- The first task that waits becomes the owner; with none waiting the mutex is free.
hand_over : Kernel → ℕ → List ℕ → Kernel
unfolding raise_to_ceiling
hand_over k o [] = set_mutex k o (record (k.mutexes o) { mtxtsk = none })
hand_over k o (t ∷ rest) =
    let k1 = raw_wake_object k t in
    let m = record (k1.mutexes o) { mtxtsk = some t; owner_nested = 1 } in
    raw_sched (raise_to_ceiling (link_owner k1 o t m) o t)

-- The owner's last put: it loses the priority that it held for this mutex, and hands the mutex over.
put_last : Kernel → ℕ → Kernel
unfolding hand_over
put_last k o =
    let k1 = release_mutex change k k.raw_task_active (some o) in hand_over k1 o (k1.block_list o)

-- `owner_nested--`, of a type of `nested_max + 1` values
pub raw_mutex_put : ℕ → Kernel → ℕ → Kernel × RawOsError
unfolding put_last
raw_mutex_put nested_max k o =
    let m = k.mutexes o in
    let nested = if m.owner_nested == 0 then nested_max else m.owner_nested - 1 in
    let k1 = set_mutex k o (record m { owner_nested = nested }) in
    if o == 0
    then (k, null_object)
    else if in_interrupt k
    then (k, not_called_by_isr)
    else if wrong_type k o mutex_obj
    then (k, error_object_type)
    else if not (opt_is m.mtxtsk k.raw_task_active)
    then (k, mutex_not_release_by_occypy)
    else if not (nested == 0)
    then (k1, mutex_owner_nested)
    else (put_last k1 o, success)

-- A round of `raw_task_free_mutex`: the mutex goes to the first task that waits. The source sets
-- `owner_nested` in `raw_mutex_get` and `raw_mutex_put`, and not here.
free_one : Kernel → ℕ → List ℕ → Kernel
unfolding raise_to_ceiling
free_one k o [] = set_mutex k o (record (k.mutexes o) { mtxtsk = none })
free_one k o (t ∷ rest) =
    let k1 = raw_wake_object k t in
    raise_to_ceiling (link_owner k1 o t (record (k1.mutexes o) { mtxtsk = some t })) o t

free_chain : Kernel → List ℕ → Kernel
unfolding free_one
free_chain k [] = k
free_chain k (o ∷ chain) = free_chain (free_one k o (k.block_list o)) chain

-- All mutexes of a task that is deleted. The successor in the chain is read before a mutex is given
-- away, so the loop runs over the chain as it was.
pub raw_task_free_mutex : Kernel → ℕ → Kernel
unfolding free_chain
raw_task_free_mutex k t = free_chain k (k.tasks t).mtxlist

release_owner : Kernel → ℕ → Option ℕ → Kernel
release_owner k o none = k
release_owner k o (some owner) = release_mutex change k owner (some o)

pub raw_mutex_delete : Kernel → ℕ → Kernel × RawOsError
unfolding release_owner
raw_mutex_delete k o =
    let k1 = set_object k o (record (k.objects o) { object_type = type_none }) in
    let k2 = release_owner k1 o (k.mutexes o).mtxtsk in
    if o == 0
    then (k, null_object)
    else if wrong_type k o mutex_obj
    then (k, error_object_type)
    else (raw_sched (drain delete_pend_obj (length (k2.block_list o)) k2 o), success)
