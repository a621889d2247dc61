-- ===== src/Kernel/Place.antt =====
-- Where each task is: in the ready list of its priority, in the block list of an object, or in no list.
-- A kernel is well placed if every list holds, once each, the tasks that belong there.
pub mod Moves
use raw_os.Shared.{
  ℕ, ◌<◌, ◌≡◌, Bool, true, false, ◌==◌, Option, none, some, List, b2n, count, opt_is,
}
use raw_os.RunQueue.{prio_max}
use raw_os.RunQueue.Valid.{IsValid}
use raw_os.Kernel.{
  Kernel, Task, TaskStatus, rdy, pend, pend_timeout, pend_timeout_suspended, suspended,
  pend_suspended, dly, dly_suspended, deleted, invalid_state,
}

pub data Place : Type 0 where
  nowhere : Place
  on_ready : ℕ → Place
  on_block : ℕ → Place

abbrev pub at_ready : Place → ℕ → Bool
at_ready nowhere p = false
at_ready (on_ready q) p = q == p
at_ready (on_block o) p = false

abbrev pub at_block : Place → ℕ → Bool
at_block nowhere o = false
at_block (on_ready q) o = false
at_block (on_block q) o = q == o

abbrev pub place_blocked : Option ℕ → Place
place_blocked none = nowhere
place_blocked (some o) = on_block o

abbrev pub is_pending : TaskStatus → Bool
is_pending pend = true
is_pending pend_timeout = true
is_pending pend_timeout_suspended = true
is_pending pend_suspended = true
is_pending rdy = false
is_pending suspended = false
is_pending dly = false
is_pending dly_suspended = false
is_pending deleted = false
is_pending invalid_state = false

abbrev pub has_timer : TaskStatus → Bool
has_timer pend_timeout = true
has_timer pend_timeout_suspended = true
has_timer dly = true
has_timer dly_suspended = true
has_timer rdy = false
has_timer pend = false
has_timer suspended = false
has_timer pend_suspended = false
has_timer deleted = false
has_timer invalid_state = false

abbrev pub place_in : TaskStatus → ℕ → Option ℕ → Place
place_in rdy p o = on_ready p
place_in pend p o = place_blocked o
place_in pend_timeout p o = place_blocked o
place_in pend_timeout_suspended p o = place_blocked o
place_in pend_suspended p o = place_blocked o
place_in suspended p o = nowhere
place_in dly p o = nowhere
place_in dly_suspended p o = nowhere
place_in deleted p o = nowhere
place_in invalid_state p o = nowhere

abbrev pub place : Task → Place
place x = place_in x.task_state x.priority x.block_obj

pub record Placed (ready block : ℕ → List ℕ) (loc : ℕ → Place) : Type 0 where
  pub in_ready : (t p : ℕ) → count t (ready p) ≡ b2n (at_ready (loc t) p)
  pub in_block : (t o : ℕ) → count t (block o) ≡ b2n (at_block (loc t) o)

-- The invariant of the kernel.
pub record WellFormed (k : Kernel) : Type 0 where
  pub placed : Placed k.rq.task_ready_list k.block_list (λ t. place (k.tasks t))
  pub queue : IsValid k.rq
  pub range : (t : ℕ) → (k.tasks t).priority < prio_max
  pub ticks : (t : ℕ) → count t k.tick_list ≡ b2n (k.tasks t).on_tick
  pub timers : (t : ℕ) → (k.tasks t).on_tick ≡ has_timer (k.tasks t).task_state
