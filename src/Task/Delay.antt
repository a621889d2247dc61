-- ===== src/Task/Delay.antt =====
-- A task that sleeps.
use raw_os.Shared.{
  ℕ, ◌+◌, ◌%◌, ◌≡◌, refl, ◌∙◌, true, false, ◌==◌, arith, ap, if◌then◌else◌, b2n, count, ==_refl,
}
use raw_os.Kernel.{Kernel, Task, rdy, dly, u32_mod}
use raw_os.Kernel.Place.{WellFormed, at_ready, at_block, place}
use raw_os.Kernel.Tick.{tick_list_insert}
use raw_os.Kernel.Tick.Insert.{
  rq-tick_list_insert, block_list-tick_list_insert, tasks-tick_list_insert, count-tick_list_insert,
}
use raw_os.Kernel.Pend.{set_state, remove_ready_list}
use raw_os.Kernel.Pend.Leave.{leave-WellFormed}
use raw_os.Kernel.Pend.Ready.{tasks-remove_ready_list, block_list-remove_ready_list}
use raw_os.Task.{delay}

-- In `m` the task `t` sleeps for `time` ticks, and is in the tick list, once, and in no other list;
-- what else is in `k` about tasks and objects is as it was.
pub record Asleep (k m : Kernel) (t time : ℕ) : Type 0 where
  pub me : m.tasks t ≡ record (k.tasks t) {
    task_state = dly;
    tick_match = (k.raw_tick_count + time) % u32_mod;
    tick_remain = time;
    on_tick = true;
  }
  pub in_ticks : count t m.tick_list ≡ 1
  pub not_ready : (p : ℕ) → count t (m.rq.task_ready_list p) ≡ 0
  pub not_blocked : (o : ℕ) → count t (m.block_list o) ≡ 0
  pub others : (u : ℕ) → (t == u) ≡ false → m.tasks u ≡ k.tasks u
  pub lists : m.block_list ≡ k.block_list

-- A ready task that goes to sleep for some ticks, while another task stays ready, leaves the kernel
-- well formed. It is in the tick list, once, with all of the ticks left and the tick count at which
-- they end, and in no ready list or block list; no other task and no block list changes.
pub delay-WellFormed :
    (k : Kernel) (t dly_time idle : ℕ)
    → (dly_time == 0) ≡ false
    → WellFormed k
    → (k.tasks t).task_state ≡ rdy
    → (k.tasks idle).task_state ≡ rdy
    → (t == idle) ≡ false
    → WellFormed (delay k t dly_time) × Asleep k (delay k t dly_time) t dly_time
unfolding delay
delay-WellFormed k t dly_time idle finite w ready other apart = (
  kept,
  record {
    me = me;
    in_ticks = kept.ticks t ∙ ap (λ (x : Task). b2n x.on_tick) me;
    not_ready = λ p. kept.placed.in_ready t p ∙ ap (λ (x : Task). b2n (at_ready (place x) p)) me;
    not_blocked = λ o. kept.placed.in_block t o ∙ ap (λ (x : Task). b2n (at_block (place x) o)) me;
    others = λ u ne. tasks_after u ∙ rw ne refl;
    lists = block_list-remove_ready_list m t ∙ block_list-tick_list_insert k1 t dly_time;
  },
)
  where
    k1 : Kernel
    k1 = set_state k t dly

    m : Kernel
    m = tick_list_insert k1 t dly_time

    x : Task
    x = record (k.tasks t) {
      task_state = dly;
      tick_match = (k.raw_tick_count + dly_time) % u32_mod;
      tick_remain = dly_time;
      on_tick = true;
    }

    tasks-m : (u : ℕ) → m.tasks u ≡ (if t == u then x else k.tasks u)
    tasks-m u = tasks-tick_list_insert k1 t dly_time finite u ∙ (ground arith)

    kept : WellFormed (remove_ready_list m t)
    kept =
        leave-WellFormed k m t idle x (rq-tick_list_insert k1 t dly_time)
          (block_list-tick_list_insert k1 t dly_time) tasks-m
          (λ u. count-tick_list_insert k1 t dly_time finite u ∙ (ground arith)) refl refl refl w
          ready other apart

    tasks_after : (u : ℕ) → (remove_ready_list m t).tasks u ≡ (if t == u then x else k.tasks u)
    tasks_after u = ap (λ f. f u) (tasks-remove_ready_list m t) ∙ tasks-m u

    me : (remove_ready_list m t).tasks t ≡ x
    me = tasks_after t ∙ rw (==_refl t) refl
