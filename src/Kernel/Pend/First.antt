-- ===== src/Kernel/Pend/First.antt =====
-- Waking the first task of a block list, as a post or a put does.
use raw_os.Shared.{ℕ, ◌≡◌, refl, ◌==◌, if◌then◌else◌, true, List, ◌∷◌}
use raw_os.Kernel.Frame.{SameObjects, SameObjects-lists, SameObjects-trans}
use raw_os.Kernel.{Kernel, b_ok}
use raw_os.Kernel.Place.{WellFormed, is_pending}
use raw_os.Kernel.Place.Moves.{WellFormed-frame}
use raw_os.Kernel.Sched.{raw_sched}
use raw_os.Kernel.Sched.Choice.{raw_sched_frame}
use raw_os.Kernel.Pend.{unblock}
use raw_os.Kernel.Pend.Wake.{woken_task, tasks-unblock, unblock-WellFormed, unblock-SameObjects}
use raw_os.Kernel.Pend.Drain.{listed-is_pending, block_list-unblock_head}

-- What waking the first task `t` of the list of `o` does, beside the choice of the next task.
pub record WokeFirst (k k' : Kernel) (o t : ℕ) (rest : List ℕ) : Type 0 where
  pub well_formed : WellFormed k'
  pub left : k'.block_list o ≡ rest
  pub tasks_after :
      (u : ℕ) → k'.tasks u ≡ (if t == u then woken_task b_ok (k.tasks t) else k.tasks u)
  pub same : SameObjects k k'

pub raw_sched-WokeFirst :
    (k k' : Kernel) (o t : ℕ) (rest : List ℕ)
    → WokeFirst k k' o t rest
    → WokeFirst k (raw_sched k') o t rest
raw_sched-WokeFirst k k' o t rest w =
    let f = raw_sched_frame k' in
    rw f.2 (record {
      well_formed = WellFormed-frame refl refl refl refl w.well_formed;
      left = w.left;
      tasks_after = w.tasks_after;
      same = SameObjects-trans w.same (SameObjects-lists k' _ _ _ _ _ _);
    })

pub unblock-WokeFirst :
    (k : Kernel) (o t : ℕ) (rest : List ℕ)
    → WellFormed k
    → k.block_list o ≡ t ∷ rest
    → WokeFirst k (unblock k t b_ok) o t rest
unblock-WokeFirst k o t rest w e = record {
  well_formed = unblock-WellFormed k t b_ok waits w;
  left = block_list-unblock_head k b_ok t o rest w e;
  tasks_after = tasks-unblock k t b_ok waits;
  same = unblock-SameObjects k t b_ok;
}
  where
    waits : is_pending (k.tasks t).task_state ≡ true
    waits = listed-is_pending k t o rest w e
