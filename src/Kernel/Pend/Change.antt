-- ===== src/Kernel/Pend/Change.antt =====
-- What the new place of a task in its block list leaves alone.
use raw_os.Shared.{ℕ, ◌≡◌, refl, Option, none, some, update}
use raw_os.Kernel.{Kernel, BlockWay, way_fifo, way_prio}
use raw_os.Kernel.Pend.{
  add_ready_list_head, add_ready_list_end, change_block_list, change_pend_list_priority,
  list_delete, add_to_priority_list,
}

change_block_list_levels :
    (k : Kernel) (t : ℕ) (o : Option ℕ)
    → (change_block_list k t o).mutex_recursion_levels ≡ k.mutex_recursion_levels
unfolding change_block_list
change_block_list_levels k t none = refl
change_block_list_levels k t (some o) = by_way (k.objects o).block_way
  where
    moved : Kernel
    moved =
        let k1 = list_delete k t in
        record k1 {
          block_list =
              update k1.block_list o
                (add_to_priority_list k.tasks (k.tasks t).priority t (k1.block_list o));
        }

    by_way :
        (w : BlockWay)
        → let r : Kernel = elim w [ way_prio ↦ moved | way_fifo ↦ k ] in
          r.mutex_recursion_levels ≡ k.mutex_recursion_levels
    by_way way_prio = refl
    by_way way_fifo = refl

pub change_pend_list_priority_levels :
    (k : Kernel) (t : ℕ)
    → (change_pend_list_priority k t).mutex_recursion_levels ≡ k.mutex_recursion_levels
unfolding change_pend_list_priority
change_pend_list_priority_levels k t = change_block_list_levels k t (k.tasks t).block_obj

-- Two kernels with the same mutexes, block lists and running task.
pub record Untouched (k k' : Kernel) : Type 0 where
  pub mutexes : k'.mutexes ≡ k.mutexes
  pub lists : k'.block_list ≡ k.block_list
  pub active : k'.raw_task_active ≡ k.raw_task_active

pub add_ready_list_head-Untouched :
    (k m : Kernel) (t : ℕ) → Untouched k m → Untouched k (add_ready_list_head m t)
unfolding add_ready_list_head
add_ready_list_head-Untouched k m t u = record {
  mutexes = u.mutexes;
  lists = u.lists;
  active = u.active;
}

pub add_ready_list_end-Untouched :
    (k m : Kernel) (t : ℕ) → Untouched k m → Untouched k (add_ready_list_end m t)
unfolding add_ready_list_end
add_ready_list_end-Untouched k m t u = record {
  mutexes = u.mutexes;
  lists = u.lists;
  active = u.active;
}
