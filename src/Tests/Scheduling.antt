-- ===== src/Tests/Scheduling.antt =====
-- The bit map, the run queue, the scheduler and the block and tick lists at concrete inputs.
use raw_os.Shared.{
  ℕ, ◌≡◌, ◌==◌, refl, false, [], ◌∷◌, arith, IsSorted, Inserted, is_empty, erase, count,
}
use raw_os.Bits.{bit_search_first_one}
use raw_os.Bits.Scan.{scan}
use raw_os.Bits.Search.{bit_search-eq-scan}
use raw_os.RunQueue
use raw_os.RunQueue.Valid.{IsValid, remove_ready_list-IsValid}
use raw_os.Kernel.{Kernel, sem_obj, b_timeout}
use raw_os.Kernel.Place.{WellFormed}
use raw_os.Kernel.Sched.{raw_sched}
use raw_os.Kernel.Sched.Best.{Chosen, raw_sched-Chosen}
use raw_os.Kernel.Tick.{tick_list_insert, remaining}
use raw_os.Kernel.Tick.Order.{tick_list_insert-Inserted}
use raw_os.Kernel.Pend.{unblock, raw_pend_object, add_to_priority_list}
use raw_os.Kernel.Pend.Wake.{unblock-WellFormed}
use raw_os.Kernel.Pend.Block.{raw_pend_object-WellFormed}
use raw_os.Kernel.Pend.Order.{add_to_priority_list-Inserted}
use raw_os.Tests.{waiting_kernel, waiting_kernel-WellFormed, test_queue, test_queue-IsValid}

abbrev k0 : Kernel
k0 = waiting_kernel sem_obj

-- Bits 5 and 61 are set.
bit_search-eq-scan_example :
    bit_search_first_one test_queue.task_bit_map 6 56 ≡ scan test_queue.task_bit_map 6 56
bit_search-eq-scan_example = bit_search-eq-scan test_queue.task_bit_map 6 56

alone :
    (q : ℕ)
    → (q == 5) ≡ false
    → erase 1 (test_queue.task_ready_list q) ≡ test_queue.task_ready_list q
unfolding erase
alone q ne = ground arith

still_ready : is_empty (erase 1 (test_queue.task_ready_list 61)) ≡ false
unfolding erase
still_ready = refl

remove_ready_list-IsValid_example :
    IsValid (RunQueue.remove_ready_list test_queue 1 5).0
    × ((RunQueue.remove_ready_list test_queue 1 5).1 ≡ 0)
remove_ready_list-IsValid_example =
    remove_ready_list-IsValid test_queue 1 5 61 (omega arith) alone refl (omega arith) still_ready
      test_queue-IsValid

raw_sched-Chosen_example : (t : ℕ) × Chosen k0 (raw_sched k0) t
raw_sched-Chosen_example = raw_sched-Chosen k0 2 (waiting_kernel-WellFormed sem_obj) refl refl refl

unblock-WellFormed_example : WellFormed (unblock k0 4 b_timeout)
unblock-WellFormed_example =
    unblock-WellFormed k0 4 b_timeout refl (waiting_kernel-WellFormed sem_obj)

raw_pend_object-WellFormed_example : WellFormed (raw_pend_object k0 100 1 30)
raw_pend_object-WellFormed_example =
    raw_pend_object-WellFormed k0 100 1 30 refl 2 (waiting_kernel-WellFormed sem_obj) refl refl refl

sorted : IsSorted (λ q. (k0.tasks q).priority) (3 ∷ 4 ∷ [])
sorted = ((omega arith, tt), (tt, tt))

add_to_priority_list-Inserted_example :
    Inserted
      (λ q. (k0.tasks q).priority)
      5
      1
      (3 ∷ 4 ∷ [])
      (add_to_priority_list k0.tasks 5 1 (3 ∷ 4 ∷ []))
add_to_priority_list-Inserted_example =
    add_to_priority_list-Inserted k0.tasks 1 5 (3 ∷ 4 ∷ []) sorted

tick_list_insert-Inserted_example :
    let k' = tick_list_insert k0 1 30 in
    let left = λ (q : ℕ). remaining k0.raw_tick_count (k'.tasks q) in
    (left 1 ≡ 30) × Inserted left 30 1 k0.tick_list k'.tick_list × IsSorted left k'.tick_list
unfolding count
tick_list_insert-Inserted_example =
    tick_list_insert-Inserted k0 1 30 refl (omega arith) (omega arith) refl (tt, tt)
