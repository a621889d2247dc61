-- ===== src/Tests/Mutexes.antt =====
-- Mutexes at concrete inputs.
use raw_os.Shared.{ℕ, ◌≡◌, ◌==◌, refl, false, [], ◌∷◌, arith, some}
use raw_os.Kernel.{mutex_owner_nested, success, returned}
use raw_os.Mutex.{raw_mutex_get, raw_mutex_put, raw_task_free_mutex}
use raw_os.Mutex.Free.{raw_task_free_mutex_lem}
use raw_os.Mutex.Nesting.{raw_mutex_put-get}
use raw_os.Mutex.Owner.{raw_mutex_put_lem}
use raw_os.Tests.Priorities.{k0}

raw_mutex_put-get_example :
    let (k1, outcome) = raw_mutex_get 255 k0 100 30 in
    (outcome ≡ returned mutex_owner_nested) × (raw_mutex_put 255 k1 100 ≡ (k0, mutex_owner_nested))
raw_mutex_put-get_example =
    raw_mutex_put-get 255 k0 100 30 refl refl refl refl (omega arith) (omega arith)

raw_mutex_put_lem_example :
    let (k', status) = raw_mutex_put 255 k0 100 in
    (status ≡ success)
    × ((k'.mutexes 100).mtxtsk ≡ some 3)
    × ((k'.mutexes 100).owner_nested ≡ 1)
    × ((q : ℕ) → (q == 100) ≡ false → k'.mutexes q ≡ k0.mutexes q)
raw_mutex_put_lem_example =
    raw_mutex_put_lem 255 k0 100 3 (4 ∷ []) refl refl refl refl refl refl refl

-- The mutex 100 goes from task 1 to task 3.
raw_task_free_mutex_lem_example :
    ((raw_task_free_mutex k0 1).mutexes 100).owner_nested ≡ (k0.mutexes 100).owner_nested
raw_task_free_mutex_lem_example = raw_task_free_mutex_lem k0 1 100
