-- ===== src/TaskSemaphore.antt =====
-- raw_task_sem.c: a semaphore of a task, which `task_semaphore_obj` of the task points to.
use raw_os.Shared.{ℕ}
use raw_os.Kernel.{Kernel, RawOsError, Outcome, set_task}
use raw_os.Semaphore.{
  raw_semaphore_create, raw_semaphore_put, raw_semaphore_get, raw_semaphore_set,
  raw_semaphore_delete,
}

pub raw_task_semaphore_create :
    Kernel → (task_obj semaphore_ptr initial_count : ℕ) → Kernel × RawOsError
raw_task_semaphore_create k task_obj semaphore_ptr initial_count =
    raw_semaphore_create
      (set_task k task_obj (record (k.tasks task_obj) { task_semaphore_obj = semaphore_ptr }))
      semaphore_ptr initial_count

pub raw_task_semaphore_put : Kernel → (task_obj : ℕ) → Kernel × RawOsError
raw_task_semaphore_put k task_obj = raw_semaphore_put k (k.tasks task_obj).task_semaphore_obj

pub raw_task_semaphore_get : Kernel → (wait_option : ℕ) → Kernel × Outcome
raw_task_semaphore_get k wait_option =
    raw_semaphore_get k (k.tasks k.raw_task_active).task_semaphore_obj wait_option

pub raw_task_semaphore_set : Kernel → (task_obj sem_count : ℕ) → Kernel × RawOsError
raw_task_semaphore_set k task_obj sem_count =
    raw_semaphore_set k (k.tasks task_obj).task_semaphore_obj sem_count

pub raw_task_semaphore_delete : Kernel → (task_obj : ℕ) → Kernel × RawOsError
raw_task_semaphore_delete k task_obj = raw_semaphore_delete k (k.tasks task_obj).task_semaphore_obj
