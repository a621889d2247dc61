-- ===== src/Kernel/Frame.antt =====
-- What the list operations leave alone: the objects' own fields, the memory and the running task.
use raw_os.Shared.{ℕ, ◌≡◌, refl, ◌∙◌, List, Option}
use raw_os.RunQueue.{RunQueue}
use raw_os.Kernel.{Kernel, Task, Call}

pub record SameObjects (k k' : Kernel) : Type 0 where
  pub semaphores : k'.semaphores ≡ k.semaphores
  pub objects : k'.objects ≡ k.objects
  pub events : k'.events ≡ k.events
  pub mutexes : k'.mutexes ≡ k.mutexes
  pub queues : k'.queues ≡ k.queues
  pub queue_sizes : k'.queue_sizes ≡ k.queue_sizes
  pub queue_buffers : k'.queue_buffers ≡ k.queue_buffers
  pub memory : k'.memory ≡ k.memory
  pub active : k'.raw_task_active ≡ k.raw_task_active
  pub nesting : k'.raw_int_nesting ≡ k.raw_int_nesting
  pub lock : k'.raw_sched_lock ≡ k.raw_sched_lock

-- A kernel that differs in its lists, its tasks, the next task and the calls alone.
pub SameObjects-lists :
    (k : Kernel) (rq : RunQueue) (block_list : ℕ → List ℕ) (tick_list : List ℕ) (tasks : ℕ → Task)
    (high : Option ℕ) (calls : List Call)
    → SameObjects k (record k {
      rq = rq;
      block_list = block_list;
      tick_list = tick_list;
      tasks = tasks;
      high_ready_obj = high;
      calls = calls;
    })
SameObjects-lists k rq block_list tick_list tasks high calls = record {
  semaphores = refl;
  objects = refl;
  events = refl;
  mutexes = refl;
  queues = refl;
  queue_sizes = refl;
  queue_buffers = refl;
  memory = refl;
  active = refl;
  nesting = refl;
  lock = refl;
}

pub SameObjects-refl : (k : Kernel) → SameObjects k k
SameObjects-refl k = SameObjects-lists k _ _ _ _ _ _

pub SameObjects-trans :
    {k k' k'' : Kernel} → SameObjects k k' → SameObjects k' k'' → SameObjects k k''
SameObjects-trans s t = record {
  semaphores = t.semaphores ∙ s.semaphores;
  objects = t.objects ∙ s.objects;
  events = t.events ∙ s.events;
  mutexes = t.mutexes ∙ s.mutexes;
  queues = t.queues ∙ s.queues;
  queue_sizes = t.queue_sizes ∙ s.queue_sizes;
  queue_buffers = t.queue_buffers ∙ s.queue_buffers;
  memory = t.memory ∙ s.memory;
  active = t.active ∙ s.active;
  nesting = t.nesting ∙ s.nesting;
  lock = t.lock ∙ s.lock;
}
