-- ===== src/Tests/Semaphores.antt =====
-- Semaphores at concrete inputs.
use raw_os.Shared.{◌≡◌, refl, true, false, [], ◌∷◌, arith}
use raw_os.Kernel.{Kernel, sem_obj, success, type_none, set_object, b_ok, b_del}
use raw_os.Kernel.Pend.Drain.{Drained}
use raw_os.Tests.{waiting_kernel, waiting_kernel-WellFormed}
use raw_os.Semaphore.{semaphore_put, raw_semaphore_delete, raw_semaphore_get}
use raw_os.Kernel.Pend.First.{WokeFirst}
use raw_os.Semaphore.Laws.{
  semaphore_put-WokeFirst, semaphore_put_all-Drained, raw_semaphore_delete-Drained,
}
use raw_os.Semaphore.Count.{Sound, semaphore_put-Sound, raw_semaphore_get-Sound}

abbrev k0 : Kernel
k0 = waiting_kernel sem_obj

k0-Sound : Sound k0 100
k0-Sound = record {
  well_formed = waiting_kernel-WellFormed sem_obj;
  no_unit = λ e. refl;
  fits = omega arith;
}

semaphore_put-WokeFirst_example :
    WokeFirst k0 (semaphore_put k0 100 false).0 100 3 (4 ∷ [])
    × ((semaphore_put k0 100 false).1 ≡ success)
semaphore_put-WokeFirst_example =
    semaphore_put-WokeFirst k0 100 3 (4 ∷ []) (waiting_kernel-WellFormed sem_obj) refl refl

semaphore_put_all-Drained_example :
    Drained k0 b_ok 100 (3 ∷ 4 ∷ []) (semaphore_put k0 100 true).0
    × ((semaphore_put k0 100 true).1 ≡ success)
semaphore_put_all-Drained_example =
    semaphore_put_all-Drained k0 100 3 (4 ∷ []) (waiting_kernel-WellFormed sem_obj) refl refl

raw_semaphore_delete-Drained_example :
    Drained
      (set_object k0 100 (record (k0.objects 100) { object_type = type_none }))
      b_del
      100
      (3 ∷ 4 ∷ [])
      (raw_semaphore_delete k0 100).0
    × ((raw_semaphore_delete k0 100).1 ≡ success)
raw_semaphore_delete-Drained_example =
    raw_semaphore_delete-Drained k0 100 (waiting_kernel-WellFormed sem_obj) refl refl refl

semaphore_put-Sound_example : Sound (semaphore_put k0 100 false).0 100
semaphore_put-Sound_example = semaphore_put-Sound k0 100 false k0-Sound

raw_semaphore_get-Sound_example : Sound (raw_semaphore_get k0 100 30).0 100
raw_semaphore_get-Sound_example = raw_semaphore_get-Sound k0 100 30 2 k0-Sound refl refl refl
