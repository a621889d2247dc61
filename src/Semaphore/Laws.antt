-- ===== src/Semaphore/Laws.antt =====
-- What a put, a get and a deletion of a semaphore do to its count and to the tasks that wait for it.
use raw_os.Shared.{ℕ, ◌≡◌, refl, true, false, ◌==◌, List, ◌∷◌, length, subst}
use raw_os.Kernel.{
  Kernel, b_ok, b_del, sem_obj, set_object, wrong_type, success, in_interrupt, type_none,
}
use raw_os.Kernel.Place.{WellFormed}
use raw_os.Kernel.Place.Moves.{WellFormed-frame}
use raw_os.Kernel.Pend.{raw_wake_object, drain}
use raw_os.Kernel.Pend.Wake.{raw_wake_object_lem}
use raw_os.Kernel.Pend.First.{WokeFirst, raw_sched-WokeFirst, unblock-WokeFirst}
use raw_os.Kernel.Pend.Drain.{Drained, raw_sched-Drained, drain_wake, drain_delete}
use raw_os.Semaphore.{semaphore_put, raw_semaphore_delete}

-- A put to a semaphore for which tasks wait wakes the first of them and no other, with the status
-- that makes its get succeed; the count stays as it is, the unit goes to the woken task.
pub semaphore_put-WokeFirst :
    (k : Kernel) (o t : ℕ) (rest : List ℕ)
    → WellFormed k
    → wrong_type k o sem_obj ≡ false
    → k.block_list o ≡ t ∷ rest
    → let (k', status) = semaphore_put k o false in WokeFirst k k' o t rest × (status ≡ success)
unfolding semaphore_put
semaphore_put-WokeFirst k o t rest w type e =
    rw (type, e, raw_wake_object_lem k t)
      (raw_sched-WokeFirst k _ o t rest (unblock-WokeFirst k o t rest w e), refl)

-- A put to all wakes every task that waits, leaves no task waiting, changes no other task and no
-- other list, and returns success; with tasks waiting it leaves the counts as they are.
pub semaphore_put_all-Drained :
    (k : Kernel) (o t : ℕ) (rest : List ℕ)
    → WellFormed k
    → wrong_type k o sem_obj ≡ false
    → k.block_list o ≡ t ∷ rest
    → let (k', status) = semaphore_put k o true in
      Drained k b_ok o (t ∷ rest) k' × (status ≡ success)
unfolding semaphore_put
semaphore_put_all-Drained k o t rest w type e =
    rw (type, e) (raw_sched-Drained k _ b_ok o (t ∷ rest) (drained e), refl)
  where
    drained :
        k.block_list o ≡ t ∷ rest
        → Drained k b_ok o (t ∷ rest) (drain raw_wake_object (length (t ∷ rest)) k o)
    drained e =
        subst (λ l. Drained k b_ok o l (drain raw_wake_object (length l) k o)) e (drain_wake k o w)

-- Deleting a semaphore ends every wait for it: no task is left in its list, each waiting task is
-- woken with the status that makes its get return `block_del`, and no other task changes.
pub raw_semaphore_delete-Drained :
    (k : Kernel) (o : ℕ)
    → WellFormed k
    → (o == 0) ≡ false
    → in_interrupt k ≡ false
    → wrong_type k o sem_obj ≡ false
    → let (k', status) = raw_semaphore_delete k o in
      let k0 = set_object k o (record (k.objects o) { object_type = type_none }) in
      Drained k0 b_del o (k.block_list o) k' × (status ≡ success)
unfolding raw_semaphore_delete
raw_semaphore_delete-Drained k o w valid task type =
    rw (valid, task, type)
      (
        raw_sched-Drained _ _ b_del o (k.block_list o)
            (drain_delete _ o (WellFormed-frame refl refl refl refl w)),
        refl,
      )
