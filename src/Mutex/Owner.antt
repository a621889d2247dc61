-- ===== src/Mutex/Owner.antt =====
-- Who owns a mutex after its owner has put it.
use raw_os.Shared.{
  ℕ, ◌≡◌, refl, ◌∙◌, ap, false, ◌==◌, if_cases, ==_refl, update, some, arith, List, ◌∷◌, ltb,
}
use raw_os.Kernel.{Kernel, wrong_type, mutex_obj, in_interrupt, success, set_mutex}
use raw_os.Kernel.Place.{is_pending}
use raw_os.Kernel.Sched.Choice.{raw_sched_frame}
use raw_os.Kernel.Pend.{raw_wake_object}
use raw_os.Kernel.Pend.Change.{Untouched}
use raw_os.Kernel.Pend.Wake.{raw_wake_object_lem, unblock_awake, unblock-SameObjects}
use raw_os.Priority.{change, release_mutex}
use raw_os.Priority.Steady.{change-Untouched, release_mutex-Untouched}
use raw_os.Mutex.{raise_to_ceiling, hand_over, put_last, raw_mutex_put, link_owner, is_ceiling}

pub raise_to_ceiling-Untouched :
    (k : Kernel) (o t : ℕ)
    → is_pending (k.tasks t).task_state ≡ false
    → Untouched k (raise_to_ceiling k o t)
unfolding raise_to_ceiling
raise_to_ceiling-Untouched k o t e =
    let m = k.mutexes o in
    let same : Untouched k k = record { mutexes = refl; lists = refl; active = refl } in
    if_cases (Untouched k) (is_ceiling m.policy)
      (λ b.
        if_cases (Untouched k) (ltb m.ceiling_prio (k.tasks t).priority)
          (λ c. change-Untouched k t m.ceiling_prio e) (λ c. same))
      (λ b. same)

-- The mutexes after a hand-over to the first waiting task.
hand_over_lem :
    (k : Kernel) (o t : ℕ) (rest : List ℕ)
    → (hand_over k o (t ∷ rest)).mutexes
      ≡ update k.mutexes o (record (k.mutexes o) { mtxtsk = some t; owner_nested = 1 })
unfolding hand_over
hand_over_lem k o t rest =
    let k1 = raw_wake_object k t in
    let m = record (k1.mutexes o) { mtxtsk = some t; owner_nested = 1 } in
    let linked = link_owner k1 o t m in
    let awake : is_pending (k1.tasks t).task_state ≡ false =
      rw (raw_wake_object_lem k t) (unblock_awake k t _) in
    let raised = raise_to_ceiling-Untouched linked o t (rw (==_refl t) awake) in
    let same : k1.mutexes ≡ k.mutexes =
      rw (raw_wake_object_lem k t) (unblock-SameObjects k t _).mutexes in
    ap (λ (r : Kernel). r.mutexes) (raw_sched_frame (raise_to_ceiling linked o t)).2
    ∙ raised.mutexes
    ∙ ap (λ f. update f o (record (f o) { mtxtsk = some t; owner_nested = 1 })) same

put_last_lem :
    (k : Kernel) (o t : ℕ) (rest : List ℕ)
    → is_pending (k.tasks k.raw_task_active).task_state ≡ false
    → k.block_list o ≡ t ∷ rest
    → (put_last k o).mutexes
      ≡ update k.mutexes o (record (k.mutexes o) { mtxtsk = some t; owner_nested = 1 })
unfolding put_last
put_last_lem k o t rest awake e =
    let k1 = release_mutex change k k.raw_task_active (some o) in
    let u = release_mutex-Untouched k k.raw_task_active (some o) awake in
    ap (λ l. (hand_over k1 o l).mutexes) (ap (λ f. f o) u.lists ∙ e)
    ∙ hand_over_lem k1 o t rest
    ∙ ap (λ f. update f o (record (f o) { mtxtsk = some t; owner_nested = 1 })) u.mutexes

-- The owner's last put hands a mutex for which tasks wait to the first of them, nested once, whatever
-- its policy and the priorities that it lent; no other mutex changes.
pub raw_mutex_put_lem :
    (nested_max : ℕ) (k : Kernel) (o t : ℕ) (rest : List ℕ)
    → (o == 0) ≡ false
    → in_interrupt k ≡ false
    → wrong_type k o mutex_obj ≡ false
    → (k.mutexes o).mtxtsk ≡ some k.raw_task_active
    → (k.mutexes o).owner_nested ≡ 1
    → is_pending (k.tasks k.raw_task_active).task_state ≡ false
    → k.block_list o ≡ t ∷ rest
    → let (k', status) = raw_mutex_put nested_max k o in
      (status ≡ success)
      × ((k'.mutexes o).mtxtsk ≡ some t)
      × ((k'.mutexes o).owner_nested ≡ 1)
      × ((q : ℕ) → (q == o) ≡ false → k'.mutexes q ≡ k.mutexes q)
unfolding raw_mutex_put put_last
raw_mutex_put_lem nested_max k o t rest valid task type owns once awake e =
    let k1 =
      set_mutex k o (record (k.mutexes o) { mtxtsk = some k.raw_task_active; owner_nested = 0 }) in
    let after = put_last_lem k1 o t rest awake e in
    rw (valid, task, type, owns, ==_refl k.raw_task_active, once)
      (
        refl,
        ap (λ f. (f o).mtxtsk) after ∙ (ground arith),
        ap (λ f. (f o).owner_nested) after ∙ (ground arith),
        λ q ne. ap (λ f. f q) after ∙ (ground arith),
      )
