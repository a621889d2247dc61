-- ===== src/Mutex/Free.antt =====
-- The mutexes of a task that is deleted.
use raw_os.Shared.{ℕ, ◌≡◌, refl, ◌∙◌, ap, false, ==_refl, update, some, arith, List, [], ◌∷◌}
use raw_os.Kernel.{Kernel}
use raw_os.Kernel.Place.{is_pending}
use raw_os.Kernel.Pend.{raw_wake_object}
use raw_os.Kernel.Pend.Wake.{raw_wake_object_lem, unblock_awake, unblock-SameObjects}
use raw_os.Mutex.{link_owner, free_one, free_chain, raw_task_free_mutex}
use raw_os.Mutex.Owner.{raise_to_ceiling-Untouched}

nested-free_one :
    (k : Kernel) (o : ℕ) (l : List ℕ) (q : ℕ)
    → ((free_one k o l).mutexes q).owner_nested ≡ (k.mutexes q).owner_nested
unfolding free_one
nested-free_one k o [] q = ground arith
nested-free_one k o (t ∷ rest) q =
    let k1 = raw_wake_object k t in
    let linked = link_owner k1 o t (record (k1.mutexes o) { mtxtsk = some t }) in
    let awake : is_pending (k1.tasks t).task_state ≡ false =
      rw (raw_wake_object_lem k t) (unblock_awake k t _) in
    let raised = raise_to_ceiling-Untouched linked o t (rw (==_refl t) awake) in
    let same : k1.mutexes ≡ k.mutexes =
      rw (raw_wake_object_lem k t) (unblock-SameObjects k t _).mutexes in
    let here : ((update k1.mutexes o (record (k1.mutexes o) { mtxtsk = some t })) q).owner_nested
        ≡ (k1.mutexes q).owner_nested =
      ground arith in
    ap (λ f. (f q).owner_nested) raised.mutexes ∙ here ∙ ap (λ f. (f q).owner_nested) same

nested-free_chain :
    (chain : List ℕ) (k : Kernel) (q : ℕ)
    → ((free_chain k chain).mutexes q).owner_nested ≡ (k.mutexes q).owner_nested
unfolding free_chain
nested-free_chain [] k q = refl
nested-free_chain (o ∷ chain) k q =
    nested-free_chain chain (free_one k o (k.block_list o)) q
    ∙ nested-free_one k o (k.block_list o) q

-- Freeing the mutexes of a deleted task changes the nesting count of no mutex: a task that becomes the
-- owner of one has the count that the deleted task had reached.
pub raw_task_free_mutex_lem :
    (k : Kernel) (t q : ℕ)
    → ((raw_task_free_mutex k t).mutexes q).owner_nested ≡ (k.mutexes q).owner_nested
unfolding raw_task_free_mutex
raw_task_free_mutex_lem k t q = nested-free_chain (k.tasks t).mtxlist k q
