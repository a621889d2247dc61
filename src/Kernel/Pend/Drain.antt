-- ===== src/Kernel/Pend/Drain.antt =====
-- The loops that wake every task of a block list.
use raw_os.Shared.{
  ℕ, zero, suc, ◌≤◌, ◌≡◌, refl, ◌∙◌, ap, true, false, ◌==◌, if◌then◌else◌, List, [], ◌∷◌, count,
  erase, arith, count-cons, erase_head, length, erase_of_count, count-nil,
}
use raw_os.Kernel.Frame.{SameObjects, SameObjects-lists, SameObjects-refl, SameObjects-trans}
use raw_os.Kernel.{Kernel, BlockState, b_ok, b_del}
use raw_os.Kernel.Place.{WellFormed, is_pending}
use raw_os.Kernel.Place.Moves.{WellFormed-frame}
use raw_os.Kernel.Sched.{raw_sched}
use raw_os.Kernel.Sched.Choice.{raw_sched_frame}
use raw_os.Kernel.Pend.{unblock, raw_wake_object, delete_pend_obj, drain}
use raw_os.Kernel.Pend.Wake.{
  unblock-WellFormed, tasks-unblock, block_list-unblock, woken_task, unblock-SameObjects,
}

-- A task of a block list waits.
pub listed-is_pending :
    (k : Kernel) (t o : ℕ) (rest : List ℕ)
    → WellFormed k
    → k.block_list o ≡ t ∷ rest
    → is_pending (k.tasks t).task_state ≡ true
listed-is_pending k t o rest w e =
    ground (arith, w.placed.in_block t o, ap (count t) e, count-cons t t rest)

-- Once the first task of a block list is woken, the others are left, in their order.
pub block_list-unblock_head :
    (k : Kernel) (status : BlockState) (t o : ℕ) (rest : List ℕ)
    → WellFormed k
    → k.block_list o ≡ t ∷ rest
    → (unblock k t status).block_list o ≡ rest
block_list-unblock_head k status t o rest w e =
    ap (λ f. f o) (block_list-unblock k t status (listed-is_pending k t o rest w e))
    ∙ ap (erase t) e
    ∙ erase_head t rest (ground (arith, w.placed.in_block t o, ap (count t) e, count-cons t t rest))

-- What a loop that wakes the tasks of the list `l` of the object `o` leaves.
pub record Drained (k : Kernel) (status : BlockState) (o : ℕ) (l : List ℕ) (k' : Kernel)
    : Type 0 where
  pub well_formed : WellFormed k'
  pub emptied : k'.block_list o ≡ []
  pub woke :
      (u : ℕ) → k'.tasks u ≡ (if count u l == 0 then k.tasks u else woken_task status (k.tasks u))
  pub others : (q : ℕ) → (q == o) ≡ false → k'.block_list q ≡ k.block_list q
  pub same : SameObjects k k'

Drained-nil :
    (status : BlockState) (k : Kernel) (o : ℕ)
    → WellFormed k
    → k.block_list o ≡ []
    → Drained k status o [] k
Drained-nil status k o w e = record {
  well_formed = w;
  emptied = e;
  woke = λ u. ground (arith, count-nil u);
  others = λ q ne. refl;
  same = SameObjects-refl k;
}

Drained-cons :
    (status : BlockState) (k k' : Kernel) (o t : ℕ) (l : List ℕ)
    → WellFormed k
    → k.block_list o ≡ t ∷ l
    → Drained (unblock k t status) status o l k'
    → Drained k status o (t ∷ l) k'
Drained-cons status k k' o t l w e d = record {
  well_formed = d.well_formed;
  emptied = d.emptied;
  woke = λ u.
      d.woke u
      ∙ ground (
        arith,
        tasks-unblock k t status waits u,
        count-cons u t l,
        count-cons t t l,
        w.placed.in_block t o,
        ap (count t) e,
      );
  others = λ q ne. d.others q ne ∙ elsewhere q ne;
  same = SameObjects-trans (unblock-SameObjects k t status) d.same;
}
  where
    waits : is_pending (k.tasks t).task_state ≡ true
    waits = listed-is_pending k t o l w e

    elsewhere : (q : ℕ) → (q == o) ≡ false → (unblock k t status).block_list q ≡ k.block_list q
    elsewhere q ne =
        ap (λ f. f q) (block_list-unblock k t status waits)
        ∙ erase_of_count t _ (
            ground (
              arith,
              w.placed.in_block t o,
              w.placed.in_block t q,
              ap (count t) e,
              count-cons t t l,
            ))

drain-unblock :
    (status : BlockState) (fuel : ℕ) (k : Kernel) (o : ℕ) (l : List ℕ)
    → WellFormed k
    → k.block_list o ≡ l
    → length l ≤ fuel
    → Drained k status o l (drain (λ q t. unblock q t status) fuel k o)
unfolding drain
drain-unblock status zero k o [] w e h = Drained-nil status k o w e
drain-unblock status zero k o (t ∷ l) w e h = absurd (omega arith)
drain-unblock status (suc fuel) k o [] w e h = rw (e, drain) (Drained-nil status k o w e)
drain-unblock status (suc fuel) k o (t ∷ l) w e h =
    rw (e, drain)
      (Drained-cons status k _ o t l w e (
        drain-unblock status fuel (unblock k t status) o l
          (unblock-WellFormed k t status (listed-is_pending k t o l w e) w)
          (block_list-unblock_head k status t o l w e) (omega arith)))

-- The loops of a put to all and of a deletion, with the bound that the code's callers give.
pub drain_wake :
    (k : Kernel) (o : ℕ)
    → WellFormed k
    → Drained k b_ok o (k.block_list o) (drain raw_wake_object (length (k.block_list o)) k o)
unfolding raw_wake_object
drain_wake k o w = drain-unblock b_ok _ k o (k.block_list o) w refl (omega arith)

pub drain_delete :
    (k : Kernel) (o : ℕ)
    → WellFormed k
    → Drained k b_del o (k.block_list o) (drain delete_pend_obj (length (k.block_list o)) k o)
unfolding delete_pend_obj
drain_delete k o w = drain-unblock b_del _ k o (k.block_list o) w refl (omega arith)

-- The choice of the next task changes nothing of this.
pub raw_sched-Drained :
    (k k' : Kernel) (status : BlockState) (o : ℕ) (l : List ℕ)
    → Drained k status o l k'
    → Drained k status o l (raw_sched k')
raw_sched-Drained k k' status o l d =
    let f = raw_sched_frame k' in
    rw f.2 (record {
      well_formed = WellFormed-frame refl refl refl refl d.well_formed;
      emptied = d.emptied;
      woke = d.woke;
      others = d.others;
      same = SameObjects-trans d.same (SameObjects-lists k' _ _ _ _ _ _);
    })
