-- ===== src/Kernel/Place/Moves.antt =====
-- What the list operations of raw_pend.c do to the places of the tasks.
use raw_os.Shared.{
  ℕ, ◌+◌, ◌≡◌, ◌∙◌, ap, false, ◌==◌, if◌then◌else◌, List, b2n, count, erase, update, arith, ◌&&◌,
  count-erase,
}
use raw_os.Kernel.{Kernel, Task, set_task}
use raw_os.Kernel.Place.{
  WellFormed, place, Place, nowhere, on_ready, on_block, at_ready, at_block, Placed,
}

module _ {ready block : ℕ → List ℕ} {loc : ℕ → Place} (t : ℕ) (w : Placed ready block loc) where
  -- A task leaves the list that it is in.
  pub erase-Placed :
      (ready' : ℕ → List ℕ)
      → ((u q : ℕ) → count u (ready' q) ≡ (if t == u then 0 else count u (ready q)))
      → Placed ready' (λ o. erase t (block o)) (update loc t nowhere)
  erase-Placed ready' counts = record {
    in_ready = λ u p. ground (arith, counts u p, w.in_ready u p);
    in_block = λ u o. ground (arith, count-erase u t (block o), w.in_block u o);
  }

  -- A task that is in no block list leaves the ready lists.
  pub remove-Placed :
      (ready' : ℕ → List ℕ)
      → ((u q : ℕ) → count u (ready' q) ≡ (if t == u then 0 else count u (ready q)))
      → ((o : ℕ) → at_block (loc t) o ≡ false)
      → Placed ready' block (update loc t nowhere)
  remove-Placed ready' counts out = record {
    in_ready = λ u p. ground (arith, counts u p, w.in_ready u p);
    in_block = λ u o. ground (arith, out o, w.in_block u o);
  }

  -- A task in no list goes into the ready list of priority `p`, in whatever position.
  pub ready-Placed :
      (p : ℕ) (ready' : ℕ → List ℕ)
      → ((u q : ℕ) → count u (ready' q) ≡ b2n ((p == q) && (t == u)) + count u (ready q))
      → loc t ≡ nowhere
      → Placed ready' block (update loc t (on_ready p))
  ready-Placed p ready' counts out = record {
    in_ready = λ u q. ground (arith, counts u q, w.in_ready u q);
    in_block = λ u o. ground (arith, w.in_block u o);
  }

  -- Or into the list of the tasks that block on `o`.
  pub block-Placed :
      (o : ℕ) (l : List ℕ)
      → ((u : ℕ) → count u l ≡ b2n (t == u) + count u (block o))
      → loc t ≡ nowhere
      → Placed ready (update block o l) (update loc t (on_block o))
  block-Placed o l counts out = record {
    in_ready = λ u q. ground (arith, w.in_ready u q);
    in_block = λ u q. ground (arith, counts u, w.in_block u q, w.in_block u o);
  }

-- The places may be described in another way.
pub Placed-ext :
    {ready block : ℕ → List ℕ} (loc : ℕ → Place) {loc' : ℕ → Place}
    → ((t : ℕ) → loc t ≡ loc' t)
    → Placed ready block loc
    → Placed ready block loc'
Placed-ext loc same w = record {
  in_ready = λ t p. w.in_ready t p ∙ ap (λ l. b2n (at_ready l p)) (same t);
  in_block = λ t o. w.in_block t o ∙ ap (λ l. b2n (at_block l o)) (same t);
}

-- The invariant is about four fields: a kernel that agrees on them is well formed too.
pub WellFormed-frame :
    {k k' : Kernel}
    → k'.rq ≡ k.rq
    → k'.block_list ≡ k.block_list
    → k'.tasks ≡ k.tasks
    → k'.tick_list ≡ k.tick_list
    → WellFormed k
    → WellFormed k'
WellFormed-frame {k} {k'} rq lists tasks ticks w = record {
  placed = rw (rq, lists, tasks) w.placed;
  queue = rw rq w.queue;
  range = rw tasks w.range;
  ticks = rw (ticks, tasks) w.ticks;
  timers = rw tasks w.timers;
}

-- A change of a task's other fields.
pub set_task-WellFormed :
    (k : Kernel) (t : ℕ) (x : Task)
    → x.task_state ≡ (k.tasks t).task_state
    → x.priority ≡ (k.tasks t).priority
    → x.block_obj ≡ (k.tasks t).block_obj
    → x.on_tick ≡ (k.tasks t).on_tick
    → WellFormed k
    → WellFormed (set_task k t x)
set_task-WellFormed k t x state priority obj timer w = record {
  placed = Placed-ext _ same w.placed;
  queue = w.queue;
  range = λ u. ground (arith, w.range u, w.range t);
  ticks = λ u. ground (arith, w.ticks u, w.ticks t);
  timers = λ u. ground (arith, w.timers u, w.timers t);
}
  where
    same : (u : ℕ) → place (k.tasks u) ≡ place (update k.tasks t x u)
    same u = ground arith
