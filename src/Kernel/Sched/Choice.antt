-- ===== src/Kernel/Sched/Choice.antt =====
-- Which fields `raw_sched` changes.
use raw_os.Shared.{
  ℕ, ◌≡◌, refl, ◌==◌, Option, none, some, List, ◌∷◌, Bool-cases, inl, inr, not, ◌||◌,
}
use raw_os.RunQueue.{get_ready_task}
use raw_os.Kernel.Frame.{SameObjects, SameObjects-lists}
use raw_os.Kernel.{Kernel, context_switch, Call}
use raw_os.Kernel.Place.{WellFormed}
use raw_os.Kernel.Sched.{switch_to, raw_sched}

switch_to_frame :
    (k : Kernel) (o : Option ℕ) → (c : List Call) × (switch_to k o ≡ record k { calls = c })
unfolding switch_to
switch_to_frame k none = (k.calls, refl)
switch_to_frame k (some t) = elim (Bool-cases (t == k.raw_task_active)) [
  | inl e ↦ (k.calls, rw e)
  | inr e ↦ (context_switch k.raw_task_active t ∷ k.calls, rw e)
]

pub raw_sched_frame :
    (k : Kernel)
    → (h : Option ℕ) × (c : List Call) × (raw_sched k ≡ record k { high_ready_obj = h; calls = c })
unfolding raw_sched
raw_sched_frame k =
    elim (Bool-cases (not (k.raw_int_nesting == 0) || not (k.raw_sched_lock == 0))) [
      | inl e ↦ (k.high_ready_obj, k.calls, rw e)
      | inr e ↦
          let high = get_ready_task k.rq in
          let f = switch_to_frame (record k { high_ready_obj = high }) high in (high, f.0, rw e f.1)
    ]

pub raw_sched-WellFormed : (k : Kernel) → WellFormed k → WellFormed (raw_sched k)
raw_sched-WellFormed k w =
    let f = raw_sched_frame k in
    rw f.2 (record {
      placed = w.placed;
      queue = w.queue;
      range = w.range;
      ticks = w.ticks;
      timers = w.timers;
    })

pub raw_sched-SameObjects : (k : Kernel) → SameObjects k (raw_sched k)
raw_sched-SameObjects k = let f = raw_sched_frame k in rw f.2 (SameObjects-lists _ _ _ _ _ _ _)
