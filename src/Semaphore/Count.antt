-- ===== src/Semaphore/Count.antt =====
-- The invariant of a semaphore: no task waits while a unit is there, and the count fits its word.
use raw_os.Shared.{
  ℕ, ◌-◌, ◌≤◌, ◌≡◌, refl, ap, Bool, true, false, ◌==◌, not, Option, none, some, List, [], ◌∷◌,
  arith, Bool-cases, inl, inr, is_empty, if_cases,
}
use raw_os.Kernel.{
  Kernel, Semaphore, RawOsError, Outcome, sem_obj, set_semaphore, wrong_type, in_interrupt,
  is_locked, rdy,
}
use raw_os.Kernel.Place.{WellFormed}
use raw_os.Kernel.Place.Moves.{WellFormed-frame}
use raw_os.Kernel.Sched.{raw_sched}
use raw_os.Kernel.Sched.Choice.{raw_sched_frame}
use raw_os.Kernel.Pend.{raw_pend_object}
use raw_os.Kernel.Pend.Block.{raw_pend_object-WellFormed, raw_pend_object-SameObjects}
use raw_os.Semaphore.{
  semaphore_put, put_count, count_up, call_notify, raw_semaphore_get, raw_semaphore_set, max_count,
}
use raw_os.Semaphore.Laws.{semaphore_put-WokeFirst, semaphore_put_all-Drained}

pub record Sound (k : Kernel) (o : ℕ) : Type 0 where
  pub well_formed : WellFormed k
  pub no_unit : is_empty (k.block_list o) ≡ false → (k.semaphores o).count ≡ 0
  pub fits : (k.semaphores o).count ≤ max_count

-- The fields that the invariant reads, of a kernel with another choice of the next task.
raw_sched-Sound : (k : Kernel) (o : ℕ) → Sound k o → Sound (raw_sched k) o
raw_sched-Sound k o s =
    let f = raw_sched_frame k in
    rw f.2 (record {
      well_formed = WellFormed-frame refl refl refl refl s.well_formed;
      no_unit = s.no_unit;
      fits = s.fits;
    })

call_notify-Sound : (k : Kernel) (o q : ℕ) (f : Option ℕ) → Sound k o → Sound (call_notify k q f) o
unfolding call_notify
call_notify-Sound k o q none s = s
call_notify-Sound k o q (some f) s = record {
  well_formed = WellFormed-frame refl refl refl refl s.well_formed;
  no_unit = s.no_unit;
  fits = s.fits;
}

-- A semaphore's new count, where no task waits for it.
set_count-Sound :
    (k : Kernel) (o : ℕ) (x : Semaphore)
    → Sound k o
    → is_empty (k.block_list o) ≡ true
    → x.count ≤ max_count
    → Sound (set_semaphore k o x) o
set_count-Sound k o x s empty small = record {
  well_formed = WellFormed-frame refl refl refl refl s.well_formed;
  no_unit = λ waits. ground arith;
  fits = ground arith;
}

put_count-Sound :
    (k : Kernel) (o : ℕ) → Sound k o → is_empty (k.block_list o) ≡ true → Sound (put_count k o).0 o
unfolding put_count count_up
put_count-Sound k o s empty =
    if_cases (λ (r : Kernel × RawOsError). Sound r.0 o) ((k.semaphores o).count == max_count)
      (λ full. s)
      λ room. call_notify-Sound _ o o _ (set_count-Sound k o _ s empty (ground (arith, s.fits)))

semaphore_put_waiting-Sound :
    (k : Kernel) (o t : ℕ) (rest : List ℕ) (all : Bool)
    → Sound k o
    → wrong_type k o sem_obj ≡ false
    → k.block_list o ≡ t ∷ rest
    → Sound (semaphore_put k o all).0 o
semaphore_put_waiting-Sound k o t rest true s type e =
    let d = (semaphore_put_all-Drained k o t rest s.well_formed type e).0 in
    let same = ap (λ f. (f o).count) d.same.semaphores in
    record {
      well_formed = d.well_formed;
      no_unit = λ waits. ground (arith, d.emptied);
      fits = omega (arith, same, s.fits);
    }
semaphore_put_waiting-Sound k o t rest false s type e =
    let d = (semaphore_put-WokeFirst k o t rest s.well_formed type e).0 in
    let same = ap (λ f. (f o).count) d.same.semaphores in
    let zero_count : (k.semaphores o).count ≡ 0 = s.no_unit (ap is_empty e) in
    record {
      well_formed = d.well_formed;
      no_unit = λ waits. omega (arith, same, zero_count);
      fits = omega (arith, same, s.fits);
    }

-- A put, to one or to all, keeps the invariant, whatever the semaphore's list and count.
pub semaphore_put-Sound :
    (k : Kernel) (o : ℕ) (all : Bool) → Sound k o → Sound (semaphore_put k o all).0 o
semaphore_put-Sound k o all s = elim (Bool-cases (wrong_type k o sem_obj)) [
  | inl bad ↦ unfold semaphore_put in rw bad s
  | inr type ↦ go type (k.block_list o) refl
]
  where
    go :
        wrong_type k o sem_obj ≡ false
        → (l : List ℕ) → k.block_list o ≡ l
        → Sound (semaphore_put k o all).0 o
    go type [] e = unfold semaphore_put in rw (type, e) (put_count-Sound k o s (ap is_empty e))
    go type (t ∷ rest) e = semaphore_put_waiting-Sound k o t rest all s type e

-- A get of a ready task, while another task stays ready, keeps the invariant on every branch.
pub raw_semaphore_get-Sound :
    (k : Kernel) (o wait_option idle : ℕ)
    → Sound k o
    → (k.tasks k.raw_task_active).task_state ≡ rdy
    → (k.tasks idle).task_state ≡ rdy
    → (k.raw_task_active == idle) ≡ false
    → Sound (raw_semaphore_get k o wait_option).0 o
unfolding raw_semaphore_get
raw_semaphore_get-Sound k o wait_option idle s ready other apart =
    if_cases P (o == 0) (λ e. s)
      λ e.
        if_cases P (in_interrupt k) (λ e. s)
          λ e.
            if_cases P (wrong_type k o sem_obj) (λ e. s)
              λ e.
                if_cases P (not ((k.semaphores o).count == 0)) (λ unit. take unit)
                  λ no_count.
                    if_cases P (wait_option == 0) (λ e. s)
                      λ wait.
                        if_cases P (is_locked k) (λ e. s)
                          λ e. raw_sched-Sound _ o (pended no_count wait)
  where
    P : Kernel × Outcome → Type 0
    P r = Sound r.0 o

    take :
        not ((k.semaphores o).count == 0) ≡ true
        → Sound
            (set_semaphore k o (record (k.semaphores o) { count = (k.semaphores o).count - 1 }))
            o
    take unit = elim (Bool-cases (is_empty (k.block_list o))) [
      | inl empty ↦ set_count-Sound k o _ s empty (omega (arith, s.fits))
      | inr waits ↦ let z = s.no_unit waits in absurd (ground arith)
    ]

    pended :
        not ((k.semaphores o).count == 0) ≡ false
        → (wait_option == 0) ≡ false
        → Sound (raw_pend_object k o k.raw_task_active wait_option) o
    pended no_count wait =
        let frame = raw_pend_object-SameObjects k o k.raw_task_active wait_option in
        let same = ap (λ f. (f o).count) frame.semaphores in
        let z : (k.semaphores o).count ≡ 0 = ground arith in
        record {
          well_formed =
              raw_pend_object-WellFormed k o k.raw_task_active wait_option wait idle s.well_formed
                ready other apart;
          no_unit = λ waits. omega (arith, same, z);
          fits = omega (arith, same, s.fits);
        }

-- Setting the count keeps the invariant, and changes nothing while tasks wait and the count is 0.
pub raw_semaphore_set-Sound :
    (k : Kernel) (o sem_count : ℕ)
    → sem_count ≤ max_count
    → Sound k o
    → Sound (raw_semaphore_set k o sem_count).0 o
unfolding raw_semaphore_set
raw_semaphore_set-Sound k o sem_count small s =
    if_cases P (o == 0) (λ e. s)
      λ e.
        if_cases P (in_interrupt k) (λ e. s)
          λ e.
            if_cases P (wrong_type k o sem_obj) (λ e. s)
              λ e.
                if_cases P (not ((k.semaphores o).count == 0)) (λ unit. set_it (empty unit))
                  λ e.
                    if_cases P (is_empty (k.block_list o)) (λ none_waits. set_it none_waits)
                      (λ e. s)
  where
    P : Kernel × RawOsError → Type 0
    P r = Sound r.0 o

    set_it :
        is_empty (k.block_list o) ≡ true
        → Sound (set_semaphore k o (record (k.semaphores o) { count = sem_count })) o
    set_it none_waits = set_count-Sound k o _ s none_waits small

    empty : not ((k.semaphores o).count == 0) ≡ true → is_empty (k.block_list o) ≡ true
    empty unit = elim (Bool-cases (is_empty (k.block_list o))) [
      | inl e ↦ e
      | inr waits ↦ let z = s.no_unit waits in absurd (ground arith)
    ]
