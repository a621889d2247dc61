-- ===== src/Timer/Call.antt =====
-- The call of a timer's function, which may take the timer out of the list again.
use raw_os.Shared.{
  ℕ, ◌+◌, ◌%◌, ◌≤◌, ◌≡◌, refl, ◌∙◌, ap, Bool, true, false, ◌==◌, if◌then◌else◌, not, ◌&&◌, List, [],
  ◌∷◌, ◌++◌, arith, count, count-erase, erase, All, IsSorted, Bool-cases, inl, inr,
  absent_induction,
}
use raw_os.Kernel.{Kernel, Call, timeout, u32_mod}
use raw_os.Timer.{Timers, RawTimer, set_timer, timer_list_remove, is_deactive, timer_deactive}
use raw_os.Timer.Run.{call_timeout}
use raw_os.Timer.Expire.{Mid, Mid-set_timer, key}

-- The call of the timer's function, if it has one.
abbrev pub timer_calls : RawTimer → List Call
timer_calls x =
    if x.raw_timeout_function == 0
    then []
    else timeout x.raw_timeout_function x.raw_timeout_param ∷ []

abbrev pub is_stopped : (ℕ → ℕ → Bool) → RawTimer → Bool
is_stopped stops x =
    not (x.raw_timeout_function == 0) && stops x.raw_timeout_function x.raw_timeout_param

-- The timer goes on, a period later, unless it has no period or its function stopped it.
abbrev pub expired : (ℕ → ℕ → Bool) → ℕ → RawTimer → RawTimer
expired stops now x =
    let on = record x {
      match_tick = (now + x.reschedule_ticks) % u32_mod;
      remain = x.reschedule_ticks;
      to_head = true;
    } in
    if x.reschedule_ticks == 0
    then record x { to_head = false; timer_state = timer_deactive }
    else if is_stopped stops x
    then record on { to_head = false; timer_state = timer_deactive }
    else on

-- Only the timer `e` changed, to `x`; the calls `cs` were made.
pub record Changed (s : Timers) (e : ℕ) (x : RawTimer) (cs : List Call) (s' : Timers) : Type 0 where
  pub timers : (u : ℕ) → s'.timers u ≡ (if e == u then x else s.timers u)
  pub calls : s'.kernel.calls ≡ cs ++ s.kernel.calls
  pub same_count : s'.raw_timer_count ≡ s.raw_timer_count

erase-append : (e : ℕ) (xs ys : List ℕ) → count e xs ≡ 0 → erase e (xs ++ ys) ≡ xs ++ erase e ys
unfolding erase
erase-append e xs ys out =
    absent_induction (λ xs. erase e (xs ++ ys) ≡ xs ++ erase e ys) e refl
      (λ x xs ne rest. rw (not_same x ne, rest) refl) xs out
  where
    not_same : (x : ℕ) → (e == x) ≡ false → (x == e) ≡ false
    not_same x ne = ground arith

All-erase : (P : ℕ → Type 0) (e : ℕ) (l : List ℕ) → All P l → All P (erase e l)
unfolding erase
All-erase P e [] h = tt
All-erase P e (x ∷ l) h = elim (Bool-cases (x == e)) [
  | inl c ↦ rw c (All-erase P e l h.1)
  | inr c ↦ rw c (h.0, All-erase P e l h.1)
]

IsSorted-erase : (f : ℕ → ℕ) (e : ℕ) (l : List ℕ) → IsSorted f l → IsSorted f (erase e l)
unfolding erase
IsSorted-erase f e [] h = tt
IsSorted-erase f e (x ∷ l) h = elim (Bool-cases (x == e)) [
  | inl c ↦ rw c (IsSorted-erase f e l h.1)
  | inr c ↦ rw c (All-erase (λ y. f x ≤ f y) e l h.0, IsSorted-erase f e l h.1)
]

pub Mid-call :
    (s : Timers) (k : Kernel) (due later : List ℕ)
    → Mid s due later
    → Mid (record s { kernel = k }) due later
Mid-call s k due later m = record {
  head = m.head;
  now = m.now;
  not_yet = m.not_yet;
  sorted = m.sorted;
  linked = m.linked;
  count_fits = m.count_fits;
  match_fits = m.match_fits;
  reschedule_fits = m.reschedule_fits;
}

pub Mid-deactive :
    (s : Timers) (e : ℕ) (due later : List ℕ)
    → Mid s due later
    → Mid (set_timer s e (record (s.timers e) { timer_state = timer_deactive })) due later
Mid-deactive s e due later m =
    Mid-set_timer s e (record (s.timers e) { timer_state = timer_deactive }) s.timer_head due later
      refl refl m.head (λ u. ground (arith, m.linked u, m.linked e)) m.now m.not_yet m.sorted
      m.count_fits m.match_fits m.reschedule_fits

-- A timer that has expired leaves the list again when its function says so.
pub Mid-stop :
    (s : Timers) (e : ℕ) (due later : List ℕ)
    → Mid s due later
    → (s.timers e).to_head ≡ true
    → count e due ≡ 0
    → let s' = timer_list_remove s e in
      let s'' = set_timer s' e (record (s'.timers e) { timer_state = timer_deactive }) in
      Mid s'' due (erase e later)
      × Changed s e (record (s.timers e) { to_head = false; timer_state = timer_deactive }) [] s''
unfolding timer_list_remove
Mid-stop s e due later m on out =
    let gone : erase e s.timer_head ≡ due ++ erase e later =
      ap (erase e) m.head ∙ erase-append e due later out in
    let off = record (s.timers e) { to_head = false } in
    let s' = set_timer (record s { timer_head = due ++ erase e later }) e off in
    let m' =
      Mid-set_timer s e off (due ++ erase e later) due (erase e later) refl refl refl
        (λ u. ground (arith, m.linked u, count-erase u e later, out)) m.now
        (All-erase (λ t. 1 ≤ key s t) e later m.not_yet) (IsSorted-erase (key s) e later m.sorted)
        m.count_fits m.match_fits m.reschedule_fits in
    rw (on, gone)
      (
        Mid-deactive s' e due (erase e later) m',
        record { timers = λ u. ground arith; calls = refl; same_count = refl },
      )

pub and_false : (b : Bool) → (b && false) ≡ false
and_false true = refl
and_false false = refl

-- A function that does not stop its timer.
pub call_goes_on :
    (stops : ℕ → ℕ → Bool) (s : Timers) (e : ℕ)
    → (is_stopped stops (s.timers e) && not (is_deactive (s.timers e).timer_state)) ≡ false
    → call_timeout stops s e
      ≡ record s { kernel = record s.kernel { calls = timer_calls (s.timers e) ++ s.kernel.calls } }
unfolding call_timeout
call_goes_on stops s e goes = elim (Bool-cases ((s.timers e).raw_timeout_function == 0)) [
  | inl c ↦ rw c refl
  | inr c ↦ rw (c, rw c at goes) refl
]

-- A function that stops its timer, which is in the list.
pub call_stops :
    (stops : ℕ → ℕ → Bool) (s : Timers) (e : ℕ) (due later : List ℕ)
    → Mid s due later
    → (s.timers e).to_head ≡ true
    → count e due ≡ 0
    → is_stopped stops (s.timers e) ≡ true
    → is_deactive (s.timers e).timer_state ≡ false
    → Mid (call_timeout stops s e) due (erase e later)
      × Changed s e
          (record (s.timers e) { to_head = false; timer_state = timer_deactive })
          (timer_calls (s.timers e))
          (call_timeout stops s e)
unfolding call_timeout
call_stops stops s e due later m on out stopped active =
    let has : ((s.timers e).raw_timeout_function == 0) ≡ false = ground arith in
    let says : stops (s.timers e).raw_timeout_function (s.timers e).raw_timeout_param ≡ true =
      ground arith in
    let x = s.timers e in
    let k = record s.kernel {
      calls = timeout x.raw_timeout_function x.raw_timeout_param ∷ s.kernel.calls;
    } in
    let r = Mid-stop (record s { kernel = k }) e due later (Mid-call s k due later m) on out in
    rw (has, says, active)
      (r.0, record { timers = r.1.timers; calls = r.1.calls; same_count = r.1.same_count })
