-- ===== src/Timer/Stale.antt =====
-- A timer that was changed to start after 0 ticks.
use raw_os.Shared.{
  update, All, absent_induction, ℕ, zero, suc, ◌+◌, ◌%◌, ◌≤◌, ◌<◌, ◌≡◌, refl, ◌∙◌, ap, Bool, true,
  false, ltb, ◌==◌, Option, none, some, head?, List, [], ◌∷◌, arith, ==_refl, insert_by,
}
use raw_os.Kernel.{u32_mod}
use raw_os.Timer.{
  set_timer, timer_list_priority_insert, Timers, RawTimer, activate_section, change_section,
  start_timer,
}
use raw_os.Timer.Run.{run_timers, timer_task_turn}
use raw_os.Timer.Expire.{key}
use raw_os.Timer.Turn.{Ready}

abbrev and_then : Option Timers → (Timers → Option Timers) → Option Timers
and_then none f = none
and_then (some s) f = f s

-- Turns of the task, one after the other.
pub turns : (stops : ℕ → ℕ → Bool) → (fuel n : ℕ) → Timers → Option Timers
turns stops fuel zero s = some s
turns stops fuel (suc n) s = and_then (turns stops fuel n s) (timer_task_turn stops fuel)

-- With a timer in front whose tick is not the present one, a turn does nothing.
idle_turn :
    (stops : ℕ → ℕ → Bool) (fuel t : ℕ) (rest : List ℕ) (s : Timers)
    → s.timer_head ≡ t ∷ rest
    → ((s.raw_timer_count + 1) % u32_mod == (s.timers t).match_tick) ≡ false
    → timer_task_turn stops (suc fuel) s
      ≡ some (record s { raw_timer_count = (s.raw_timer_count + 1) % u32_mod })
unfolding timer_task_turn run_timers
idle_turn stops fuel t rest s e ne = rw (ap head? e, ne) refl

idle_turns :
    (stops : ℕ → ℕ → Bool) (fuel t : ℕ) (rest : List ℕ) (s : Timers) (n : ℕ)
    → s.timer_head ≡ t ∷ rest
    → (s.timers t).match_tick ≡ s.raw_timer_count
    → s.raw_timer_count < u32_mod
    → n < u32_mod
    → turns stops (suc fuel) n s
      ≡ some (record s { raw_timer_count = (s.raw_timer_count + n) % u32_mod })
unfolding turns
idle_turns stops fuel t rest s zero e now fits few =
    ap (λ v. some (record s { raw_timer_count = v })) (ground (arith, fits))
idle_turns stops fuel t rest s (suc n) e now fits few =
    let s' = record s { raw_timer_count = (s.raw_timer_count + n) % u32_mod } in
    ap (λ r. and_then r (timer_task_turn stops (suc fuel)))
      (idle_turns stops fuel t rest s n e now fits (omega arith))
    ∙ idle_turn stops fuel t rest s' e (ground arith)
    ∙ ap (λ v. some (record s { raw_timer_count = v })) (ground (arith, fits))

insert_front :
    (f : ℕ → ℕ) (val t : ℕ) (l : List ℕ)
    → val ≡ 0
    → All (λ q. 1 ≤ f q) l
    → insert_by f val t l ≡ t ∷ l
insert_front f val t [] z h = refl
insert_front f val t (q ∷ l) z h = let e : ltb val (f q) ≡ true = ground (arith, h.0) in rw e refl

-- A timer that is not running, is changed to start after 0 ticks and then started, stands in front of
-- the list with its tick in the past: for as many turns of the task as the count of ticks has values,
-- less one, no timer expires, whatever timers wait in the list, and no function is called.
pub change_section_of_zero :
    (stops : ℕ → ℕ → Bool) (fuel t reschedule_ticks n : ℕ) (s : Timers)
    → Ready s
    → (s.timers t).to_head ≡ false
    → n < u32_mod
    → let s' = activate_section t (change_section t 0 reschedule_ticks s) in
      (s'.timer_head ≡ t ∷ s.timer_head)
      × (turns stops (suc fuel) n s'
          ≡ some (record s' { raw_timer_count = (s.raw_timer_count + n) % u32_mod }))
unfolding activate_section change_section start_timer timer_list_priority_insert
change_section_of_zero stops fuel t reschedule_ticks n s r off few = (
  front,
  idle_turns stops fuel t s.timer_head (activate_section t s0) n front now r.count_fits few,
)
  where
    s0 : Timers
    s0 = change_section t 0 reschedule_ticks s

    y : RawTimer
    y = record (s0.timers t) {
      match_tick = (s0.raw_timer_count + (s0.timers t).init_count) % u32_mod;
      remain = (s0.timers t).init_count;
      to_head = true;
    }

    waiting : All (λ q. 1 ≤ key (set_timer s0 t y) q) s.timer_head
    waiting =
        absent_induction (λ l. All (λ q. 1 ≤ key s q) l → All (λ q. 1 ≤ key (set_timer s0 t y) q) l)
          t (λ h. tt) (λ x xs ne rest h. (rw ne h.0, rest h.1)) s.timer_head
          (ground (arith, r.linked t, off)) r.not_yet

    at_once : (update s0.timers t y t).remain ≡ 0
    at_once = rw (==_refl t) refl

    front : (activate_section t s0).timer_head ≡ t ∷ s.timer_head
    front =
        insert_front (key (set_timer s0 t y)) (update s0.timers t y t).remain t s.timer_head at_once
          waiting

    now : ((activate_section t s0).timers t).match_tick ≡ s.raw_timer_count
    now = rw (==_refl t) (ground (arith, r.count_fits))
