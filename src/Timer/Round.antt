-- ===== src/Timer/Round.antt =====
-- What the expiry of one timer does to it and to the list.
use raw_os.Shared.{
  ℕ, ◌+◌, ◌%◌, ◌<◌, ◌≡◌, refl, ◌∙◌, subst, Bool, true, false, ◌==◌, if◌then◌else◌, not, ◌&&◌, List,
  ◌∷◌, ◌++◌, arith, count, erase, Bool-cases, inl, inr, ==_refl,
}
use raw_os.Kernel.{Call, u32_mod}
use raw_os.Timer.{
  Timers, RawTimer, set_timer, timer_list_remove, start_timer, is_deactive, timer_deactive,
}
use raw_os.Timer.Run.{call_timeout, expire_timer}
use raw_os.Timer.Expire.{Mid, Mid-remove, Mid-start}
use raw_os.Timer.Call.{
  timer_calls, is_stopped, expired, Changed, Mid-call, Mid-deactive, call_goes_on, call_stops,
  and_false,
}

expire_once :
    (stops : ℕ → ℕ → Bool) (s : Timers) (e : ℕ) (due later : List ℕ)
    → Mid s due later
    → let s' =
        call_timeout stops
          (set_timer s e (record (s.timers e) { timer_state = timer_deactive }))
          e in
      Mid s' due later
      × Changed s e
          (record (s.timers e) { timer_state = timer_deactive })
          (timer_calls (s.timers e))
          s'
expire_once stops s e due later m =
    let s2 = set_timer s e (record (s.timers e) { timer_state = timer_deactive }) in
    let quiet : (is_stopped stops (s2.timers e) && not (is_deactive (s2.timers e).timer_state))
        ≡ false =
      rw (==_refl e) (and_false (is_stopped stops (s.timers e))) in
    let m2 = Mid-deactive s e due later m in
    rw (call_goes_on stops s2 e quiet) (
      Mid-call s2 _ due later m2,
      record { timers = λ u. refl; calls = rw (==_refl e) refl; same_count = refl },
    )

-- The timer with its next tick.
abbrev restarted : ℕ → ℕ → RawTimer → RawTimer
restarted now ticks x = record x {
  match_tick = (now + ticks) % u32_mod;
  remain = ticks;
  to_head = true;
}

expire_again :
    (stops : ℕ → ℕ → Bool) (s : Timers) (e ticks : ℕ) (due later : List ℕ)
    → Mid s due later
    → count e due + count e later ≡ 0
    → 0 < ticks
    → ticks < u32_mod
    → is_deactive (s.timers e).timer_state ≡ false
    → let s' = call_timeout stops (start_timer s e ticks) e in
      let on = restarted s.raw_timer_count ticks (s.timers e) in
      (later' : List ℕ) × Mid s' due later'
      × Changed s e
          (if is_stopped stops (s.timers e)
            then record on { to_head = false; timer_state = timer_deactive }
            else on)
          (timer_calls (s.timers e))
          s'
unfolding start_timer
expire_again stops s e ticks due later m out some_ticks fits active =
    let r = Mid-start s e ticks due later m out some_ticks fits in
    let s2 = start_timer s e ticks in
    elim (Bool-cases (is_stopped stops (s.timers e))) [
      | inl stopped ↦
          let c =
            call_stops stops s2 e due r.0 r.1 (rw (==_refl e) refl) (omega (arith, out))
              (rw (==_refl e) stopped) (rw (==_refl e) active) in
          rw stopped (
            erase e r.0,
            c.0,
            record {
              timers = λ u. c.1.timers u ∙ elim (Bool-cases (e == u)) [
                | inl h ↦ rw (h, ==_refl e) refl
                | inr h ↦ rw h refl
              ];
              calls = c.1.calls ∙ rw (==_refl e) refl;
              same_count = c.1.same_count;
            },
          )
      | inr goes ↦
          let quiet : (is_stopped stops (s2.timers e)
                && not (is_deactive (s2.timers e).timer_state))
              ≡ false =
            rw (==_refl e, goes) refl in
          rw (goes, call_goes_on stops s2 e quiet)
            (
              r.0,
              Mid-call s2 _ due r.0 r.1,
              record { timers = λ u. refl; calls = rw (==_refl e) refl; same_count = refl },
            )
    ]

Changed-over :
    (s s' : Timers) (e : ℕ) (l : List ℕ) (x y : RawTimer) (cs : List Call)
    → Changed (set_timer (record s { timer_head = l }) e x) e y cs s'
    → Changed s e y cs s'
Changed-over s s' e l x y cs c = record {
  timers = λ u. c.timers u ∙ elim (Bool-cases (e == u)) [ inl h ↦ rw h refl | inr h ↦ rw h refl ];
  calls = c.calls;
  same_count = c.same_count;
}

-- The timer once it is out of the list.
abbrev taken_out : Timers → ℕ → List ℕ → Timers
taken_out s e l =
    set_timer (record s { timer_head = l }) e (record (s.timers e) { to_head = false })

expire_timer_once :
    (stops : ℕ → ℕ → Bool) (s s1 : Timers) (e : ℕ)
    → ((s.timers e).reschedule_ticks == 0) ≡ true
    → timer_list_remove s e ≡ s1
    → expire_timer stops s e
      ≡ call_timeout stops
          (set_timer s1 e (record (s1.timers e) { timer_state = timer_deactive }))
          e
unfolding expire_timer
expire_timer_once stops s s1 e last r = rw (last, r) refl

expire_timer_again :
    (stops : ℕ → ℕ → Bool) (s s1 : Timers) (e : ℕ)
    → ((s.timers e).reschedule_ticks == 0) ≡ false
    → timer_list_remove s e ≡ s1
    → expire_timer stops s e ≡ call_timeout stops (start_timer s1 e (s.timers e).reschedule_ticks) e
unfolding expire_timer
expire_timer_again stops s s1 e more r = rw (more, r) refl

-- A timer that expires leaves the list or takes its next place in it, and its function is called.
pub expire_timer_lem :
    (stops : ℕ → ℕ → Bool) (s : Timers) (e : ℕ) (due later : List ℕ)
    → Mid s (e ∷ due) later
    → is_deactive (s.timers e).timer_state ≡ false
    → (later' : List ℕ) × Mid (expire_timer stops s e) due later'
      × Changed s e
          (expired stops s.raw_timer_count (s.timers e))
          (timer_calls (s.timers e))
          (expire_timer stops s e)
expire_timer_lem stops s e due later m active =
    elim (Bool-cases ((s.timers e).reschedule_ticks == 0)) [
      | inl last ↦
          let q = expire_once stops s1 e due later m1 in
          let s1' =
            call_timeout stops
              (set_timer s1 e (record (s1.timers e) { timer_state = timer_deactive })) e in
          rw (expire_timer_once stops s s1 e last r.0) (
            later,
            q.0,
            rw last (
                Changed-over s _ e (due ++ later) off _ _ (
                  subst
                    (λ x.
                      Changed s1 e (record x { timer_state = timer_deactive }) (timer_calls x) s1')
                    off_now q.1)),
          )
      | inr more ↦
          let q =
            expire_again stops s1 e (s.timers e).reschedule_ticks due later m1 r.1 (ground arith)
              (m.reschedule_fits e) (rw (==_refl e) active) in
          let ticks = (s.timers e).reschedule_ticks in
          rw (expire_timer_again stops s s1 e more r.0) (
            q.0,
            q.1,
            rw more (
                Changed-over s _ e (due ++ later) off _ _ (
                  subst
                    (λ x.
                      Changed s1 e
                        (if is_stopped stops x
                          then record (restarted s.raw_timer_count ticks x) {
                            to_head = false;
                            timer_state = timer_deactive;
                          }
                          else restarted s.raw_timer_count ticks x)
                        (timer_calls x) (call_timeout stops (start_timer s1 e ticks) e))
                    off_now q.2)),
          )
    ]
  where
    s1 : Timers
    s1 = taken_out s e (due ++ later)

    r :
        (timer_list_remove s e ≡ s1)
        × (count e due + count e later ≡ 0)
        × Mid (timer_list_remove s e) due later
    r = Mid-remove s e due later m

    m1 : Mid s1 due later
    m1 = subst (λ z. Mid z due later) r.0 r.2

    off : RawTimer
    off = record (s.timers e) { to_head = false }

    off_now : s1.timers e ≡ off
    off_now = rw (==_refl e) refl
