-- ===== src/Timer/Loop.antt =====
-- The loop of the task: the timers that are due expire one after the other.
use raw_os.Shared.{
  ℕ, zero, suc, ◌+◌, ◌<◌, ◌≡◌, refl, sym, ◌∙◌, ap, subst, Bool, true, false, ◌==◌, if◌then◌else◌,
  Option, none, some, List, [], ◌∷◌, ◌++◌, length, arith, count, count-cons, count-nil, All,
  Bool-cases, inl, inr, ==_refl, absent_induction,
}
use raw_os.Kernel.{Call}
use raw_os.Timer.{Timers, RawTimer, is_deactive}
use raw_os.Timer.Run.{run_timers, expire_timer, successor}
use raw_os.Timer.Expire.{Mid}
use raw_os.Timer.Call.{Changed, expired, timer_calls}
use raw_os.Timer.Round.{expire_timer_lem}

-- The calls of the functions of some timers, in their order, newest first.
abbrev pub calls_of : (ℕ → RawTimer) → List ℕ → List Call → List Call
calls_of timers [] calls = calls
calls_of timers (e ∷ es) calls = calls_of timers es (timer_calls (timers e) ++ calls)

-- The timers `due` have expired, and no other.
pub record Ran (stops : ℕ → ℕ → Bool) (s : Timers) (due : List ℕ) (s' : Timers) : Type 0 where
  pub timers :
      (u : ℕ)
      → s'.timers u
        ≡ (if count u due == 0 then s.timers u else expired stops s.raw_timer_count (s.timers u))
  pub calls : s'.kernel.calls ≡ calls_of s.timers due s.kernel.calls
  pub same_count : s'.raw_timer_count ≡ s.raw_timer_count

-- Where the loop stands: at the first of the timers that are due or, with none, at one that is not.
abbrev pub At : Timers → List ℕ → Option ℕ → Type 0
At s [] none = Unit
At s [] (some x) = (s.raw_timer_count == (s.timers x).match_tick) ≡ false
At s (e ∷ due) iter = iter ≡ some e

calls_of-same :
    (f g : ℕ → RawTimer) (e : ℕ) (l : List ℕ)
    → ((u : ℕ) → (e == u) ≡ false → g u ≡ f u)
    → count e l ≡ 0
    → (cs : List Call) → calls_of g l cs ≡ calls_of f l cs
calls_of-same f g e l same out =
    absent_induction (λ l. (cs : List Call) → calls_of g l cs ≡ calls_of f l cs) e (λ cs. refl)
      (λ x xs ne rest cs.
        rest (timer_calls (g x) ++ cs) ∙ ap (λ y. calls_of f xs (timer_calls y ++ cs)) (same x ne))
      l out

All-same :
    (P : RawTimer → Type 0) (f g : ℕ → RawTimer) (e : ℕ) (l : List ℕ)
    → ((u : ℕ) → (e == u) ≡ false → g u ≡ f u)
    → count e l ≡ 0
    → All (λ u. P (f u)) l
    → All (λ u. P (g u)) l
All-same P f g e l same out =
    absent_induction (λ l. All (λ u. P (f u)) l → All (λ u. P (g u)) l) e (λ h. tt)
      (λ x xs ne rest h. (subst P (sym (same x ne)) h.0, rest h.1)) l out

-- The timer behind one that expires is the next to look at.
At-next :
    (s s' : Timers) (e : ℕ) (due later : List ℕ)
    → Mid s (e ∷ due) later
    → ((u : ℕ) → (e == u) ≡ false → s'.timers u ≡ s.timers u)
    → s'.raw_timer_count ≡ s.raw_timer_count
    → count e later ≡ 0
    → At s' due (successor e s.timer_head)
At-next s s' e (x ∷ due) later m same c out = rw (m.head, ==_refl e) refl
At-next s s' e [] [] m same c out = rw (m.head, ==_refl e) tt
At-next s s' e [] (x ∷ later) m same c out =
    let ne : (e == x) ≡ false = ground (arith, out, count-cons e x later) in
    rw (m.head, ==_refl e, same x ne, c) (ground (arith, m.not_yet.0, m.count_fits, m.match_fits x))

Ran-cons :
    (stops : ℕ → ℕ → Bool) (s s1 s' : Timers) (e : ℕ) (due : List ℕ)
    → Changed s e (expired stops s.raw_timer_count (s.timers e)) (timer_calls (s.timers e)) s1
    → Ran stops s1 due s'
    → count e due ≡ 0
    → Ran stops s (e ∷ due) s'
Ran-cons stops s s1 s' e due c r out = record {
  timers = λ u. elim (Bool-cases (e == u)) [
    | inl h ↦ subst Timers_at (ground (arith, h)) first
    | inr h ↦
        let o : s1.timers u ≡ s.timers u = c.timers u ∙ rw h refl in
        let test : (count u (e ∷ due) == 0) ≡ (count u due == 0) =
          ap (λ n. n == 0) (ground (arith, h, count-cons u e due)) in
        rw test (
          r.timers u
          ∙ (λ i. if count u due == 0 then o i else expired stops (c.same_count i) (o i)))
  ];
  calls =
      r.calls
      ∙ ap (calls_of s1.timers due) c.calls
      ∙ calls_of-same s.timers s1.timers e due (λ u ne. c.timers u ∙ rw ne refl) out _;
  same_count = r.same_count ∙ c.same_count;
}
  where
    Timers_at : ℕ → Type 0
    Timers_at u = s'.timers u ≡ (
        if count u (e ∷ due) == 0 then s.timers u else expired stops s.raw_timer_count (s.timers u))

    first : Timers_at e
    first =
        let t : (count e due == 0) ≡ true = ground (arith, out) in
        let q : (count e (e ∷ due) == 0) ≡ false = ground (arith, count-cons e e due, ==_refl e) in
        rw q (r.timers e ∙ rw t (c.timers e ∙ rw (==_refl e) refl))

pub run_timers_lem :
    (stops : ℕ → ℕ → Bool) (fuel : ℕ) (s : Timers) (due later : List ℕ) (iter : Option ℕ)
    → Mid s due later
    → All (λ t. is_deactive (s.timers t).timer_state ≡ false) due
    → length due < fuel
    → At s due iter
    → (s' : Timers) × (later' : List ℕ) × (run_timers stops fuel s iter ≡ some s')
      × Mid s' [] later'
      × Ran stops s due s'
unfolding run_timers
run_timers_lem stops zero s due later iter m active more here = absurd (omega arith)
run_timers_lem stops (suc fuel) s [] later none m active more here = (
  s,
  later,
  refl,
  m,
  record { timers = λ u. rw (count-nil u) refl; calls = refl; same_count = refl },
)
run_timers_lem stops (suc fuel) s [] later (some x) m active more here = (
  s,
  later,
  rw here refl,
  m,
  record { timers = λ u. rw (count-nil u) refl; calls = refl; same_count = refl },
)
run_timers_lem stops (suc fuel) s (e ∷ due) later iter m active more here =
    let come : (s.raw_timer_count == (s.timers e).match_tick) ≡ true =
      ground (arith, m.now.0, m.count_fits, m.match_fits e) in
    let r = expire_timer_lem stops s e due later m active.0 in
    let out : count e due + count e later ≡ 0 = ground (arith, m.linked e, count-cons e e due) in
    let same : (u : ℕ) → (e == u) ≡ false → (expire_timer stops s e).timers u ≡ s.timers u =
      λ u ne. r.2.timers u ∙ rw ne refl in
    let rest =
      run_timers_lem stops fuel (expire_timer stops s e) due r.0 (successor e s.timer_head) r.1
        (All-same (λ x. is_deactive x.timer_state ≡ false) s.timers _ e due same
          (omega (arith, out)) active.1)
        (omega arith)
        (At-next s (expire_timer stops s e) e due later m same r.2.same_count
          (omega (arith, out))) in
    (
      rest.0,
      rest.1,
      rw (here, come) rest.2,
      rest.3,
      Ran-cons stops s _ _ e due r.2 rest.4 (omega (arith, out)),
    )
