-- ===== src/Timer/Turn.antt =====
-- A turn of the task: exactly the timers whose tick has come expire, each once.
use raw_os.Shared.{
  ℕ, ◌+◌, ◌%◌, ◌≤◌, ◌<◌, ◌≡◌, refl, sym, ◌∙◌, ap, subst, Bool, true, false, ◌==◌, if◌then◌else◌,
  some, head?, b2n, List, [], ◌∷◌, ◌++◌, length, length-append, arith, count, count-cons, count-nil,
  count-append, All, All-map, IsSorted, Bool-cases, inl, inr, ==_refl,
}
use raw_os.Kernel.{u32_mod}
use raw_os.Timer.{Timers, RawTimer, left, is_deactive}
use raw_os.Timer.Run.{run_timers, timer_task_turn}
use raw_os.Timer.Expire.{Mid, key}
use raw_os.Timer.Call.{is_stopped, expired}
use raw_os.Timer.Loop.{calls_of, Ran, At, run_timers_lem}

-- The invariant of the timers between the turns of their task.
pub record Ready (s : Timers) : Type 0 where
  pub sorted : IsSorted (key s) s.timer_head
  pub not_yet : All (λ t. 1 ≤ key s t) s.timer_head
  pub linked : (t : ℕ) → b2n (s.timers t).to_head ≡ count t s.timer_head
  pub running : (t : ℕ) → (s.timers t).to_head ≡ true → is_deactive (s.timers t).timer_state ≡ false
  pub count_fits : s.raw_timer_count < u32_mod
  pub match_fits : (t : ℕ) → (s.timers t).match_tick < u32_mod
  pub reschedule_fits : (t : ℕ) → (s.timers t).reschedule_ticks < u32_mod

none_of :
    (f : ℕ → ℕ) (u : ℕ) (l : List ℕ) → All (λ t. 2 ≤ f t) l → (f u == 1) ≡ true → count u l ≡ 0
none_of f u [] h e = count-nil u
none_of f u (x ∷ l) h e = ground (arith, h.0, none_of f u l h.1 e, count-cons u x l)

-- A sorted list parts into the entries of key 1 and the later ones.
record Parted (f : ℕ → ℕ) (l : List ℕ) : Type 0 where
  due : List ℕ
  later : List ℕ
  whole : l ≡ due ++ later
  ones : All (λ t. f t ≡ 1) due
  above : All (λ t. 2 ≤ f t) later
  sorted : IsSorted f later
  counts : (u : ℕ) → count u due ≡ (if f u == 1 then count u l else 0)

parted : (f : ℕ → ℕ) (l : List ℕ) → IsSorted f l → All (λ t. 1 ≤ f t) l → Parted f l
parted f [] s h = record {
  due = [];
  later = [];
  whole = refl;
  ones = tt;
  above = tt;
  sorted = tt;
  counts = λ u. ground (arith, count-nil u);
}
parted f (x ∷ l) s h =
    let p = parted f l s.1 h.1 in
    elim (Bool-cases (f x == 1)) [
      | inl one ↦ record {
        due = x ∷ p.due;
        later = p.later;
        whole = ap (◌∷◌ x) p.whole;
        ones = (ground arith, p.ones);
        above = p.above;
        sorted = p.sorted;
        counts = λ u. ground (arith, one, p.counts u, count-cons u x p.due, count-cons u x l);
      }
      | inr more ↦
          let above : All (λ t. 2 ≤ f t) (x ∷ l) = (
            ground (arith, h.0),
            All-map (λ y. f x ≤ f y) (λ y. 2 ≤ f y) l (λ y le. ground (arith, h.0)) s.0,
          ) in
          record {
            due = [];
            later = x ∷ l;
            whole = refl;
            ones = tt;
            above = above;
            sorted = s;
            counts = λ u. ground (arith, count-nil u, none_of f u (x ∷ l) above);
          }
    ]

IsSorted-shift :
    (f g : ℕ → ℕ) (l : List ℕ) → IsSorted f l → All (λ t. f t ≡ g t + 1) l → IsSorted g l
IsSorted-shift f g [] s h = tt
IsSorted-shift f g (x ∷ l) s h = (shift_le l s.0 h.1, IsSorted-shift f g l s.1 h.1)
  where
    shift_le :
        (l : List ℕ) → All (λ y. f x ≤ f y) l → All (λ t. f t ≡ g t + 1) l → All (λ y. g x ≤ g y) l
    shift_le [] a b = tt
    shift_le (y ∷ l) a b = (omega (arith, a.0, b.0, h.0), shift_le l a.1 b.1)

-- A tick takes one from what is left to a timer that is not due yet.
left_next :
    (now : ℕ) (x : RawTimer)
    → now < u32_mod
    → x.match_tick < u32_mod
    → 1 ≤ left now x
    → left now x ≡ left ((now + 1) % u32_mod) x + 1
left_next now x a b c = ground (arith, a, b, c)

-- A turn is given one round for each timer in the list and one more.
pub record Turned (stops : ℕ → ℕ → Bool) (s s' : Timers) : Type 0 where
  pub ready : Ready s'
  pub counted : s'.raw_timer_count ≡ (s.raw_timer_count + 1) % u32_mod
  pub timers :
      (t : ℕ)
      → s'.timers t ≡ (
          if count t s.timer_head == 0
          then s.timers t
          else if key s t == 1
          then expired stops s'.raw_timer_count (s.timers t)
          else s.timers t)
  pub due : List ℕ
  pub first : (later : List ℕ) × (s.timer_head ≡ due ++ later)
  pub whole : (t : ℕ) → count t due ≡ (if key s t == 1 then count t s.timer_head else 0)
  pub calls : s'.kernel.calls ≡ calls_of s.timers due s.kernel.calls

All-members : (P : ℕ → Type 0) (l : List ℕ) → ((t : ℕ) → 1 ≤ count t l → P t) → All P l
All-members P [] h = tt
All-members P (x ∷ l) h = (
  h x (ground (arith, count-cons x x l, ==_refl x)),
  All-members P l (λ t le. h t (omega (arith, le, count-cons t x l))),
)

At-start : (s : Timers) (due later : List ℕ) → Mid s due later → At s due (head? s.timer_head)
At-start s [] [] m = rw m.head tt
At-start s [] (x ∷ later) m = rw m.head (ground (arith, m.not_yet.0, m.count_fits, m.match_fits x))
At-start s (e ∷ due) later m = rw m.head refl

expired_running :
    (stops : ℕ → ℕ → Bool) (now : ℕ) (x : RawTimer)
    → is_deactive x.timer_state ≡ false
    → (expired stops now x).to_head ≡ true
    → is_deactive (expired stops now x).timer_state ≡ false
expired_running stops now x a on = elim (Bool-cases (x.reschedule_ticks == 0)) [
  | inl c ↦ let no = rw c at on in ground arith
  | inr c ↦ elim (Bool-cases (is_stopped stops x)) [
    | inl d ↦ let no = rw (c, d) at on in ground arith
    | inr d ↦ rw (c, d) a
  ]
]

-- The tick comes, and the list parts into the timers that are due and the others.
tick-Mid :
    (s : Timers) (r : Ready s) (p : Parted (key s) s.timer_head)
    → Mid (record s { raw_timer_count = (s.raw_timer_count + 1) % u32_mod }) p.due p.later
tick-Mid s r p = record {
  head = p.whole;
  now =
      All-map (λ t. key s t ≡ 1) (λ t. key s1 t ≡ 0) p.due
        (λ t e. omega (arith, e, shift t (omega (arith, e)))) p.ones;
  not_yet =
      All-map (λ t. 2 ≤ key s t) (λ t. 1 ≤ key s1 t) p.later
        (λ t e. omega (arith, e, shift t (omega (arith, e)))) p.above;
  sorted = IsSorted-shift (key s) (key s1) p.later p.sorted (
      All-map (λ t. 2 ≤ key s t) (λ t. key s t ≡ key s1 t + 1) p.later
        (λ t e. shift t (omega (arith, e))) p.above);
  linked = λ t. r.linked t ∙ ap (count t) p.whole ∙ count-append t p.due p.later;
  count_fits = omega arith;
  match_fits = r.match_fits;
  reschedule_fits = r.reschedule_fits;
}
  where
    s1 : Timers
    s1 = record s { raw_timer_count = (s.raw_timer_count + 1) % u32_mod }

    shift : (t : ℕ) → 1 ≤ key s t → key s t ≡ key s1 t + 1
    shift t le = left_next s.raw_timer_count (s.timers t) r.count_fits (r.match_fits t) le

Ran-running :
    (stops : ℕ → ℕ → Bool) (s s' : Timers) (due : List ℕ)
    → Ran stops s due s'
    → ((t : ℕ) → (s.timers t).to_head ≡ true → is_deactive (s.timers t).timer_state ≡ false)
    → ((t : ℕ) → 1 ≤ count t due → is_deactive (s.timers t).timer_state ≡ false)
    → (t : ℕ) → (s'.timers t).to_head ≡ true
    → is_deactive (s'.timers t).timer_state ≡ false
Ran-running stops s s' due r running due_running t on = elim (Bool-cases (count t due == 0)) [
  | inl c ↦
      let e : s'.timers t ≡ s.timers t = r.timers t ∙ rw c refl in
      subst running_timer (sym e) (λ on. running t on) on
  | inr c ↦
      let e : s'.timers t ≡ expired stops s.raw_timer_count (s.timers t) = r.timers t ∙ rw c refl in
      subst running_timer (sym e)
        (expired_running stops s.raw_timer_count (s.timers t) (due_running t (ground (arith, c))))
        on
]
  where
    running_timer : RawTimer → Type 0
    running_timer x = x.to_head ≡ true → is_deactive x.timer_state ≡ false

Ran-timers :
    (stops : ℕ → ℕ → Bool) (s s' : Timers) (p : Parted (key s) s.timer_head)
    → Ran stops (record s { raw_timer_count = (s.raw_timer_count + 1) % u32_mod }) p.due s'
    → (t : ℕ)
    → s'.timers t ≡ (
        if count t s.timer_head == 0
        then s.timers t
        else if key s t == 1
        then expired stops s'.raw_timer_count (s.timers t)
        else s.timers t)
Ran-timers stops s s' p r t = elim (Bool-cases (key s t == 1)) [
  | inl one ↦
      let test : count t p.due ≡ count t s.timer_head = p.counts t ∙ rw one refl in
      rw (one, r.same_count) (r.timers t ∙ rw test refl)
  | inr more ↦
      let test : count t p.due ≡ 0 = p.counts t ∙ rw more refl in
      elim (Bool-cases (count t s.timer_head == 0)) [
        | inl out ↦ rw (more, out) (r.timers t ∙ rw test refl)
        | inr on ↦ rw (more, on) (r.timers t ∙ rw test refl)
      ]
]

-- A turn of the task for a list that is sorted and has nothing overdue: it ends, within a round for each
-- timer and one more; exactly the timers in the list that have one tick left expire, each once and in
-- the order of the list; a timer with a period goes on, a period later, unless its function stops it;
-- and the list is sorted again, with nothing overdue.
pub timer_task_turn_lem :
    (stops : ℕ → ℕ → Bool) (fuel : ℕ) (s : Timers)
    → Ready s
    → length s.timer_head < fuel
    → (s' : Timers) × (timer_task_turn stops fuel s ≡ some s') × Turned stops s s'
unfolding timer_task_turn
timer_task_turn_lem stops fuel s r more = (
  run.0,
  run.2,
  record {
    ready = record {
      sorted = subst (IsSorted (key run.0)) (sym run.3.head) run.3.sorted;
      not_yet = subst (All (λ t. 1 ≤ key run.0 t)) (sym run.3.head) run.3.not_yet;
      linked = λ t. run.3.linked t ∙ omega (arith, count-nil t) ∙ ap (count t) (sym run.3.head);
      running = λ t on.
          Ran-running stops s1 run.0 p.due run.4 r.running
            (λ t le. r.running t (ground (arith, m.linked t, le))) t on;
      count_fits = run.3.count_fits;
      match_fits = run.3.match_fits;
      reschedule_fits = run.3.reschedule_fits;
    };
    counted = run.4.same_count;
    timers = λ t. Ran-timers stops s run.0 p run.4 t;
    due = p.due;
    first = (p.later, p.whole);
    whole = p.counts;
    calls = run.4.calls;
  },
)
  where
    p : Parted (key s) s.timer_head
    p = parted (key s) s.timer_head r.sorted r.not_yet

    s1 : Timers
    s1 = record s { raw_timer_count = (s.raw_timer_count + 1) % u32_mod }

    m : Mid s1 p.due p.later
    m = tick-Mid s r p

    active : All (λ t. is_deactive (s.timers t).timer_state ≡ false) p.due
    active =
        All-members (λ t. is_deactive (s.timers t).timer_state ≡ false) p.due
          (λ t le. r.running t (ground (arith, m.linked t, le)))

    run :
        (s' : Timers) × (later' : List ℕ) × (run_timers stops fuel s1 (head? s.timer_head)
          ≡ some s')
        × Mid s' [] later'
        × Ran stops s1 p.due s'
    run =
        run_timers_lem stops fuel s1 p.due p.later (head? s.timer_head) m active
          (omega (arith, more, ap length p.whole, length-append p.due p.later))
          (At-start s1 p.due p.later m)
