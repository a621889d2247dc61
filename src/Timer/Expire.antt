-- ===== src/Timer/Expire.antt =====
-- The list of timers in the middle of a turn of their task: the timers whose tick has come, which the
-- loop has still to handle, and the others behind them.
use raw_os.Shared.{
  ltb, Inserted, ℕ, ◌+◌, ◌%◌, ◌≤◌, ◌<◌, ◌≡◌, refl, sym, ◌∙◌, ap, subst, fun_ext, true, false, ◌==◌,
  b2n, List, [], ◌∷◌, ◌++◌, arith, update, count, count-cons, count-append, erase, erase_head, All,
  All-map, IsSorted, insert_by, insert_by-Inserted, insert_by-append, Inserted-IsSorted,
  IsSorted-congr, Bool-cases, inl, inr, ==_refl, absent_induction,
}
use raw_os.Kernel.{u32_mod}
use raw_os.Timer.{Timers, RawTimer, left, set_timer, timer_list_remove, start_timer}

abbrev pub key : Timers → ℕ → ℕ
key s t = left s.raw_timer_count (s.timers t)

pub record Mid (s : Timers) (due later : List ℕ) : Type 0 where
  pub head : s.timer_head ≡ due ++ later
  pub now : All (λ t. key s t ≡ 0) due
  pub not_yet : All (λ t. 1 ≤ key s t) later
  pub sorted : IsSorted (key s) later
  pub linked : (t : ℕ) → b2n (s.timers t).to_head ≡ count t due + count t later
  pub count_fits : s.raw_timer_count < u32_mod
  pub match_fits : (t : ℕ) → (s.timers t).match_tick < u32_mod
  pub reschedule_fits : (t : ℕ) → (s.timers t).reschedule_ticks < u32_mod

-- Fields of a timer that do not say when it expires may change.
pub Mid-set_timer :
    (s : Timers) (t : ℕ) (x : RawTimer) (list due later : List ℕ)
    → x.match_tick ≡ (s.timers t).match_tick
    → x.reschedule_ticks ≡ (s.timers t).reschedule_ticks
    → list ≡ due ++ later
    → ((u : ℕ) → b2n (update s.timers t x u).to_head ≡ count u due + count u later)
    → All (λ u. key s u ≡ 0) due
    → All (λ u. 1 ≤ key s u) later
    → IsSorted (key s) later
    → s.raw_timer_count < u32_mod
    → ((u : ℕ) → (s.timers u).match_tick < u32_mod)
    → ((u : ℕ) → (s.timers u).reschedule_ticks < u32_mod)
    → Mid (set_timer (record s { timer_head = list }) t x) due later
Mid-set_timer s t x list due later m r h l now nyet sorted cf mf rf =
    let same : key s ≡ key (set_timer s t x) = fun_ext (λ u. ground arith) in
    record {
      head = h;
      now = subst (λ (f : ℕ → ℕ). All (λ u. f u ≡ 0) due) same now;
      not_yet = subst (λ (f : ℕ → ℕ). All (λ u. 1 ≤ f u) later) same nyet;
      sorted = subst (λ f. IsSorted f later) same sorted;
      linked = l;
      count_fits = cf;
      match_fits = λ u. ground (arith, mf u, mf t);
      reschedule_fits = λ u. ground (arith, rf u, rf t);
    }

pub Mid-remove :
    (s : Timers) (e : ℕ) (due later : List ℕ)
    → Mid s (e ∷ due) later
    → (timer_list_remove s e
        ≡ set_timer
            (record s { timer_head = due ++ later })
            e
            (record (s.timers e) { to_head = false }))
      × (count e due + count e later ≡ 0)
      × Mid (timer_list_remove s e) due later
unfolding timer_list_remove
Mid-remove s e due later m =
    let c = count-cons e e due in
    let once : (s.timers e).to_head ≡ true = ground (arith, m.linked e, c) in
    let here : count e (e ∷ due ++ later) ≡ 1 =
      ground (arith, m.linked e, c, count-append e (e ∷ due) later) in
    let out : count e due + count e later ≡ 0 = ground (arith, m.linked e, c) in
    let gone : erase e s.timer_head ≡ due ++ later =
      ap (erase e) m.head ∙ erase_head e (due ++ later) here in
    rw (once, gone)
      (
        refl,
        out,
        Mid-set_timer s e (record (s.timers e) { to_head = false }) (due ++ later) due later refl
            refl refl (λ u. ground (arith, m.linked u, count-cons u e due, out)) m.now.1 m.not_yet
            m.sorted m.count_fits m.match_fits m.reschedule_fits,
      )

count-insert_by :
    (f : ℕ → ℕ) (val t u : ℕ) (l : List ℕ)
    → count u (insert_by f val t l) ≡ b2n (t == u) + count u l
count-insert_by f val t u [] = count-cons u t []
count-insert_by f val t u (q ∷ l) = ground (
  arith,
  count-cons u t (q ∷ l),
  count-cons u q l,
  count-cons u q (insert_by f val t l),
  count-insert_by f val t u l,
)

All-insert_by :
    (P : ℕ → Type 0) (f : ℕ → ℕ) (val t : ℕ) (l : List ℕ)
    → P t
    → All P l
    → All P (insert_by f val t l)
All-insert_by P f val t [] p h = (p, tt)
All-insert_by P f val t (q ∷ l) p h = elim (Bool-cases (ltb val (f q))) [
  | inl e ↦ rw e (p, h)
  | inr e ↦ rw e (h.0, All-insert_by P f val t l p h.1)
]

-- An entry's key changes for the entries alone that are that timer.
same_keys :
    (s : Timers) (e : ℕ) (y : RawTimer) (l : List ℕ)
    → count e l ≡ 0
    → All (λ q. key s q ≡ key (set_timer s e y) q) l
same_keys s e y =
    absent_induction (All (λ q. key s q ≡ key (set_timer s e y) q)) e tt
      (λ x xs ne rest. (ground arith, rest))

All-congr :
    (P : ℕ → Type 0) (f g : ℕ → ℕ) (l : List ℕ)
    → All (λ q. f q ≡ g q) l
    → All (λ q. P (f q)) l
    → All (λ q. P (g q)) l
All-congr P f g [] e h = tt
All-congr P f g (x ∷ l) e h = (subst P e.0 h.0, All-congr P f g l e.1 h.1)

-- A timer in no list that starts with some ticks to go takes its place among the others.
pub Mid-start :
    (s : Timers) (e ticks : ℕ) (due later : List ℕ)
    → Mid s due later
    → count e due + count e later ≡ 0
    → 0 < ticks
    → ticks < u32_mod
    → (later' : List ℕ) × Mid (start_timer s e ticks) due later'
      × ((u : ℕ) → count u later' ≡ b2n (e == u) + count u later)
unfolding start_timer
Mid-start s e ticks due later m out some_ticks fits =
    let y : RawTimer = record (s.timers e) {
      match_tick = (s.raw_timer_count + ticks) % u32_mod;
      remain = ticks;
      to_head = true;
    } in
    let key' : ℕ → ℕ = key (set_timer s e y) in
    let now =
      All-congr (λ v. v ≡ 0) (key s) key' due (same_keys s e y due (omega (arith, out))) m.now in
    let keys = same_keys s e y later (omega (arith, out)) in
    let sorted = IsSorted-congr (key s) key' later keys m.sorted in
    let mine : key' e ≡ ticks = ground (arith, m.count_fits) in
    let inserted = insert_by-Inserted key' ticks e later sorted in
    (
      insert_by key' ticks e later,
      record {
        head =
            rw (==_refl e, m.head)
              (insert_by-append key' ticks e due later (
                All-map (λ q. key' q ≡ 0) (λ q. key' q ≤ ticks) due (λ q z. omega (arith, z)) now));
        now = now;
        not_yet =
            All-insert_by (λ q. 1 ≤ key' q) key' ticks e later (omega (arith, mine, some_ticks))
              (All-congr (λ v. 1 ≤ v) (key s) key' later keys m.not_yet);
        sorted =
            Inserted-IsSorted key' e later _
              (subst (λ v. Inserted key' v e later (insert_by key' ticks e later)) (sym mine)
                inserted)
              sorted;
        linked = λ u. ground (arith, m.linked u, count-insert_by key' ticks e u later, out);
        count_fits = m.count_fits;
        match_fits = λ u. ground (arith, m.match_fits u);
        reschedule_fits = λ u. ground (arith, m.reschedule_fits u);
      },
      λ u. count-insert_by key' ticks e u later,
    )
