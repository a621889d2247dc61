-- ===== src/Timer/Keep.antt =====
-- The calls of an application keep the invariant of the timers.
use raw_os.Shared.{
  ℕ, ◌≤◌, ◌<◌, ◌≡◌, refl, subst, sym, ◌∙◌, ap, true, false, ◌==◌, if◌then◌else◌, List, [], arith,
  count, count-nil, count-erase, All, IsSorted, ==_refl, Bool-cases, inl, inr,
}
use raw_os.Kernel.{u32_mod}
use raw_os.Timer.{
  Timers, RawTimer, set_timer, is_deactive, timer_deactive, timer_active, activate_section,
  deactivate_section, timer_list_remove, start_timer,
}
use raw_os.Timer.Expire.{Mid, Mid-start, Mid-set_timer, key}
use raw_os.Timer.Call.{Mid-deactive, Mid-stop}
use raw_os.Timer.Turn.{Ready}

Ready-Mid : (s : Timers) → Ready s → Mid s [] s.timer_head
Ready-Mid s r = record {
  head = refl;
  now = tt;
  not_yet = r.not_yet;
  sorted = r.sorted;
  linked = λ t. r.linked t ∙ omega (arith, count-nil t);
  count_fits = r.count_fits;
  match_fits = r.match_fits;
  reschedule_fits = r.reschedule_fits;
}

Mid-Ready :
    (s : Timers) (l : List ℕ)
    → Mid s [] l
    → ((t : ℕ) → (s.timers t).to_head ≡ true → is_deactive (s.timers t).timer_state ≡ false)
    → Ready s
Mid-Ready s l m running = record {
  sorted = subst (IsSorted (key s)) (sym m.head) m.sorted;
  not_yet = subst (All (λ t. 1 ≤ key s t)) (sym m.head) m.not_yet;
  linked = λ t. m.linked t ∙ omega (arith, count-nil t) ∙ ap (count t) (sym m.head);
  running = running;
  count_fits = m.count_fits;
  match_fits = m.match_fits;
  reschedule_fits = m.reschedule_fits;
}

-- Starting a timer that is not in the list, after 1 tick or more, puts it there with that many ticks
-- left, and keeps the list sorted with nothing overdue.
pub activate_section-Ready :
    (s : Timers) (t : ℕ)
    → Ready s
    → (s.timers t).to_head ≡ false
    → 0 < (s.timers t).init_count
    → (s.timers t).init_count < u32_mod
    → let s' = activate_section t s in
      Ready s' × (key s' t ≡ (s.timers t).init_count) × (count t s'.timer_head ≡ 1)
unfolding activate_section start_timer
activate_section-Ready s t r off some_ticks fits =
    let m =
      Mid-start s t (s.timers t).init_count [] s.timer_head (Ready-Mid s r)
        (ground (arith, count-nil t, r.linked t, off)) some_ticks fits in
    let s2 = start_timer s t (s.timers t).init_count in
    let x : RawTimer = record (s2.timers t) { timer_state = timer_active } in
    let m' =
      Mid-set_timer s2 t x s2.timer_head [] m.0 refl refl m.1.head
        (λ u. ground (arith, m.1.linked u, m.1.linked t)) m.1.now m.1.not_yet m.1.sorted
        m.1.count_fits m.1.match_fits m.1.reschedule_fits in
    (
      Mid-Ready (set_timer s2 t x) m.0 m' (λ u on. running u on),
      rw (==_refl t) (ground (arith, r.count_fits)),
      ap (count t) m.1.head ∙ ground (arith, m.2 t, ==_refl t, r.linked t, off),
    )
  where
    running :
        (u : ℕ)
        → ((activate_section t s).timers u).to_head ≡ true
        → is_deactive ((activate_section t s).timers u).timer_state ≡ false
    running u on = elim (Bool-cases (t == u)) [
      | inl h ↦ rw h refl
      | inr h ↦ rw h (r.running u (rw h at on))
    ]

not_listed : (s : Timers) (t : ℕ) → (s.timers t).to_head ≡ false → timer_list_remove s t ≡ s
unfolding timer_list_remove
not_listed s t off = rw off refl

-- Deactivating a timer takes it out of the list, if it is there, and keeps the list sorted with nothing
-- overdue.
pub deactivate_section-Ready :
    (s : Timers) (t : ℕ)
    → Ready s
    → let s' = deactivate_section t s in
      Ready s' × ((s'.timers t).timer_state ≡ timer_deactive) × (count t s'.timer_head ≡ 0)
unfolding deactivate_section
deactivate_section-Ready s t r = elim (Bool-cases (s.timers t).to_head) [
  | inl on ↦
      let m = Mid-stop s t [] s.timer_head (Ready-Mid s r) on (count-nil t) in
      (
        Mid-Ready (deactivate_section t s) _ m.0
            (still s (deactivate_section t s) _ refl r.running m.1.timers),
        rw (==_refl t) refl,
        ap (count t) m.0.head ∙ count-erase t t s.timer_head ∙ rw (==_refl t) refl,
      )
  | inr off ↦
      let s' = set_timer s t (record (s.timers t) { timer_state = timer_deactive }) in
      subst
        (λ s1.
          let s2 = set_timer s1 t (record (s1.timers t) { timer_state = timer_deactive }) in
          Ready s2 × ((s2.timers t).timer_state ≡ timer_deactive) × (count t s2.timer_head ≡ 0))
        (sym (not_listed s t off))
        (
          Mid-Ready s' s.timer_head (Mid-deactive s t [] s.timer_head (Ready-Mid s r)) (
              still s s' (record (s.timers t) { timer_state = timer_deactive }) off r.running
                (λ u. refl)),
          rw (==_refl t) refl,
          ground (arith, r.linked t, off),
        )
]
  where
    still :
        (s s' : Timers) (x : RawTimer)
        → x.to_head ≡ false
        → ((u : ℕ) → (s.timers u).to_head ≡ true → is_deactive (s.timers u).timer_state ≡ false)
        → ((u : ℕ) → s'.timers u ≡ (if t == u then x else s.timers u))
        → (u : ℕ) → (s'.timers u).to_head ≡ true
        → is_deactive (s'.timers u).timer_state ≡ false
    still s s' x out running same u =
        subst (λ y. y.to_head ≡ true → is_deactive y.timer_state ≡ false) (sym (same u))
          (elim (Bool-cases (t == u)) [
            | inl h ↦ rw h (λ on. let no = sym out ∙ on in ground arith)
            | inr h ↦ rw h (running u)
          ])
