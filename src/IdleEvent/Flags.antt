-- ===== src/IdleEvent/Flags.antt =====
-- What the flags say, and how a post sets them: raw_idle_event.c.
use raw_os.Shared.{
  ℕ, ◌+◌, ◌/◌, ◌%◌, ◌≤◌, ◌<◌, ◌≡◌, refl, subst, sym, ◌∙◌, ap, true, false, ltb, ◌==◌, if◌then◌else◌,
  arith, update, Bool-cases, inl, inr, ==_refl,
}
use raw_os.Bits.{Word, any_below}
use raw_os.Bits.Register.{any_below-set}
use raw_os.IdleEvent.{IdleEvents, ActiveEvent, flag}

-- `n` objects, 64 at most, each at its own address with its place in the flags. An object's flag is
-- set exactly if it has an event, a flag without an object is clear, and a group's flag is set exactly
-- if one of the flags in the group is.
pub record IsFlagged (n : ℕ) (s : IdleEvents) : Type 0 where
  pub few : n ≤ 64
  pub placed :
      (p : ℕ)
      → p < n
      → let x = s.acts (s.active_idle_task p).act in
        (x.prio ≡ p) × (x.priority_x ≡ p % 8) × (x.priority_y ≡ p / 8)
  pub used :
      (p : ℕ)
      → p < n
      → let acb = s.active_idle_task p in
        ((s.acts acb.act).n_used ≤ acb.queue_end) × (acb.queue_end < 256)
  pub flagged :
      (p : ℕ)
      → p < n
      → s.raw_rdy_tbl (p / 8) (p % 8) ≡ ltb 0 (s.acts (s.active_idle_task p).act).n_used
  pub beyond : (p : ℕ) → n ≤ p → p < 64 → s.raw_rdy_tbl (p / 8) (p % 8) ≡ false
  pub group : (y : ℕ) → y < 8 → s.raw_idle_rdy_grp y ≡ any_below 8 (s.raw_rdy_tbl y)

-- The flag of an object, and no other, is set.
flags_after :
    (tbl : ℕ → Word) (q p : ℕ)
    → update tbl (q / 8) (update (tbl (q / 8)) (q % 8) true) (p / 8) (p % 8)
      ≡ (if q == p then true else tbl (p / 8) (p % 8))
flags_after tbl q p = elim (Bool-cases (q == p)) [
  | inl h ↦
      let e : q ≡ p = ground (arith, h) in
      subst
        (λ r.
          update tbl (q / 8) (update (tbl (q / 8)) (q % 8) true) (r / 8) (r % 8)
          ≡ (if q == r then true else tbl (r / 8) (r % 8)))
        e (rw (==_refl q, ==_refl (q / 8), ==_refl (q % 8)) refl)
  | inr h ↦ elim (Bool-cases (q / 8 == p / 8)) [
    | inl g ↦
        let b : (q % 8 == p % 8) ≡ false = ground (arith, h, g) in
        let e : q / 8 ≡ p / 8 = ground (arith, g) in rw (h, g, b) (ap (λ r. tbl r (p % 8)) e)
    | inr g ↦ rw (h, g) refl
  ]
]

-- The object with its indices moved and one event more.
abbrev pub moved : ActiveEvent → (head tail : ℕ) → ActiveEvent
moved x head tail = record x { head = head; tail = tail; n_used = x.n_used + 1 }

abbrev pub stored : IdleEvents → (q : ℕ) → (queue : ℕ → ℕ × ℕ) → (head tail : ℕ) → IdleEvents
stored s q queue head tail =
    let acb = s.active_idle_task q in
    record s {
      acts = update s.acts acb.act (moved (s.acts acb.act) head tail);
      active_idle_task = update s.active_idle_task q (record acb { queue = queue });
    }

-- Its address is its own.
pub apart :
    (n : ℕ) (s : IdleEvents) (q p : ℕ)
    → IsFlagged n s
    → q < n
    → p < n
    → (q == p) ≡ false
    → ((s.active_idle_task q).act == (s.active_idle_task p).act) ≡ false
apart n s q p f lq lp ne =
    elim (Bool-cases ((s.active_idle_task q).act == (s.active_idle_task p).act)) [
      | inl h ↦
          let e : (s.active_idle_task q).act ≡ (s.active_idle_task p).act = ground (arith, h) in
          let same : q ≡ p =
            sym (f.placed q lq).0 ∙ ap (λ a. (s.acts a).prio) e ∙ (f.placed p lp).0 in
          absurd (ground (arith, ne, same))
      | inr h ↦ h
    ]

-- What the invariant says of one object, before and after.
module _ (n : ℕ) (s : IdleEvents) (q : ℕ) (queue : ℕ → ℕ × ℕ) (head tail : ℕ) (f : IsFlagged n s)
    (lq : q < n) where
  abbrev s1 : IdleEvents
  s1 = stored s q queue head tail

  act_after :
      (p : ℕ)
      → p < n
      → s1.acts (s1.active_idle_task p).act ≡ (
          if q == p
          then moved (s.acts (s.active_idle_task q).act) head tail
          else s.acts (s.active_idle_task p).act)
  act_after p lp = elim (Bool-cases (q == p)) [
    | inl h ↦ rw (h, ==_refl (s.active_idle_task q).act) refl
    | inr h ↦ rw (h, apart n s q p f lq lp h) refl
  ]

  end_after : (p : ℕ) → (s1.active_idle_task p).queue_end ≡ (s.active_idle_task p).queue_end
  end_after p = elim (Bool-cases (q == p)) [
    | inl h ↦
        let e : q ≡ p = ground (arith, h) in rw h (ap (λ r. (s.active_idle_task r).queue_end) e)
    | inr h ↦ rw h refl
  ]

  -- Any flags that differ from those before at the object alone, whose flag is set.
  IsFlagged-stored :
      (tbl : ℕ → Word) (grp : Word)
      → (s.acts (s.active_idle_task q).act).n_used < (s.active_idle_task q).queue_end
      → ((p : ℕ) → tbl (p / 8) (p % 8) ≡ (if q == p then true else s.raw_rdy_tbl (p / 8) (p % 8)))
      → ((y : ℕ) → y < 8 → grp y ≡ any_below 8 (tbl y))
      → IsFlagged n (record s1 { raw_idle_rdy_grp = grp; raw_rdy_tbl = tbl })
  IsFlagged-stored tbl grp room set covered = record {
    few = f.few;
    placed = λ p lp. elim (Bool-cases (q == p)) [
      | inl h ↦
          let e : q ≡ p = ground (arith, h) in
          rw (act_after p lp, h)
            (subst (Placed_at (s.acts (s.active_idle_task q).act)) e (f.placed q lq))
      | inr h ↦ rw (act_after p lp, h) (f.placed p lp)
    ];
    used = λ p lp. elim (Bool-cases (q == p)) [
      | inl h ↦
          let e : (s.active_idle_task q).queue_end ≡ (s.active_idle_task p).queue_end =
            ap (λ r. (s.active_idle_task r).queue_end) (ground (arith, h)) in
          rw (act_after p lp, end_after p, h) (omega (arith, room, e), (f.used p lp).1)
      | inr h ↦ rw (act_after p lp, end_after p, h) (f.used p lp)
    ];
    flagged = λ p lp. elim (Bool-cases (q == p)) [
      | inl h ↦ rw (act_after p lp, set p, h) (ground arith)
      | inr h ↦ rw (act_after p lp, set p, h) (f.flagged p lp)
    ];
    beyond = λ p out lt. ground (arith, set p, f.beyond p out lt);
    group = covered;
  }
    where
      Placed_at : ActiveEvent → ℕ → Type 0
      Placed_at x p = (x.prio ≡ p) × (x.priority_x ≡ p % 8) × (x.priority_y ≡ p / 8)

  -- The flag is set with the first event.
  pub post_flags :
      (s.acts (s.active_idle_task q).act).n_used < (s.active_idle_task q).queue_end
      → let me = (s.active_idle_task q).act in
        let s' = if (s.acts me).n_used + 1 == 1 then flag s1 me else s1 in
        IsFlagged n s' × ((s'.acts me).n_used ≡ (s.acts me).n_used + 1)
  unfolding flag
  post_flags room = elim (Bool-cases ((s.acts (s.active_idle_task q).act).n_used + 1 == 1)) [
    | inl first ↦
        rw (first, ==_refl (s.active_idle_task q).act)
          (
            IsFlagged-stored
                (update s.raw_rdy_tbl x.priority_y
                  (update (s.raw_rdy_tbl x.priority_y) x.priority_x true))
                (update s.raw_idle_rdy_grp x.priority_y true) room
                (λ p. rw ((f.placed q lq).1, (f.placed q lq).2) (flags_after s.raw_rdy_tbl q p))
                (λ y lt. elim (Bool-cases (x.priority_y == y)) [
                  | inl g ↦ rw g (
                      sym (
                        any_below-set 8 _ x.priority_x (omega (arith, f.placed q lq))
                          (rw (==_refl x.priority_x) refl)))
                  | inr g ↦ rw g (f.group y lt)
                ]),
            refl,
          )
    | inr more ↦
        rw (more, ==_refl (s.active_idle_task q).act)
          (
            IsFlagged-stored s.raw_rdy_tbl s.raw_idle_rdy_grp room (λ p. already p more) f.group,
            refl,
          )
  ]
    where
      x : ActiveEvent
      x = s.acts (s.active_idle_task q).act

      already :
          (p : ℕ)
          → (x.n_used + 1 == 1) ≡ false
          → s.raw_rdy_tbl (p / 8) (p % 8) ≡ (if q == p then true else s.raw_rdy_tbl (p / 8) (p % 8))
      already p more = elim (Bool-cases (q == p)) [
        | inl h ↦
            let e : p ≡ q = ground (arith, h) in
            let some_used : ltb 0 x.n_used ≡ true = ground (arith, more) in
            rw h (
              f.flagged p (omega (arith, e, lq))
              ∙ ap (λ r. ltb 0 (s.acts (s.active_idle_task r).act).n_used) e
              ∙ some_used)
        | inr h ↦ rw h refl
      ]
