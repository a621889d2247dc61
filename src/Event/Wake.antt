-- ===== src/Event/Wake.antt =====
-- The loop of `event_set` over the tasks that wait, and its caller.
use raw_os.Shared.{
  ℕ, ◌≡◌, refl, sym, ap, ◌∙◌, Bool, true, false, not, ◌&&◌, ◌==◌, if◌then◌else◌, arith, inl, inr,
  Bool-cases, List, [], ◌∷◌, ◌++◌, count, erase, count-cons, count-append, ==_refl, append_snoc,
  ==_iff, fun_ext, erase_middle, subst, ap₂, erase_of_count,
}
use raw_os.Kernel.{Kernel, Task, b_ok, success, set_event, wrong_type, event_obj}
use raw_os.Kernel.Place.{WellFormed, is_pending}
use raw_os.Kernel.Place.Moves.{WellFormed-frame}
use Prim.Native.Nat.{bit_or}
use raw_os.Kernel.Sched.{raw_sched}
use raw_os.Kernel.Sched.Choice.{raw_sched_frame}
use raw_os.Kernel.Pend.Wake.{woken_task}
use raw_os.Event.{grant, grant_all, wants_all, event_set}
use raw_os.Event.Grant.{Step, grant_lem}
use raw_os.Event.Granted.{requests, meets, Granted, Granted-nil, Granted-skip}

same_requests :
    (k k1 : Kernel) (o current t : ℕ) → Step k o current t k1 → requests k1.tasks ≡ requests k.tasks
same_requests k k1 o current t s =
    ap₂ (λ f g. record { flags_of = f; option_of = g }) (fun_ext (λ u. ground (arith, s.tasks u)))
      (fun_ext (λ u. ground (arith, s.tasks u)))

-- A round in which the first task of the list is satisfied: what the rest of the loop makes of the
-- kernel `k1` after the round.
module _ (k k1 k' : Kernel) (o current t : ℕ) (ahead rest : List ℕ) (w : WellFormed k)
    (at : k.block_list o ≡ ahead ++ t ∷ rest) (e : meets (requests k.tasks) current t ≡ true)
    (s : Step k o current t k1) (g : Granted k1 o current ahead rest k') where
  same : requests k1.tasks ≡ requests k.tasks
  same = same_requests k k1 o current t s

  once : count t (ahead ++ t ∷ rest) ≡ 1
  once = ground (
    arith,
    w.placed.in_block t o,
    ap (count t) at,
    count-append t ahead (t ∷ rest),
    count-cons t t rest,
  )

  elsewhere : (q : ℕ) → (q == o) ≡ false → k1.block_list q ≡ k.block_list q
  elsewhere q ne =
      ap (λ f. f q) s.lists
      ∙ erase_of_count t _
          (ground (arith, w.placed.in_block t q, w.placed.in_block t o, ap (count t) at, once))

  absent : count t rest ≡ 0
  absent = ground (arith, once, count-append t ahead (t ∷ rest), count-cons t t rest)

  abbrev m : ℕ → Bool
  m u = meets (requests k.tasks) current u

  before :
      (u : ℕ)
      → k'.tasks u
        ≡ (if not (count u rest == 0) && m u then woken_task b_ok (k1.tasks u) else k1.tasks u)
  before u =
      g.woke u
      ∙ ap
          (λ r.
            if not (count u rest == 0) && meets r current u
            then woken_task b_ok (k1.tasks u)
            else k1.tasks u)
          same

  untouched : (u : ℕ) → (t == u) ≡ false → k1.tasks u ≡ k.tasks u
  untouched u there = s.tasks u ∙ rw there refl

  changed : k1.tasks t ≡ woken_task b_ok (k.tasks t)
  changed = s.tasks t ∙ rw (==_refl t) refl

  fewer : (u : ℕ) → (t == u) ≡ false → count u (t ∷ rest) ≡ count u rest
  fewer u there = ground (arith, count-cons u t rest)

  abbrev Woke : ℕ → Type 0
  Woke u =
      k'.tasks u
      ≡ (if not (count u (t ∷ rest) == 0) && m u then woken_task b_ok (k.tasks u) else k.tasks u)

  Woke-first : Woke t
  Woke-first =
      let was : (not (count t rest == 0) && m t) ≡ false = ground (arith, absent) in
      let is : (not (count t (t ∷ rest) == 0) && m t) ≡ true =
        ground (arith, count-cons t t rest, e) in
      before t ∙ rw (was, is) changed

  woke : (u : ℕ) → Woke u
  woke u = elim (Bool-cases (t == u)) [
    | inl here ↦ subst Woke ((==_iff t u).0 here) Woke-first
    | inr there ↦ before u ∙ rw (untouched u there, fewer u there) refl
  ]

  abbrev Stored : ℕ → Type 0
  Stored u =
      (count u (t ∷ rest) == 0) ≡ false → m u ≡ true → k'.memory (k.tasks u).suspend_info ≡ current

  Stored-first : Stored t
  Stored-first listed met =
      g.stays (k.tasks t).suspend_info
        (ap (λ f. f (k.tasks t).suspend_info) s.memory ∙ rw (==_refl (k.tasks t).suspend_info) refl)

  stored : (u : ℕ) → Stored u
  stored u = elim (Bool-cases (t == u)) [
    | inl here ↦ subst Stored ((==_iff t u).0 here) Stored-first
    | inr there ↦ λ listed met.
        ap (λ (x : Task). k'.memory x.suspend_info) (sym (untouched u there))
        ∙ g.stored u (ap (λ n. n == 0) (sym (fewer u there)) ∙ listed)
            (ap (λ r. meets r current u) same ∙ met)
  ]

  Granted-wake : Granted k o current ahead (t ∷ rest) k'
  Granted-wake = record {
    well_formed = g.well_formed;
    left = g.left ∙ rw (same, e) refl;
    others = λ q ne. g.others q ne ∙ elsewhere q ne;
    woke = λ u. woke u;
    flags = g.flags ∙ rw (same, s.flags, e) refl;
    stored = λ u listed met. stored u listed met;
    stays = λ a h. g.stays a (ground (arith, h, ap (λ f. f a) s.memory));
  }

listed-is_pending_at :
    (k : Kernel) (o t : ℕ) (ahead rest : List ℕ)
    → WellFormed k
    → k.block_list o ≡ ahead ++ t ∷ rest
    → (count t (k.block_list o) ≡ 1) × (is_pending (k.tasks t).task_state ≡ true)
listed-is_pending_at k o t ahead rest w at =
    let c = ap (count t) at ∙ count-append t ahead (t ∷ rest) in
    (
      ground (arith, w.placed.in_block t o, c, count-cons t t rest),
      ground (arith, w.placed.in_block t o, c, count-cons t t rest),
    )

grant_all-Granted :
    (l : List ℕ) (k : Kernel) (o current : ℕ) (ahead : List ℕ)
    → WellFormed k
    → k.block_list o ≡ ahead ++ l
    → Granted k o current ahead l (grant_all k o current l)
unfolding grant_all
grant_all-Granted [] k o current ahead w at = Granted-nil k o current ahead w at
grant_all-Granted (t ∷ rest) k o current ahead w at =
    elim (Bool-cases (meets (requests k.tasks) current t)) [
      | inl e ↦
          let member = listed-is_pending_at k o t ahead rest w at in
          let s = grant_lem k o current t w member.1 in
          let once = sym (ap (count t) at) ∙ member.0 in
          let next = ap (λ f. f o) s.lists ∙ ap (erase t) at ∙ erase_middle t ahead rest once in
          let k1 = grant k o current t in
          rw e (
            Granted-wake k k1 _ o current t ahead rest w at e s
              (grant_all-Granted rest k1 o current ahead s.well_formed next))
      | inr e ↦
          let next = at ∙ sym (append_snoc ahead t rest) in
          rw e (
            Granted-skip k _ o current t ahead rest e
              (grant_all-Granted rest k o current (ahead ++ t ∷ []) w next))
    ]

raw_sched-Granted :
    (k k' : Kernel) (o current : ℕ) (ahead l : List ℕ)
    → Granted k o current ahead l k'
    → Granted k o current ahead l (raw_sched k')
raw_sched-Granted k k' o current ahead l g =
    let f = raw_sched_frame k' in
    rw f.2 (record {
      well_formed = WellFormed-frame refl refl refl refl g.well_formed;
      left = g.left;
      others = g.others;
      woke = g.woke;
      flags = g.flags;
      stored = g.stored;
      stays = g.stays;
    })

-- Setting flags wakes exactly those of the waiting tasks whose requests the new flags satisfy, each
-- with the new flags where it asked for them; the others go on waiting in their order, no other
-- list or task changes, and the flags lose what the woken tasks asked to clear, and nothing else.
pub event_set-Granted :
    (k : Kernel) (o flags_to_set set_option : ℕ)
    → WellFormed k
    → wrong_type k o event_obj ≡ false
    → wants_all set_option ≡ false
    → let current = bit_or (k.events o).flags flags_to_set in
      let k1 = set_event k o (record { flags = current }) in
      let (k', status) = event_set k o flags_to_set set_option in
      Granted k1 o current [] (k.block_list o) k' × (status ≡ success)
unfolding event_set
event_set-Granted k o flags_to_set set_option w type sets =
    let current = bit_or (k.events o).flags flags_to_set in
    let k1 = set_event k o (record { flags = current }) in
    rw (type, sets)
      (
        raw_sched-Granted k1 _ o current [] (k.block_list o) (
            grant_all-Granted (k.block_list o) k1 o current []
              (WellFormed-frame refl refl refl refl w) refl),
        refl,
      )
