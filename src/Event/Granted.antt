-- ===== src/Event/Granted.antt =====
-- What the loop of `event_set` leaves, and its round with a task that is not satisfied.
use raw_os.Shared.{
  ℕ, ◌≡◌, refl, sym, ap, ◌∙◌, Bool, true, false, not, ◌&&◌, ◌==◌, if◌then◌else◌, arith, inl, inr,
  Bool-cases, List, [], ◌∷◌, ◌++◌, count, count-cons, count-nil, append_snoc, ==_iff,
}
use raw_os.Kernel.{Kernel, Task, b_ok}
use raw_os.Kernel.Place.{WellFormed}
use raw_os.Kernel.Pend.Wake.{woken_task}
use raw_os.Event.{satisfied, wants_clear, without}

-- The requests that tasks have noted: the flags and the option of each.
pub record Requests : Type 0 where
  pub flags_of : ℕ → ℕ
  pub option_of : ℕ → ℕ

abbrev pub requests : (ℕ → Task) → Requests
requests tasks = record {
  flags_of = λ u. (tasks u).suspend_flags;
  option_of = λ u. (tasks u).suspend_option;
}

-- Whether the flags satisfy the request of a task.
abbrev pub meets : Requests → ℕ → ℕ → Bool
meets r current u = satisfied current (r.flags_of u) (r.option_of u)

-- The tasks whose requests are not satisfied, in their order.
abbrev pub unmet : Requests → ℕ → List ℕ → List ℕ
unmet r current [] = []
unmet r current (t ∷ rest) =
    if meets r current t then unmet r current rest else t ∷ unmet r current rest

-- The flags after the satisfied requests that ask for it have cleared theirs.
abbrev pub consumed : Requests → ℕ → List ℕ → ℕ → ℕ
consumed r current [] flags = flags
consumed r current (t ∷ rest) flags = consumed r current rest (
    if meets r current t
    then if wants_clear (r.option_of t) then without flags (r.flags_of t) else flags
    else flags)

-- What the loop over the list `l` leaves: the satisfied tasks of `l` are awake and each finds the
-- flags where it asked for them, the others still wait, in order, behind the tasks `ahead`.
pub record Granted (k : Kernel) (o current : ℕ) (ahead l : List ℕ) (k' : Kernel) : Type 0 where
  pub well_formed : WellFormed k'
  pub left : k'.block_list o ≡ ahead ++ unmet (requests k.tasks) current l
  pub others : (q : ℕ) → (q == o) ≡ false → k'.block_list q ≡ k.block_list q
  pub woke :
      (u : ℕ)
      → k'.tasks u ≡ (
          if not (count u l == 0) && meets (requests k.tasks) current u
          then woken_task b_ok (k.tasks u)
          else k.tasks u)
  pub flags : (k'.events o).flags ≡ consumed (requests k.tasks) current l (k.events o).flags
  pub stored :
      (u : ℕ)
      → (count u l == 0) ≡ false
      → meets (requests k.tasks) current u ≡ true
      → k'.memory (k.tasks u).suspend_info ≡ current
  pub stays : (a : ℕ) → k.memory a ≡ current → k'.memory a ≡ current

pub Granted-nil :
    (k : Kernel) (o current : ℕ) (ahead : List ℕ)
    → WellFormed k
    → k.block_list o ≡ ahead ++ []
    → Granted k o current ahead [] k
Granted-nil k o current ahead w e = record {
  well_formed = w;
  left = e;
  others = λ q ne. refl;
  woke = λ u. ground (arith, count-nil u);
  flags = refl;
  stored = λ u listed. absurd (ground (arith, count-nil u));
  stays = λ a h. h;
}

-- A test that the first of a list fails finds the same entries in the rest.
listed-skip :
    (P : ℕ → Bool) (t u : ℕ) (rest : List ℕ)
    → P t ≡ false
    → (not (count u (t ∷ rest) == 0) && P u) ≡ (not (count u rest == 0) && P u)
listed-skip P t u rest fails = elim (Bool-cases (t == u)) [
  | inl e ↦
      let fails_too : P u ≡ false = ap P (sym ((==_iff t u).0 e)) ∙ fails in
      rw fails_too (ground arith)
  | inr e ↦ ground (arith, count-cons u t rest)
]

-- A round in which the first task of the list is not satisfied.
pub Granted-skip :
    (k k' : Kernel) (o current t : ℕ) (ahead rest : List ℕ)
    → meets (requests k.tasks) current t ≡ false
    → Granted k o current (ahead ++ t ∷ []) rest k'
    → Granted k o current ahead (t ∷ rest) k'
Granted-skip k k' o current t ahead rest e g = record {
  well_formed = g.well_formed;
  left = g.left ∙ rw e (append_snoc ahead t (unmet (requests k.tasks) current rest));
  others = g.others;
  woke = λ u.
      g.woke u
      ∙ ap (λ b. if b then woken_task b_ok (k.tasks u) else k.tasks u)
          (sym (listed-skip (meets (requests k.tasks) current) t u rest e));
  flags = rw e g.flags;
  stored = λ u listed met.
      let same = listed-skip (meets (requests k.tasks) current) t u rest e in
      g.stored u (ground (arith, same, listed, met)) met;
  stays = g.stays;
}
