-- ===== src/Priority/Held.antt =====
-- The priority that the held mutexes ask for, as the least of a list of bounds.
use raw_os.Shared.{
  ℕ, ◌≤◌, ◌≡◌, refl, ap, ltb, if◌then◌else◌, arith, ◌∙◌, sym, ap₂, List, [], ◌∷◌, ◌++◌,
}
use raw_os.Kernel.{
  Kernel, MutexPolicy, ceiling_policy, inherit_policy, none_policy, success,
  exceed_ceiling_priority,
}
use raw_os.Priority.{
  held_priority, bound_of, first_priority, scan_held, larger, chg_pri_mutex, ceiling_of,
}

-- What one mutex asks for: its ceiling, or the priority of the first task that waits for it.
abbrev pub asks : Kernel → ℕ → MutexPolicy → List ℕ
asks k m ceiling_policy = (k.mutexes m).ceiling_prio ∷ []
asks k m inherit_policy = elim (k.block_list m) [ [] ↦ [] | t ∷ rest ↦ (k.tasks t).priority ∷ [] ]
asks k m none_policy = []

abbrev pub all_asks : Kernel → List ℕ → List ℕ
all_asks k [] = []
all_asks k (m ∷ chain) = asks k m (k.mutexes m).policy ++ all_asks k chain

-- The least of a number and a list.
abbrev pub least : ℕ → List ℕ → ℕ
least n [] = n
least n (x ∷ xs) = least (if ltb x n then x else n) xs

least-append : (n : ℕ) (xs ys : List ℕ) → least n (xs ++ ys) ≡ least (least n xs) ys
least-append n [] ys = refl
least-append n (x ∷ xs) ys = least-append (if ltb x n then x else n) xs ys

-- A round of the loop, with the value of `pri` that an earlier round left.
round_lem :
    (k : Kernel) (m pri newpri : ℕ) (policy : MutexPolicy)
    → newpri ≤ pri
    → let pri' = bound_of k m policy pri in
      let next = if ltb pri' newpri then pri' else newpri in
      (next ≡ least newpri (asks k m policy)) × (next ≤ pri')
unfolding bound_of first_priority
round_lem k m pri newpri ceiling_policy le = (refl, ground arith)
round_lem k m pri newpri none_policy le = (ground arith, ground arith)
round_lem k m pri newpri inherit_policy le = by_list (k.block_list m)
  where
    by_list :
        (l : List ℕ)
        → let pri' = first_priority k.tasks l pri in
          let next = if ltb pri' newpri then pri' else newpri in
          let one : List ℕ = elim l [ [] ↦ [] | t ∷ rest ↦ (k.tasks t).priority ∷ [] ] in
          (next ≡ least newpri one) × (next ≤ pri')
    by_list [] = (ground arith, ground arith)
    by_list (t ∷ rest) = (refl, ground arith)

held_priority_from :
    (k : Kernel) (chain : List ℕ) (pri newpri : ℕ)
    → newpri ≤ pri
    → held_priority k chain pri newpri ≡ least newpri (all_asks k chain)
unfolding held_priority
held_priority_from k [] pri newpri le = refl
held_priority_from k (m ∷ chain) pri newpri le =
    let r = round_lem k m pri newpri (k.mutexes m).policy le in
    let ih = held_priority_from k chain (bound_of k m (k.mutexes m).policy pri) _ r.1 in
    ih
    ∙ ap (λ n. least n (all_asks k chain)) r.0
    ∙ sym (least-append newpri (asks k m (k.mutexes m).policy) (all_asks k chain))

-- The loop of `release_mutex` finds the most urgent of the base priority, the ceilings of the held
-- mutexes with a ceiling and the first waiting tasks of those that inherit, also where it keeps the
-- value of an earlier round for a mutex that asks for nothing.
pub held_priority-eq-least :
    (k : Kernel) (chain : List ℕ) (bpriority : ℕ)
    → held_priority k chain bpriority bpriority ≡ least bpriority (all_asks k chain)
held_priority-eq-least k chain bpriority =
    held_priority_from k chain bpriority bpriority (omega arith)

-- The ceilings of the held mutexes.
abbrev ceiling : ℕ → MutexPolicy → List ℕ
ceiling c ceiling_policy = c ∷ []
ceiling c inherit_policy = []
ceiling c none_policy = []

abbrev pub ceilings : Kernel → List ℕ → List ℕ
ceilings k [] = []
ceilings k (m ∷ chain) = ceiling (k.mutexes m).ceiling_prio (k.mutexes m).policy ++ ceilings k chain

abbrev pub greatest : ℕ → List ℕ → ℕ
greatest n [] = n
greatest n (x ∷ xs) = greatest (if ltb n x then x else n) xs

greatest-append : (n : ℕ) (xs ys : List ℕ) → greatest n (xs ++ ys) ≡ greatest (greatest n xs) ys
greatest-append n [] ys = refl
greatest-append n (x ∷ xs) ys = greatest-append (if ltb n x then x else n) xs ys

low_lem :
    (c low : ℕ) (policy : MutexPolicy)
    → let next : ℕ = elim policy [
      | ceiling_policy ↦ larger low c
      | inherit_policy ↦ low
      | none_policy ↦ low
    ] in
      next ≡ greatest low (ceiling c policy)
low_lem c low ceiling_policy = refl
low_lem c low inherit_policy = refl
low_lem c low none_policy = refl

scan_held_lem :
    (k : Kernel) (chain : List ℕ) (pri hi low : ℕ)
    → hi ≤ pri
    → scan_held k chain pri hi low ≡ (least hi (all_asks k chain), greatest low (ceilings k chain))
unfolding scan_held
scan_held_lem k [] pri hi low le = refl
scan_held_lem k (m ∷ chain) pri hi low le =
    let x = k.mutexes m in
    let r = round_lem k m pri hi x.policy le in
    let ih = scan_held_lem k chain (bound_of k m x.policy pri) _ _ r.1 in
    ih
    ∙ ap₂ (λ n c. (least n (all_asks k chain), greatest c (ceilings k chain))) r.0
        (low_lem x.ceiling_prio low x.policy)
    ∙ sym (
        ap₂ (λ n c. (n, c)) (least-append hi (asks k m x.policy) (all_asks k chain))
          (greatest-append low (ceiling x.ceiling_prio x.policy) (ceilings k chain)))

-- A task may be given a priority unless a mutex that it holds, or waits for, has a ceiling of less
-- urgency: then the least urgent ceiling and an error come back. Otherwise the result is the most urgent of
-- the priority and what the held mutexes ask for.
pub chg_pri_mutex_lem :
    (k : Kernel) (t priority : ℕ)
    → let chain = (k.tasks t).mtxlist in
      let low = greatest (ceiling_of k (k.tasks t).block_obj) (ceilings k chain) in
      chg_pri_mutex k t priority ≡ (
        if ltb priority low
        then (low, exceed_ceiling_priority)
        else (least priority (all_asks k chain), success))
unfolding chg_pri_mutex
chg_pri_mutex_lem k t priority =
    let r =
      scan_held_lem k (k.tasks t).mtxlist priority priority (ceiling_of k (k.tasks t).block_obj)
        (omega arith) in
    ap (λ (s : ℕ × ℕ). if ltb priority s.1 then (s.1, exceed_ceiling_priority) else (s.0, success))
      r
