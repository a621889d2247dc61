-- ===== src/RunQueue/Valid.antt =====
-- The invariant of the run queue under the operations of raw_pend.c: the bit map shows the lists that are not empty, and `highest_priority` is the least of them.
use raw_os.Shared.{
  ℕ, ◌+◌, ◌-◌, ◌≤◌, ◌<◌, ◌≡◌, refl, sym, ◌∙◌, ap, true, false, not, ◌==◌, if◌then◌else◌, Option,
  none, some, List, [], ◌∷◌, ◌++◌, is_empty, head?, erase, arith, inl, inr, ◌⊎◌, Bool-cases, dec_lt,
}
use raw_os.Bits.{bit_clear, bit_search_first_one}
use raw_os.Bits.Scan.{scan}
use raw_os.Bits.Search.{bit_search-eq-scan, scan_lem}
use raw_os.RunQueue.{
  RunQueue, prio_max, add_ready_list_head, add_ready_list_end, add_ready_list, next_highest,
  remove_ready_list, get_ready_task,
}

pub record IsValid (rq : RunQueue) : Type 0 where
  pub bits : (p : ℕ) → p < prio_max → rq.task_bit_map p ≡ not (is_empty (rq.task_ready_list p))
  pub least :
      (p : ℕ) → p < prio_max → is_empty (rq.task_ready_list p) ≡ false → rq.highest_priority ≤ p
  pub attained :
      rq.highest_priority < prio_max → is_empty (rq.task_ready_list rq.highest_priority) ≡ false
  pub range : rq.highest_priority ≤ prio_max

snoc-not-empty : (t : ℕ) (xs : List ℕ) → is_empty (xs ++ t ∷ []) ≡ false
snoc-not-empty t [] = refl
snoc-not-empty t (x ∷ xs) = refl

pub add_ready_list_head-IsValid :
    (rq : RunQueue) (t p : ℕ) → p < prio_max → IsValid rq → IsValid (add_ready_list_head rq t p)
unfolding add_ready_list_head
add_ready_list_head-IsValid rq t p h v = record {
  bits = λ q b. ground (arith, v.bits q);
  least = λ q b ne. ground (arith, v.least q);
  attained = λ b. ground (arith, v.attained);
  range = ground (arith, v.range);
}

pub add_ready_list_end-IsValid :
    (rq : RunQueue) (t p : ℕ) → p < prio_max → IsValid rq → IsValid (add_ready_list_end rq t p)
unfolding add_ready_list_end
add_ready_list_end-IsValid rq t p h v =
    let some_task = snoc-not-empty t (rq.task_ready_list p) in
    record {
      bits = λ q b. ground (arith, v.bits q);
      least = λ q b ne. ground (arith, v.least q);
      attained = λ b. ground (arith, v.attained);
      range = ground (arith, v.range);
    }

pub add_ready_list-IsValid :
    (rq : RunQueue) (a t p : ℕ) → p < prio_max → IsValid rq → IsValid (add_ready_list rq a t p)
unfolding add_ready_list
add_ready_list-IsValid rq a t p h v = elim (Bool-cases (p == a)) [
  | inl e ↦ rw e (add_ready_list_end-IsValid rq t p h v)
  | inr e ↦ rw e (add_ready_list_head-IsValid rq t p h v)
]

-- A queue that is valid but for one list, of priority `p`, from which the last task has left.
record IsValidBut (p : ℕ) (rq : RunQueue) : Type 0 where
  bits : (q : ℕ) → q < prio_max → rq.task_bit_map q ≡ not (is_empty (rq.task_ready_list q))
  least : (q : ℕ) → q < prio_max → is_empty (rq.task_ready_list q) ≡ false → p ≤ q
  range : p < prio_max

next_highest-IsValid :
    (rq : RunQueue) (p i : ℕ)
    → IsValidBut p rq
    → i < prio_max
    → is_empty (rq.task_ready_list i) ≡ false
    → let out = next_highest rq p (bit_search_first_one rq.task_bit_map p (prio_max - p)) in
      IsValid out.0 × (out.1 ≡ 0)
unfolding next_highest
next_highest-IsValid rq p i v b ne =
    rw (bit_search-eq-scan rq.task_bit_map p (prio_max - p))
      (cases (scan_lem rq.task_bit_map p (prio_max - p)))
  where
    low : p ≤ i
    low = v.least i b ne

    Goal : Option ℕ → Type 0
    Goal o = IsValid (next_highest rq p o).0 × ((next_highest rq p o).1 ≡ 0)

    hit : rq.task_bit_map i ≡ true
    hit = ground (arith, v.bits i)

    found :
        (j : ℕ)
        → j < prio_max - p
        → rq.task_bit_map (p + j) ≡ true
        → ((k : ℕ) → k < j → rq.task_bit_map (p + k) ≡ false)
        → IsValid (record rq { highest_priority = p + j })
    found j inside bit before = record {
      bits = v.bits;
      least = λ q lt nq.
          let pq = v.least q lt nq in
          elim (dec_lt q (p + j)) [
            | no good ↦ omega arith
            | yes bad ↦
                let clear = before (q - p) (omega arith) in
                let same : p + (q - p) ≡ q = omega arith in
                let clear_q = ap rq.task_bit_map (sym same) ∙ clear in ground (arith, v.bits q)
          ];
      attained = λ lt. ground (arith, v.bits (p + j));
      range = omega (arith, v.range);
    }

    cases :
        ((j : ℕ) × (scan rq.task_bit_map p (prio_max - p) ≡ some j)
            × (j < prio_max - p)
            × (rq.task_bit_map (p + j) ≡ true)
            × ((k : ℕ) → k < j → rq.task_bit_map (p + k) ≡ false))
          ⊎ ((scan rq.task_bit_map p (prio_max - p) ≡ none)
              × ((k : ℕ) → k < prio_max - p → rq.task_bit_map (p + k) ≡ false))
        → Goal (scan rq.task_bit_map p (prio_max - p))
    cases (inl (j, e, inside, bit, before)) = rw e (found j inside bit before, refl)
    cases (inr (e, clear)) =
        let dead = clear (i - p) (omega (arith, low)) in
        let same : p + (i - p) ≡ i = omega (arith, low) in
        let dead_i : rq.task_bit_map i ≡ false = ap rq.task_bit_map (sym same) ∙ dead in
        absurd (ground (arith, hit))

-- A task that is in the list of its priority alone leaves the run queue, while a task of some
-- priority `i` stays ready: the queue is valid again, and no error is raised.
pub remove_ready_list-IsValid :
    (rq : RunQueue) (t p i : ℕ)
    → p < prio_max
    → ((q : ℕ) → (q == p) ≡ false → erase t (rq.task_ready_list q) ≡ rq.task_ready_list q)
    → is_empty (rq.task_ready_list p) ≡ false
    → i < prio_max
    → is_empty (erase t (rq.task_ready_list i)) ≡ false
    → IsValid rq
    → IsValid (remove_ready_list rq t p).0 × ((remove_ready_list rq t p).1 ≡ 0)
unfolding remove_ready_list
remove_ready_list-IsValid rq t p i b alone here bi rest v =
    elim (Bool-cases (is_empty (erase t (rq.task_ready_list p)))) [
      | inr some_left ↦ rw some_left (
        record {
          bits = λ q lt. elim (Bool-cases (q == p)) [
            | inl e ↦ ground (arith, v.bits q)
            | inr ne ↦ rw (alone q ne) (v.bits q lt)
          ];
          least = λ q lt nq. elim (Bool-cases (q == p)) [
            | inl e ↦ ground (arith, v.least p)
            | inr ne ↦ v.least q lt (rw (alone q ne) at nq)
          ];
          attained = λ lt. elim (Bool-cases (rq.highest_priority == p)) [
            | inl e ↦ ground arith
            | inr ne ↦ rw (alone _ ne) (v.attained lt)
          ];
          range = v.range;
        },
        refl,
      )
      | inl gone ↦ rw gone (last gone)
    ]
  where
    bits' :
        is_empty (erase t (rq.task_ready_list p)) ≡ true
        → (q : ℕ) → q < prio_max
        → bit_clear rq.task_bit_map p q ≡ not (is_empty (erase t (rq.task_ready_list q)))
    bits' gone q lt = elim (Bool-cases (q == p)) [
      | inl e ↦ ground arith
      | inr ne ↦ rw (alone q ne) (ground (arith, v.bits q))
    ]

    others :
        is_empty (erase t (rq.task_ready_list p)) ≡ true
        → (q : ℕ) → is_empty (erase t (rq.task_ready_list q)) ≡ false
        → (is_empty (rq.task_ready_list q) ≡ false) × ((q == p) ≡ false)
    others gone q nq = elim (Bool-cases (q == p)) [
      | inl e ↦ ground arith
      | inr ne ↦ (rw (alone q ne) at nq, ne)
    ]

    rq2 : RunQueue
    rq2 = record rq {
      task_ready_list = λ q. erase t (rq.task_ready_list q);
      task_bit_map = bit_clear rq.task_bit_map p;
    }

    last :
        is_empty (erase t (rq.task_ready_list p)) ≡ true
        → let out =
            if p == rq.highest_priority
            then next_highest rq2 p (bit_search_first_one rq2.task_bit_map p (prio_max - p))
            else (rq2, 0) in
          IsValid out.0 × (out.1 ≡ 0)
    last gone = elim (Bool-cases (p == rq.highest_priority)) [
      | inl e ↦ rw e (
          next_highest-IsValid rq2 p i
            (record {
              bits = bits' gone;
              least = λ q lt nq. ground (arith, v.least q lt (others gone q nq).0);
              range = b;
            })
            bi rest)
      | inr ne ↦ rw ne (
        record {
          bits = bits' gone;
          least = λ q lt nq. v.least q lt (others gone q nq).0;
          attained = λ lt.
              let e : (rq.highest_priority == p) ≡ false = ground arith in
              rw (alone _ e) (v.attained lt);
          range = v.range;
        },
        refl,
      )
    ]

pub get_ready_task_lem :
    (rq : RunQueue) (t : ℕ) (rest : List ℕ)
    → rq.task_ready_list rq.highest_priority ≡ t ∷ rest
    → get_ready_task rq ≡ some t
unfolding get_ready_task
get_ready_task_lem rq t rest e = ap head? e
