-- ===== src/MsgCells/Take.antt =====
-- Messages that leave a sized queue, by a receive or a flush.
use raw_os.Shared.{
  blocks_from, length-blocks_from, blocks_from_distinct, blocks_from_below, ap₂, Bool-cases, inl,
  inr, ℕ, zero, suc, ◌+◌, ◌<◌, ◌≡◌, refl, sym, ◌∙◌, true, false, ◌==◌, List, [], ◌∷◌, ◌++◌, length,
  length-append, arith, update, count, count-cons, count-nil, count-append, ==_refl, Follows,
  Linked-tail, Linked-update, Follows-front, Follows-append,
}
use raw_os.MsgCells.{MsgCells, receive, flush, create, link_cells, set_cell}
use raw_os.MsgCells.Contents.{LastIs, Holds, Contains, messages, free_once, last_once}

-- The cell that is received is the first free one from then on.
taken :
    (q : MsgCells) (x : ℕ) (xs free : List ℕ) (q' : MsgCells)
    → Holds q (x ∷ xs) free
    → q'.next ≡ update q.next x q.free_msg
    → q'.free_msg ≡ x
    → q'.read ≡ q.next x
    → LastIs q'.write xs
    → q'.queue_current_msg ≡ length xs
    → q'.queue_msg_size ≡ q.queue_msg_size
    → q'.peak_numbers ≡ q.peak_numbers
    → Holds q' xs (x ∷ free)
taken q x xs free q' h links start first end current size top =
    let once : (count x xs ≡ 0) × (count x free ≡ 0) =
      free_once x xs free
        (λ a. omega (arith, h.distinct a, count-cons a x xs, count-cons a x free)) in
    record {
      readable =
          rw (links, first)
            (Linked-update q.next x q.free_msg (q.next x) xs once.0
              (Linked-tail q.next x xs h.readable.1));
      written = end;
      freed = (start, rw links (Follows-front q.next q.free_msg x free once.1 h.freed));
      counted = current;
      room = omega (arith, h.room, size);
      distinct = λ a. omega (arith, h.distinct a, count-cons a x xs, count-cons a x free);
      valid = omega (arith, h.valid, count-cons 0 x xs, count-cons 0 x free);
      peak = omega (arith, h.peak, h.counted, current, top);
    }

receive_cells :
    (q : MsgCells) (x : ℕ) (xs free : List ℕ)
    → Holds q (x ∷ xs) free
    → let (p, s, q') = receive q in
      (p ≡ q.msg_ptr x) × (s ≡ q.msg_size x) × Contains q' (messages q.msg_ptr q.msg_size xs)
unfolding receive
receive_cells q x [] free h = rw h.readable.0 (
  refl,
  refl,
  elim (Bool-cases (q.next x == 0)) [
    | inl end ↦ rw end (record {
      used = [];
      free = x ∷ free;
      holds = taken q x [] free _ h refl refl refl tt refl refl refl;
      same = refl;
    })
    | inr go ↦ rw go (record {
      used = [];
      free = x ∷ free;
      holds = taken q x [] free _ h refl refl refl tt (omega (arith, h.counted)) refl refl;
      same = refl;
    })
  ],
)
receive_cells q x (y ∷ ys) free h =
    let go : (q.next x == 0) ≡ false =
      ground (arith, h.readable.1.0, h.valid, count-cons 0 x (y ∷ ys), count-cons 0 y ys) in
    rw (h.readable.0, go)
      (
        refl,
        refl,
        record {
          used = y ∷ ys;
          free = x ∷ free;
          holds =
              taken q x (y ∷ ys) free _ h refl refl refl h.written (omega (arith, h.counted)) refl
                refl;
          same = refl;
        },
      )

-- A receive takes the oldest message and its size, and leaves the others in their order.
pub receive-Contains :
    (q : MsgCells) (msgs : List (ℕ × ℕ))
    → Contains q msgs
    → 0 < q.queue_current_msg
    → let (p, s, q') = receive q in
      (rest : List (ℕ × ℕ)) × (msgs ≡ (p, s) ∷ rest) × Contains q' rest
receive-Contains q msgs c lt = receive_split c.used c.holds c.same
  where
    receive_split :
        (used : List ℕ)
        → Holds q used c.free
        → messages q.msg_ptr q.msg_size used ≡ msgs
        → let (p, s, q') = receive q in
          (rest : List (ℕ × ℕ)) × (msgs ≡ (p, s) ∷ rest) × Contains q' rest
    receive_split [] h same = absurd (omega (arith, h.counted))
    receive_split (x ∷ xs) h same =
        let r = receive_cells q x xs c.free h in
        (
          messages q.msg_ptr q.msg_size xs,
          sym same ∙ ap₂ (λ p s. (p, s) ∷ messages q.msg_ptr q.msg_size xs) (sym r.0) (sym r.1),
          r.2,
        )

-- A flush empties the queue, and frees the cells of its messages.
pub flush-Contains : (q : MsgCells) (msgs : List (ℕ × ℕ)) → Contains q msgs → Contains (flush q) []
unfolding flush
flush-Contains q msgs c = flush_split c.used c.holds
  where
    flush_split : (used : List ℕ) → Holds q used c.free → Contains (flush q) []
    flush_split [] h =
        let none_left : (q.queue_current_msg == 0) ≡ true = ground (arith, h.counted) in
        rw none_left (record { used = []; free = c.free; holds = h; same = refl })
    flush_split (x ∷ xs) h =
        let some_left : (q.queue_current_msg == 0) ≡ false = ground (arith, h.counted) in
        let l = last_once x xs c.free h.distinct in
        rw (some_left, h.written)
          (record {
            used = [];
            free = x ∷ xs ++ c.free;
            holds = record {
              readable = tt;
              written = tt;
              freed = (
                h.readable.0,
                Follows-append q.next q.free_msg x xs c.free l.0 l.1 h.readable.1 h.freed,
              );
              counted = refl;
              room = omega (arith, h.room, length-append xs c.free);
              distinct =
                  λ a. omega (arith, h.distinct a, count-append a (x ∷ xs) c.free, count-nil a);
              valid = omega (arith, h.valid, count-append 0 (x ∷ xs) c.free, count-nil 0);
              peak = omega arith;
            };
            same = refl;
          })

-- Linking the cells writes to the cells only.
link_cells_frame :
    (n p : ℕ) (q : MsgCells)
    → link_cells n p q ≡ record q {
      next = (link_cells n p q).next;
      msg_ptr = (link_cells n p q).msg_ptr;
      msg_size = (link_cells n p q).msg_size;
    }
unfolding link_cells
link_cells_frame zero p q = refl
link_cells_frame (suc zero) p q = refl
link_cells_frame (suc (suc n)) p q = link_cells_frame (suc n) (p + 1) (set_cell q p (p + 1) 0 0)

link_cells_below : (n p a : ℕ) (q : MsgCells) → a < p → (link_cells n p q).next a ≡ q.next a
unfolding link_cells
link_cells_below zero p a q lt = refl
link_cells_below (suc zero) p a q lt = ground arith
link_cells_below (suc (suc n)) p a q lt =
    link_cells_below (suc n) (p + 1) a (set_cell q p (p + 1) 0 0) (omega arith) ∙ (ground arith)

link_cells-Follows :
    (n p : ℕ) (q : MsgCells) → Follows (link_cells (suc n) p q).next p (blocks_from 1 n (p + 1))
unfolding link_cells
link_cells-Follows zero p q = tt
link_cells-Follows (suc n) p q = (
  link_cells_below (suc n) (p + 1) p (set_cell q p (p + 1) 0 0) (omega arith) ∙ rw (==_refl p) refl,
  link_cells-Follows n (p + 1) (set_cell q p (p + 1) 0 0),
)

-- A queue is created empty, whatever stood in its object, with all its cells free.
pub create-Contains :
    (q : MsgCells) (msg_start number : ℕ)
    → 0 < msg_start
    → 0 < number
    → Contains (create q msg_start number) []
unfolding create
create-Contains q msg_start zero start some_cells = absurd (omega arith)
create-Contains q msg_start (suc n) start some_cells =
    let q1 = record q {
      queue_current_msg = 0;
      peak_numbers = 0;
      queue_msg_size = suc n;
      free_msg = msg_start;
    } in
    rw (link_cells_frame (suc n) msg_start q1) (record {
      used = [];
      free = blocks_from 1 (suc n) msg_start;
      holds = record {
        readable = tt;
        written = tt;
        freed = (refl, link_cells-Follows n msg_start q1);
        counted = refl;
        room = omega (arith, length-blocks_from 1 (suc n) msg_start);
        distinct = λ a.
            omega (arith, blocks_from_distinct 1 (suc n) msg_start a (omega arith), count-nil a);
        valid = omega (arith, blocks_from_below 1 (suc n) msg_start 0 start, count-nil 0);
        peak = omega arith;
      };
      same = refl;
    })
