-- ===== src/QueueBuffer/Take.antt =====
-- A receive takes the first message.
use raw_os.Shared.{
  ℕ, ◌+◌, ◌-◌, ◌%◌, ◌≤◌, ◌<◌, ◌≡◌, refl, subst, sym, ◌∙◌, ap, ltb, if◌then◌else◌, arith, List, [],
  ◌∷◌, Bool-cases, inl, inr, ◌⊎◌,
}
use raw_os.QueueBuffer.{
  QueueBuffer, round_buffer_size, load_word, copy_to, wrapped, buffer_to_msg, take_message,
}
use raw_os.QueueBuffer.Ring.{
  place, Message, taken, total, Frames, Contains, copy_in, copy_out, wrapped_cases, place_cases,
}

-- The length is in one piece at the head.
head_place :
    (h b k : ℕ)
    → (b % 4 ≡ 0) × (h % 4 ≡ 0)
    → h < b
    → k < 4
    → (if ltb (h + k) b then h + k else h + k - b) ≡ h + k
head_place h b k al hb lt = ground (arith, al)

-- Where the head goes.
head_next :
    (h b n h1 : ℕ)
    → (b % 4 ≡ 0) × (h % 4 ≡ 0)
    → h < b
    → taken n ≤ b
    → ((h1 ≡ h + 4) × (h + 4 < b)) ⊎ ((h1 ≡ 0) × (b ≤ h + 4))
    → let p = if ltb (h + taken n) b then h + taken n else h + taken n - b in
      (b - h1 < n → wrapped b (round_buffer_size (n - (b - h1))) ≡ p)
      × (n ≤ b - h1 → wrapped b (h1 + round_buffer_size n) ≡ p)
head_next h b n h1 al hb room (inl wc) = ground (arith, al, wc)
head_next h b n h1 al hb room (inr wc) = ground (arith, al, wc)

-- A byte of the message is in the first part or the wrapped one.
byte_place :
    (h b n j p h1 : ℕ)
    → (b % 4 ≡ 0) × (h % 4 ≡ 0)
    → h < b
    → taken n ≤ b
    → j < n
    → ((p ≡ h + (4 + j)) × (h + (4 + j) < b)) ⊎ ((p + b ≡ h + (4 + j)) × (b ≤ h + (4 + j)))
    → ((h1 ≡ h + 4) × (h + 4 < b)) ⊎ ((h1 ≡ 0) × (b ≤ h + 4))
    → (b - h1 < n → ((j < b - h1) × (p ≡ h1 + j)) ⊎ ((b - h1 ≤ j) × (p ≡ j - (b - h1))))
      × (n ≤ b - h1 → p ≡ h1 + j)
byte_place h b n j p h1 al hb room lt (inl pc) (inl wc) = ground (arith, al, pc, wc)
byte_place h b n j p h1 al hb room lt (inl pc) (inr wc) = ground (arith, al, pc, wc)
byte_place h b n j p h1 al hb room lt (inr pc) (inl wc) = ground (arith, al, pc, wc)
byte_place h b n j p h1 al hb room lt (inr pc) (inr wc) = ground (arith, al, pc, wc)

-- The place behind a place.
place_shift :
    (h b n i : ℕ)
    → (b % 4 ≡ 0) × (h % 4 ≡ 0)
    → h < b
    → n ≤ b
    → n + i ≤ b
    → let h' = if ltb (h + n) b then h + n else h + n - b in
      (if ltb (h' + i) b then h' + i else h' + i - b)
      ≡ (if ltb (h + (n + i)) b then h + (n + i) else h + (n + i) - b)
place_shift h b n i al hb le lt = ground arith

next_word :
    (h b n : ℕ)
    → (b % 4 ≡ 0) × (h % 4 ≡ 0)
    → h < b
    → taken n ≤ b
    → let p = if ltb (h + taken n) b then h + taken n else h + taken n - b in (p % 4 ≡ 0) × (p < b)
next_word h b n al hb le = ground (arith, al)

-- What a receive does.
pub record Received (q : QueueBuffer) (m : Message) (dest : ℕ → ℕ) (r : ℕ × (ℕ → ℕ) × QueueBuffer)
    : Type 0 where
  pub length : r.0 ≡ m.0
  pub bytes : (j : ℕ) → j < m.0 → r.1 j ≡ m.1 j
  pub same_size : r.2.bufsz ≡ q.bufsz
  pub same_buffer : r.2.buffer ≡ q.buffer
  pub more : r.2.frbufsz ≡ q.frbufsz + taken m.0
  pub same_tail : r.2.tail ≡ q.tail
  pub next_head : r.2.head ≡ place q (taken m.0)

module _ (q : QueueBuffer) (m : Message) (rest : List Message) (dest : ℕ → ℕ)
    (c : Contains q (m ∷ rest)) where
  abbrev n : ℕ
  n = m.0

  abbrev first : ℕ
  first = wrapped q.bufsz (q.head + 4)

  abbrev rem : ℕ
  rem = q.bufsz - first

  heads :
      (rem < n → wrapped q.bufsz (round_buffer_size (n - rem)) ≡ place q (taken n))
      × (n ≤ rem → wrapped q.bufsz (first + round_buffer_size n) ≡ place q (taken n))
  heads =
      head_next q.head q.bufsz n first c.words c.inside (omega (arith, c.counted))
        (wrapped_cases q.bufsz (q.head + 4))

  places :
      (j : ℕ)
      → j < n
      → (rem < n
          → ((j < rem) × (place q (4 + j) ≡ first + j)) ⊎ ((rem ≤ j) × (place q (4 + j) ≡ j - rem)))
        × (n ≤ rem → place q (4 + j) ≡ first + j)
  places j lt =
      byte_place q.head q.bufsz n j (place q (4 + j)) first c.words c.inside
        (omega (arith, c.counted)) lt (place_cases q.head q.bufsz (4 + j))
        (wrapped_cases q.bufsz (q.head + 4))

  stands : (j : ℕ) → j < n → q.buffer (place q (4 + j)) ≡ m.1 j
  stands j lt = ap (λ i. q.buffer (place q i)) (omega arith) ∙ c.frames.1 j lt

  take_message_lem : Received q m dest (take_message q dest n)
  unfolding take_message
  take_message_lem = elim (Bool-cases (ltb rem n)) [
    | inl wraps ↦ rw wraps (record {
      length = refl;
      bytes = λ j lt. elim ((places j lt).0 (ground (arith, wraps))) [
        | inl w ↦
            copy_out (copy_to dest 0 (λ i. q.buffer (first + i)) rem) rem q.buffer (n - rem) j
              (inl w.0)
            ∙ copy_in dest 0 (λ i. q.buffer (first + i)) rem j (omega arith) (omega (arith, w.0))
            ∙ ap q.buffer (omega (arith, w.1))
            ∙ stands j lt
        | inr w ↦
            copy_in (copy_to dest 0 (λ i. q.buffer (first + i)) rem) rem q.buffer (n - rem) j w.0
              (omega (arith, w.0, lt))
            ∙ ap q.buffer (omega (arith, w.1))
            ∙ stands j lt
      ];
      same_size = refl;
      same_buffer = refl;
      more = refl;
      same_tail = refl;
      next_head = heads.0 (ground (arith, wraps));
    })
    | inr fits ↦ rw fits (record {
      length = refl;
      bytes = λ j lt.
          copy_in dest 0 (λ i. q.buffer (first + i)) n j (omega arith) (omega (arith, lt))
          ∙ ap q.buffer (omega (arith, (places j lt).1 (ground (arith, fits))))
          ∙ stands j lt;
      same_size = refl;
      same_buffer = refl;
      more = refl;
      same_tail = refl;
      next_head = heads.1 (ground (arith, fits));
    })
  ]

  read_length : load_word q.buffer q.head ≡ n
  read_length = omega (
    arith,
    c.frames.0,
    at 0 0 q.head (omega arith) (omega arith) (omega arith),
    at 1 (0 + 1) (q.head + 1) (omega arith) (omega arith) (omega arith),
    at 2 (0 + 2) (q.head + 2) (omega arith) (omega arith) (omega arith),
    at 3 (0 + 3) (q.head + 3) (omega arith) (omega arith) (omega arith),
  )
    where
      at : (k i t : ℕ) → k < 4 → i ≡ k → t ≡ q.head + k → q.buffer (place q i) ≡ q.buffer t
      at k i t lt ei et =
          ap (λ x. q.buffer (place q x)) ei
          ∙ ap q.buffer (head_place q.head q.bufsz k c.words c.inside lt ∙ sym et)

  received : Received q m dest (buffer_to_msg q dest)
  unfolding buffer_to_msg
  received =
      subst (λ v. Received q m dest (take_message q dest v)) (sym read_length) take_message_lem

Frames-shift :
    (byte byte' : ℕ → ℕ) (a i : ℕ) (ms : List Message)
    → ((k : ℕ) → k < i + total ms → byte' k ≡ byte (a + k))
    → Frames byte (a + i) ms
    → Frames byte' i ms
Frames-shift byte byte' a i [] same f = tt
Frames-shift byte byte' a i (m ∷ ms) same f = (
  omega (
    arith,
    f.0,
    at i (a + i) (omega arith) (omega arith),
    at (i + 1) (a + i + 1) (omega arith) (omega arith),
    at (i + 2) (a + i + 2) (omega arith) (omega arith),
    at (i + 3) (a + i + 3) (omega arith) (omega arith),
  ),
  (λ j lt. at (i + 4 + j) (a + i + 4 + j) (omega (arith, lt)) (omega arith) ∙ f.1 j lt),
  Frames-shift byte byte' a (i + taken m.0) ms (λ k lt. same k (omega (arith, lt)))
      (subst (λ k. Frames byte k ms) (omega arith) f.2),
)
  where
    at : (x y : ℕ) → x < i + (taken m.0 + total ms) → y ≡ a + x → byte' x ≡ byte y
    at x y lt e = same x lt ∙ ap byte (sym e)

-- A receive gives the length and the bytes of the oldest message, and leaves the others in their order.
pub buffer_to_msg-Contains :
    (q : QueueBuffer) (msgsz : ℕ) (bytes : ℕ → ℕ) (rest : List Message) (dest : ℕ → ℕ)
    → Contains q ((msgsz, bytes) ∷ rest)
    → let (size, out, q') = buffer_to_msg q dest in
      (size ≡ msgsz) × ((j : ℕ) → j < msgsz → out j ≡ bytes j) × Contains q' rest
buffer_to_msg-Contains q msgsz bytes rest dest c =
    let r = received q (msgsz, bytes) rest dest c in
    let fits : taken msgsz + total rest ≤ q.bufsz = omega (arith, c.counted) in
    let shift = λ (i : ℕ) (le : taken msgsz + i ≤ q.bufsz).
      place_shift q.head q.bufsz (taken msgsz) i c.words c.inside (omega (arith, le)) le in
    let h = next_word q.head q.bufsz msgsz c.words c.inside (omega (arith, fits)) in
    (
      r.length,
      r.bytes,
      record {
        words = rw (r.same_size, r.next_head) (c.words.0, h.0);
        inside = rw (r.same_size, r.next_head) h.1;
        counted = omega (arith, r.more, r.same_size, c.counted);
        ends = rw (r.same_size, r.next_head, r.same_tail) (c.ends ∙ sym (shift (total rest) fits));
        frames =
            Frames-shift (λ i. q.buffer (place q i)) _ (taken msgsz) 0 rest
              (λ k lt.
                rw (r.same_buffer, r.same_size, r.next_head)
                  (ap q.buffer (shift k (omega (arith, lt, fits)))))
              (subst (λ k. Frames (λ i. q.buffer (place q i)) k rest) (omega arith) c.frames.2);
      },
    )
