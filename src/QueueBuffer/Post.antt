-- ===== src/QueueBuffer/Post.antt =====
-- A post puts the message behind the others.
use raw_os.Shared.{
  ℕ, ◌+◌, ◌-◌, ◌%◌, ◌≤◌, ◌<◌, ◌≡◌, refl, subst, sym, ◌∙◌, ap, ltb, if◌then◌else◌, arith, List, [],
  ◌∷◌, ◌++◌, Bool-cases, inl, inr, ◌⊎◌,
}
use raw_os.QueueBuffer.{QueueBuffer, round_buffer_size, store_word, wrapped, msg_to_end_buffer}
use raw_os.QueueBuffer.Ring.{
  place, Message, taken, total, Frames, Contains, load-store, old_byte, header_byte, new_byte,
  tail_cases, wrapped_cases,
}

pub total_words : (ms : List Message) → total ms % 4 ≡ 0
total_words [] = refl
total_words (m ∷ ms) = omega (arith, total_words ms)

total-snoc : (ms : List Message) (m : Message) → total (ms ++ m ∷ []) ≡ total ms + taken m.0
total-snoc [] m = omega arith
total-snoc (x ∷ ms) m = omega (arith, total-snoc ms m)

-- The frames are read from their own bytes.
pub Frames-congr :
    (byte byte' : ℕ → ℕ) (i : ℕ) (ms : List Message)
    → ((k : ℕ) → i ≤ k → k < i + total ms → byte' k ≡ byte k)
    → Frames byte i ms
    → Frames byte' i ms
Frames-congr byte byte' i [] same f = tt
Frames-congr byte byte' i (m ∷ ms) same f =
    let s = λ (k : ℕ) (lt : k < 4). same (i + k) (omega arith) (omega (arith, lt)) in
    (
      omega (
        arith,
        f.0,
        same i (omega arith) (omega arith),
        s 1 (omega arith),
        s 2 (omega arith),
        s 3 (omega arith),
      ),
      (λ j lt. same (i + 4 + j) (omega arith) (omega (arith, lt)) ∙ f.1 j lt),
      Frames-congr byte byte' (i + taken m.0) ms
          (λ k le lt. same k (omega (arith, le)) (omega (arith, lt))) f.2,
    )

Frames-snoc :
    (byte : ℕ → ℕ) (i : ℕ) (ms : List Message) (m : Message)
    → Frames byte i ms
    → Frames byte (i + total ms) (m ∷ [])
    → Frames byte i (ms ++ m ∷ [])
Frames-snoc byte i [] m f g = subst (λ k. Frames byte k (m ∷ [])) (omega arith) g
Frames-snoc byte i (x ∷ ms) m f g = (
  f.0,
  f.1,
  Frames-snoc byte (i + taken x.0) ms m f.2 (subst (λ k. Frames byte k (m ∷ [])) (omega arith) g),
)

-- Where the next message goes.
tail_place :
    (h b T n t t1 : ℕ)
    → (b % 4 ≡ 0) × (h % 4 ≡ 0) × (T % 4 ≡ 0)
    → h < b
    → 4 + n + T ≤ b
    → ((t ≡ h + T) × (h + T < b)) ⊎ ((t + b ≡ h + T) × (b ≤ h + T))
    → ((t1 ≡ t + 4) × (t + 4 < b)) ⊎ ((t1 ≡ 0) × (b ≤ t + 4))
    → let p = if ltb (h + (T + taken n)) b then h + (T + taken n) else h + (T + taken n) - b in
      (b - t1 < n → wrapped b (round_buffer_size (n - (b - t1))) ≡ p)
      × (n ≤ b - t1 → wrapped b (t1 + round_buffer_size n) ≡ p)
tail_place h b T n t t1 al hb room (inl tc) (inl wc) = ground (arith, al, tc, wc)
tail_place h b T n t t1 al hb room (inl tc) (inr wc) = ground (arith, al, tc, wc)
tail_place h b T n t t1 al hb room (inr tc) (inl wc) = ground (arith, al, tc, wc)
tail_place h b T n t t1 al hb room (inr tc) (inr wc) = ground (arith, al, tc, wc)

-- What a post does to the ring beside its bytes.
record Moved (q : QueueBuffer) (msgs : List Message) (n : ℕ) (q' : QueueBuffer) : Type 0 where
  same_size : q'.bufsz ≡ q.bufsz
  same_head : q'.head ≡ q.head
  less : q'.frbufsz ≡ q.frbufsz - taken n
  ends : q'.tail ≡ place q (total msgs + taken n)

moved :
    (q : QueueBuffer) (msgs : List Message) (msg : ℕ → ℕ) (n : ℕ)
    → Contains q msgs
    → 4 + n ≤ q.frbufsz
    → Moved q msgs n (msg_to_end_buffer q msg n)
unfolding msg_to_end_buffer
moved q msgs msg n c room = elim (Bool-cases (ltb (q.bufsz - wrapped q.bufsz (q.tail + 4)) n)) [
  | inl e ↦
      rw e
        (record { same_size = refl; same_head = refl; less = refl; ends = t.0 (ground (arith, e)) })
  | inr e ↦
      rw e
        (record { same_size = refl; same_head = refl; less = refl; ends = t.1 (ground (arith, e)) })
]
  where
    t :
        let t1 = wrapped q.bufsz (q.tail + 4) in
        (q.bufsz - t1 < n
          → wrapped q.bufsz (round_buffer_size (n - (q.bufsz - t1)))
            ≡ place q (total msgs + taken n))
        × (n ≤ q.bufsz - t1
            → wrapped q.bufsz (t1 + round_buffer_size n) ≡ place q (total msgs + taken n))
    t =
        tail_place q.head q.bufsz (total msgs) n q.tail (wrapped q.bufsz (q.tail + 4))
          (c.words.0, c.words.1, total_words msgs) c.inside (omega (arith, room, c.counted))
          (tail_cases q msgs msg n c (total_words msgs) room) (wrapped_cases q.bufsz (q.tail + 4))

-- A post of a message that passes the test for room puts it behind the others, whole, though the test
-- counts the bytes of the message and the ring those of whole words.
pub msg_to_end_buffer-Contains :
    (q : QueueBuffer) (msgs : List Message) (msg : ℕ → ℕ) (msgsz : ℕ)
    → Contains q msgs
    → 4 + msgsz ≤ q.frbufsz
    → msgsz < 4294967296
    → Contains (msg_to_end_buffer q msg msgsz) (msgs ++ (msgsz, msg) ∷ [])
msg_to_end_buffer-Contains q msgs msg n c room fits = record {
  words = rw (m.same_size, m.same_head) c.words;
  inside = rw (m.same_size, m.same_head) c.inside;
  counted = omega (
    arith,
    m.less,
    m.same_size,
    total-snoc msgs (n, msg),
    c.counted,
    c.words,
    total_words msgs,
    room,
  );
  ends = m.ends ∙ rw (m.same_size, m.same_head, total-snoc msgs (n, msg)) refl;
  frames =
      Frames-congr byte (λ i. q'.buffer (place q' i)) 0 (msgs ++ (n, msg) ∷ [])
        (λ k le lt. rw (m.same_size, m.same_head) refl)
        (Frames-snoc byte 0 msgs (n, msg)
          (Frames-congr (λ i. q.buffer (place q i)) byte 0 msgs
            (λ k le lt. old_byte q msgs msg n k c al room (omega (arith, lt))) c.frames)
          (
            omega (
              arith,
              header 0 (0 + total msgs) (q.tail) (omega arith) (omega arith) (omega arith),
              header 1 (0 + total msgs + 1) (q.tail + 1) (omega arith) (omega arith) (omega arith),
              header 2 (0 + total msgs + 2) (q.tail + 2) (omega arith) (omega arith) (omega arith),
              header 3 (0 + total msgs + 3) (q.tail + 3) (omega arith) (omega arith) (omega arith),
              load-store q.buffer q.tail n fits,
            ),
            (λ j lt. ap byte (omega arith) ∙ new_byte q msgs msg n c al room j lt),
            tt,
          ));
}
  where
    q' : QueueBuffer
    q' = msg_to_end_buffer q msg n

    m : Moved q msgs n q'
    m = moved q msgs msg n c room

    al : total msgs % 4 ≡ 0
    al = total_words msgs

    byte : ℕ → ℕ
    byte i = q'.buffer (place q i)

    header :
        (k i t : ℕ)
        → k < 4
        → i ≡ total msgs + k
        → t ≡ q.tail + k
        → byte i ≡ store_word q.buffer q.tail n t
    header k i t lt ei et =
        ap byte ei
        ∙ header_byte q msgs msg n c al room k lt
        ∙ ap (store_word q.buffer q.tail n) (sym et)
