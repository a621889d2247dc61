-- ===== src/QueueBuffer/Ring.antt =====
-- The ring of bytes as the list of its messages.
use raw_os.Shared.{
  ℕ, ◌+◌, ◌-◌, ◌%◌, ◌≤◌, ◌<◌, ◌≡◌, subst, sym, ◌∙◌, ap, ltb, if◌then◌else◌, arith, List, [], ◌∷◌,
  Bool-cases, inl, inr, ◌⊎◌,
}
use raw_os.QueueBuffer.{
  QueueBuffer, round_buffer_size, store_word, load_word, copy_to, wrapped, msg_to_end_buffer,
}

-- The index of the byte `i` places behind the head.
abbrev pub place : QueueBuffer → ℕ → ℕ
place q i = if ltb (q.head + i) q.bufsz then q.head + i else q.head + i - q.bufsz

-- A message: its length and its bytes.
abbrev pub Message : Type 0
Message = ℕ × (ℕ → ℕ)

-- The bytes that a message and its length take.
abbrev pub taken : ℕ → ℕ
taken n = 4 + round_buffer_size n

abbrev pub total : List Message → ℕ
total [] = 0
total (m ∷ ms) = taken m.0 + total ms

-- From the place `i` on stand these messages.
abbrev pub Frames : (byte : ℕ → ℕ) → ℕ → List Message → Type 0
Frames byte i [] = Unit
Frames byte i (m ∷ ms) =
    (load_word byte i ≡ m.0)
    × ((j : ℕ) → j < m.0 → byte (i + 4 + j) ≡ m.1 j)
    × Frames byte (i + taken m.0) ms

pub record Contains (q : QueueBuffer) (msgs : List Message) : Type 0 where
  pub words : (q.bufsz % 4 ≡ 0) × (q.head % 4 ≡ 0)
  pub inside : q.head < q.bufsz
  pub counted : q.frbufsz + total msgs ≡ q.bufsz
  pub ends : q.tail ≡ place q (total msgs)
  pub frames : Frames (λ i. q.buffer (place q i)) 0 msgs

pub load-store : (b : ℕ → ℕ) (i v : ℕ) → v < 4294967296 → load_word (store_word b i v) i ≡ v
load-store b i v fits = ground arith

pub copy_out :
    (b : ℕ → ℕ) (i : ℕ) (src : ℕ → ℕ) (n j : ℕ) → (j < i) ⊎ (i + n ≤ j) → copy_to b i src n j ≡ b j
copy_out b i src n j out = ground (arith, out)

pub copy_in :
    (b : ℕ → ℕ) (i : ℕ) (src : ℕ → ℕ) (n j : ℕ)
    → i ≤ j
    → j < i + n
    → copy_to b i src n j ≡ src (j - i)
copy_in b i src n j le lt = ground (arith, le, lt)

store_out : (b : ℕ → ℕ) (i v j : ℕ) → (j < i) ⊎ (i + 4 ≤ j) → store_word b i v j ≡ b j
store_out b i v j out = ground (arith, out)

-- A place is behind the head, or wrapped to the start of the buffer.
pub place_cases :
    (h b i : ℕ)
    → let p = if ltb (h + i) b then h + i else h + i - b in
      ((p ≡ h + i) × (h + i < b)) ⊎ ((p + b ≡ h + i) × (b ≤ h + i))
place_cases h b i = ground arith

pub wrapped_cases : (b i : ℕ) → ((wrapped b i ≡ i) × (i < b)) ⊎ ((wrapped b i ≡ 0) × (b ≤ i))
wrapped_cases b i = ground arith

-- A byte of the messages before is apart from the new length and the new bytes.
old_place :
    (h b T n i p t t1 : ℕ)
    → (b % 4 ≡ 0) × (h % 4 ≡ 0) × (T % 4 ≡ 0)
    → h < b
    → 4 + n + T ≤ b
    → i < T
    → ((p ≡ h + i) × (h + i < b)) ⊎ ((p + b ≡ h + i) × (b ≤ h + i))
    → ((t ≡ h + T) × (h + T < b)) ⊎ ((t + b ≡ h + T) × (b ≤ h + T))
    → ((t1 ≡ t + 4) × (t + 4 < b)) ⊎ ((t1 ≡ 0) × (b ≤ t + 4))
    → ((p < t) ⊎ (t + 4 ≤ p))
      × (b - t1 < n → (n - (b - t1) ≤ p) × ((p < t1) ⊎ (b ≤ p)))
      × (n ≤ b - t1 → (p < t1) ⊎ (t1 + n ≤ p))
old_place h b T n i p t t1 al hb room lt (inl pc) (inl tc) (inl wc) = ground (arith, al, pc, tc, wc)
old_place h b T n i p t t1 al hb room lt (inl pc) (inl tc) (inr wc) = ground (arith, al, pc, tc, wc)
old_place h b T n i p t t1 al hb room lt (inl pc) (inr tc) (inl wc) = ground (arith, al, pc, tc, wc)
old_place h b T n i p t t1 al hb room lt (inl pc) (inr tc) (inr wc) = ground (arith, al, pc, tc, wc)
old_place h b T n i p t t1 al hb room lt (inr pc) (inl tc) (inl wc) = ground (arith, al, pc, tc, wc)
old_place h b T n i p t t1 al hb room lt (inr pc) (inl tc) (inr wc) = ground (arith, al, pc, tc, wc)
old_place h b T n i p t t1 al hb room lt (inr pc) (inr tc) (inl wc) = ground (arith, al, pc, tc, wc)
old_place h b T n i p t t1 al hb room lt (inr pc) (inr tc) (inr wc) = ground (arith, al, pc, tc, wc)

pub old_byte :
    (q : QueueBuffer) (msgs : List Message) (msg : ℕ → ℕ) (n i : ℕ)
    → Contains q msgs
    → total msgs % 4 ≡ 0
    → 4 + n ≤ q.frbufsz
    → i < total msgs
    → (msg_to_end_buffer q msg n).buffer (place q i) ≡ q.buffer (place q i)
unfolding msg_to_end_buffer
old_byte q msgs msg n i c al room lt = elim (Bool-cases (ltb (q.bufsz - t1) n)) [
  | inl wraps ↦
      let w = o.1 (ground (arith, wraps)) in
      rw wraps (
        copy_out (copy_to sw t1 msg (q.bufsz - t1)) 0 (λ j. msg (q.bufsz - t1 + j))
          (n - (q.bufsz - t1)) p (inr (omega (arith, w.0)))
        ∙ copy_out sw t1 msg (q.bufsz - t1) p (ground (arith, w.1))
        ∙ store_out q.buffer q.tail n p o.0)
  | inr fits ↦
      rw fits
        (copy_out sw t1 msg n p (o.2 (ground (arith, fits))) ∙ store_out q.buffer q.tail n p o.0)
]
  where
    p : ℕ
    p = place q i

    t1 : ℕ
    t1 = wrapped q.bufsz (q.tail + 4)

    sw : ℕ → ℕ
    sw = store_word q.buffer q.tail n

    o :
        ((p < q.tail) ⊎ (q.tail + 4 ≤ p))
        × (q.bufsz - t1 < n → (n - (q.bufsz - t1) ≤ p) × ((p < t1) ⊎ (q.bufsz ≤ p)))
        × (n ≤ q.bufsz - t1 → (p < t1) ⊎ (t1 + n ≤ p))
    o =
        old_place q.head q.bufsz (total msgs) n i p q.tail t1 (c.words.0, c.words.1, al) c.inside
          (omega (arith, room, c.counted)) lt (place_cases q.head q.bufsz i)
          (subst
            (λ t.
              ((t ≡ q.head + total msgs) × (q.head + total msgs < q.bufsz))
              ⊎ ((t + q.bufsz ≡ q.head + total msgs) × (q.bufsz ≤ q.head + total msgs)))
            (sym c.ends) (place_cases q.head q.bufsz (total msgs)))
          (wrapped_cases q.bufsz (q.tail + 4))

-- A byte of the new message is at its place, in the first part or the wrapped one; the length is in
-- front of it.
new_place :
    (h b T n j p t t1 : ℕ)
    → (b % 4 ≡ 0) × (h % 4 ≡ 0) × (T % 4 ≡ 0)
    → h < b
    → 4 + n + T ≤ b
    → j < n
    → ((p ≡ h + (T + 4 + j)) × (h + (T + 4 + j) < b))
      ⊎ ((p + b ≡ h + (T + 4 + j)) × (b ≤ h + (T + 4 + j)))
    → ((t ≡ h + T) × (h + T < b)) ⊎ ((t + b ≡ h + T) × (b ≤ h + T))
    → ((t1 ≡ t + 4) × (t + 4 < b)) ⊎ ((t1 ≡ 0) × (b ≤ t + 4))
    → (b - t1 < n
        → ((t1 ≤ p) × (p < b) × (n - (b - t1) ≤ p) × (p ≡ t1 + j))
          ⊎ ((p < n - (b - t1)) × (b - t1 + p ≡ j)))
      × (n ≤ b - t1 → p ≡ t1 + j)
new_place h b T n j p t t1 al hb room lt (inl pc) (inl tc) (inl wc) = ground (arith, al, pc, tc, wc)
new_place h b T n j p t t1 al hb room lt (inl pc) (inl tc) (inr wc) = ground (arith, al, pc, tc, wc)
new_place h b T n j p t t1 al hb room lt (inl pc) (inr tc) (inl wc) = ground (arith, al, pc, tc, wc)
new_place h b T n j p t t1 al hb room lt (inl pc) (inr tc) (inr wc) = ground (arith, al, pc, tc, wc)
new_place h b T n j p t t1 al hb room lt (inr pc) (inl tc) (inl wc) = ground (arith, al, pc, tc, wc)
new_place h b T n j p t t1 al hb room lt (inr pc) (inl tc) (inr wc) = ground (arith, al, pc, tc, wc)
new_place h b T n j p t t1 al hb room lt (inr pc) (inr tc) (inl wc) = ground (arith, al, pc, tc, wc)
new_place h b T n j p t t1 al hb room lt (inr pc) (inr tc) (inr wc) = ground (arith, al, pc, tc, wc)

-- The length is in one piece, apart from the bytes.
header_place :
    (h b T n k p t t1 : ℕ)
    → (b % 4 ≡ 0) × (h % 4 ≡ 0) × (T % 4 ≡ 0)
    → h < b
    → 4 + n + T ≤ b
    → k < 4
    → ((p ≡ h + (T + k)) × (h + (T + k) < b)) ⊎ ((p + b ≡ h + (T + k)) × (b ≤ h + (T + k)))
    → ((t ≡ h + T) × (h + T < b)) ⊎ ((t + b ≡ h + T) × (b ≤ h + T))
    → ((t1 ≡ t + 4) × (t + 4 < b)) ⊎ ((t1 ≡ 0) × (b ≤ t + 4))
    → (p ≡ t + k)
      × (b - t1 < n → (n - (b - t1) ≤ p) × ((p < t1) ⊎ (b ≤ p)))
      × (n ≤ b - t1 → (p < t1) ⊎ (t1 + n ≤ p))
header_place h b T n k p t t1 al hb room lt (inl pc) (inl tc) (inl wc) =
    ground (arith, al, pc, tc, wc)
header_place h b T n k p t t1 al hb room lt (inl pc) (inl tc) (inr wc) =
    ground (arith, al, pc, tc, wc)
header_place h b T n k p t t1 al hb room lt (inl pc) (inr tc) (inl wc) =
    ground (arith, al, pc, tc, wc)
header_place h b T n k p t t1 al hb room lt (inl pc) (inr tc) (inr wc) =
    ground (arith, al, pc, tc, wc)
header_place h b T n k p t t1 al hb room lt (inr pc) (inl tc) (inl wc) =
    ground (arith, al, pc, tc, wc)
header_place h b T n k p t t1 al hb room lt (inr pc) (inl tc) (inr wc) =
    ground (arith, al, pc, tc, wc)
header_place h b T n k p t t1 al hb room lt (inr pc) (inr tc) (inl wc) =
    ground (arith, al, pc, tc, wc)
header_place h b T n k p t t1 al hb room lt (inr pc) (inr tc) (inr wc) =
    ground (arith, al, pc, tc, wc)

module _ (q : QueueBuffer) (msgs : List Message) (msg : ℕ → ℕ) (n : ℕ) (c : Contains q msgs)
    (al : total msgs % 4 ≡ 0) (room : 4 + n ≤ q.frbufsz) where
  abbrev first_free : ℕ
  first_free = wrapped q.bufsz (q.tail + 4)

  abbrev with_length : ℕ → ℕ
  with_length = store_word q.buffer q.tail n

  pub tail_cases :
      ((q.tail ≡ q.head + total msgs) × (q.head + total msgs < q.bufsz))
      ⊎ ((q.tail + q.bufsz ≡ q.head + total msgs) × (q.bufsz ≤ q.head + total msgs))
  tail_cases =
      subst
        (λ t.
          ((t ≡ q.head + total msgs) × (q.head + total msgs < q.bufsz))
          ⊎ ((t + q.bufsz ≡ q.head + total msgs) × (q.bufsz ≤ q.head + total msgs)))
        (sym c.ends) (place_cases q.head q.bufsz (total msgs))

  pub header_byte :
      (k : ℕ)
      → k < 4
      → (msg_to_end_buffer q msg n).buffer (place q (total msgs + k)) ≡ with_length (q.tail + k)
  unfolding msg_to_end_buffer
  header_byte k lt = elim (Bool-cases (ltb (q.bufsz - first_free) n)) [
    | inl wraps ↦
        let w = o.1 (ground (arith, wraps)) in
        rw wraps (
          copy_out (copy_to with_length first_free msg (q.bufsz - first_free)) 0
            (λ j. msg (q.bufsz - first_free + j)) (n - (q.bufsz - first_free)) p
            (inr (omega (arith, w.0)))
          ∙ copy_out with_length first_free msg (q.bufsz - first_free) p (ground (arith, w.1))
          ∙ ap with_length o.0)
    | inr fits ↦
        rw fits (
          copy_out with_length first_free msg n p (o.2 (ground (arith, fits))) ∙ ap with_length o.0)
  ]
    where
      p : ℕ
      p = place q (total msgs + k)

      o :
          (p ≡ q.tail + k)
          × (q.bufsz - first_free < n
              → (n - (q.bufsz - first_free) ≤ p) × ((p < first_free) ⊎ (q.bufsz ≤ p)))
          × (n ≤ q.bufsz - first_free → (p < first_free) ⊎ (first_free + n ≤ p))
      o =
          header_place q.head q.bufsz (total msgs) n k p q.tail first_free
            (c.words.0, c.words.1, al) c.inside (omega (arith, room, c.counted)) lt
            (place_cases q.head q.bufsz (total msgs + k)) tail_cases
            (wrapped_cases q.bufsz (q.tail + 4))

  pub new_byte :
      (j : ℕ) → j < n → (msg_to_end_buffer q msg n).buffer (place q (total msgs + 4 + j)) ≡ msg j
  unfolding msg_to_end_buffer
  new_byte j lt = elim (Bool-cases (ltb (q.bufsz - first_free) n)) [
    | inl wraps ↦ rw wraps (elim (o.0 (ground (arith, wraps))) [
      | inl w ↦
          copy_out (copy_to with_length first_free msg rem) 0 (λ i. msg (rem + i)) (n - rem) p
            (inr (omega (arith, w.2)))
          ∙ copy_in with_length first_free msg rem p w.0 (omega (arith, w.1))
          ∙ ap msg (omega (arith, w.3))
      | inr w ↦
          copy_in (copy_to with_length first_free msg rem) 0 (λ i. msg (rem + i)) (n - rem) p
            (omega arith) (omega (arith, w.0))
          ∙ ap msg (omega (arith, w.1))
    ])
    | inr fits ↦
        let e : p ≡ first_free + j = o.1 (ground (arith, fits)) in
        rw fits (
          copy_in with_length first_free msg n p (omega (arith, e)) (omega (arith, e))
          ∙ ap msg (omega (arith, e)))
  ]
    where
      p : ℕ
      p = place q (total msgs + 4 + j)

      rem : ℕ
      rem = q.bufsz - first_free

      o :
          (rem < n
            → ((first_free ≤ p) × (p < q.bufsz) × (n - rem ≤ p) × (p ≡ first_free + j))
              ⊎ ((p < n - rem) × (rem + p ≡ j)))
          × (n ≤ rem → p ≡ first_free + j)
      o =
          new_place q.head q.bufsz (total msgs) n j p q.tail first_free (c.words.0, c.words.1, al)
            c.inside (omega (arith, room, c.counted)) lt
            (place_cases q.head q.bufsz (total msgs + 4 + j)) tail_cases
            (wrapped_cases q.bufsz (q.tail + 4))
