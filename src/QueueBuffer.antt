-- ===== src/QueueBuffer.antt =====
-- `RAW_QUEUE_BUFFER` of include/raw_queue_buffer.h: messages of bytes in a ring of bytes, each behind a
-- word with its length, and what raw_queue_buffer.c does with the ring once its guards have passed. A
-- byte is at its index in the buffer; a message is the byte at each place from its start on. A word
-- takes four bytes, the lowest first.
pub mod Ring
pub mod Post
pub mod Take
use raw_os.Shared.{
  ℕ, ◌+◌, ◌-◌, ◌*◌, ◌/◌, ◌%◌, Bool, true, false, ltb, leb, ◌==◌, if◌then◌else◌, ◌&&◌, update,
}

pub record QueueBuffer : Type 0 where
  pub bufsz : ℕ
  pub maxmsz : ℕ
  pub frbufsz : ℕ
  pub head : ℕ
  pub tail : ℕ
  pub buffer : ℕ → ℕ

-- `ROUND_BUFFER_SIZE`; `HEADERSZ` is 4.
abbrev pub round_buffer_size : ℕ → ℕ
round_buffer_size sz = (sz + 3) / 4 * 4

-- `is_queue_buffer_free`, whose sum is in 32 bits, and `is_buffer_empty`
abbrev pub is_queue_buffer_free : QueueBuffer → ℕ → Bool
is_queue_buffer_free q msg_size = leb ((4 + msg_size) % 4294967296) q.frbufsz

abbrev pub is_buffer_empty : QueueBuffer → Bool
is_buffer_empty q = q.frbufsz == q.bufsz

-- `*(HEADER*)&buffer[i] = v`, `*(HEADER*)&buffer[i]`
abbrev pub store_word : (ℕ → ℕ) → (i v : ℕ) → ℕ → ℕ
store_word b i v =
    update
      (update (update (update b i (v % 256)) (i + 1) (v / 256 % 256)) (i + 2) (v / 65536 % 256))
      (i + 3) (v / 16777216 % 256)

abbrev pub load_word : (ℕ → ℕ) → ℕ → ℕ
load_word b i = b i + 256 * b (i + 1) + 65536 * b (i + 2) + 16777216 * b (i + 3)

-- `raw_memcpy` of `n` bytes to `b` from the index `i` on
abbrev pub copy_to : (b : ℕ → ℕ) → (i : ℕ) → (src : ℕ → ℕ) → (n : ℕ) → ℕ → ℕ
copy_to b i src n j = if leb i j && ltb j (i + n) then src (j - i) else b j

-- `if (i >= bufsz) i = 0;`
abbrev pub wrapped : (bufsz i : ℕ) → ℕ
wrapped bufsz i = if leb bufsz i then 0 else i

unfoldable pub msg_to_end_buffer : QueueBuffer → (msg : ℕ → ℕ) → (msgsz : ℕ) → QueueBuffer
msg_to_end_buffer q msg msgsz =
    let b = store_word q.buffer q.tail msgsz in
    let tail = wrapped q.bufsz (q.tail + 4) in
    let remsz = q.bufsz - tail in
    let frbufsz = q.frbufsz - (4 + round_buffer_size msgsz) in
    if ltb remsz msgsz
    then record q {
      frbufsz = frbufsz;
      buffer = copy_to (copy_to b tail msg remsz) 0 (λ i. msg (remsz + i)) (msgsz - remsz);
      tail = wrapped q.bufsz (round_buffer_size (msgsz - remsz));
    }
    else record q {
      frbufsz = frbufsz;
      buffer = copy_to b tail msg msgsz;
      tail = wrapped q.bufsz (tail + round_buffer_size msgsz);
    }

-- The bytes of a message of `msgsz` bytes at the head leave the ring. `msg` is what stands at the
-- address that they go to, before and after.
unfoldable pub take_message : QueueBuffer → (msg : ℕ → ℕ) → (msgsz : ℕ) → ℕ × (ℕ → ℕ) × QueueBuffer
take_message q msg msgsz =
    let head = wrapped q.bufsz (q.head + 4) in
    let remsz = q.bufsz - head in
    let frbufsz = q.frbufsz + (4 + round_buffer_size msgsz) in
    if ltb remsz msgsz
    then (
      msgsz,
      copy_to (copy_to msg 0 (λ i. q.buffer (head + i)) remsz) remsz q.buffer (msgsz - remsz),
      record q { frbufsz = frbufsz; head = wrapped q.bufsz (round_buffer_size (msgsz - remsz)) },
    )
    else (
      msgsz,
      copy_to msg 0 (λ i. q.buffer (head + i)) msgsz,
      record q { frbufsz = frbufsz; head = wrapped q.bufsz (head + round_buffer_size msgsz) },
    )

unfoldable pub buffer_to_msg : QueueBuffer → (msg : ℕ → ℕ) → ℕ × (ℕ → ℕ) × QueueBuffer
unfolding take_message
buffer_to_msg q msg = take_message q msg (load_word q.buffer q.head)

pub create : (buffer : ℕ → ℕ) → (bufsz max_msg_size : ℕ) → QueueBuffer
create buffer bufsz max_msg_size = record {
  bufsz = bufsz;
  maxmsz = max_msg_size;
  frbufsz = bufsz;
  head = 0;
  tail = 0;
  buffer = buffer;
}

pub flush : QueueBuffer → QueueBuffer
flush q = record q { frbufsz = q.bufsz; head = 0; tail = 0 }
