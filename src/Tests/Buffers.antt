-- ===== src/Tests/Buffers.antt =====
-- Rings of bytes at concrete inputs.
use raw_os.Shared.{◌≤◌, ◌⊎◌, ◌+◌, ℕ, ◌≡◌, ◌<◌, refl, List, [], ◌∷◌, arith}
use raw_os.QueueBuffer.{QueueBuffer, msg_to_end_buffer, buffer_to_msg}
use raw_os.Kernel.{Kernel, queue_buffer_obj, success, queue_buffer_full, set_queue_buffer}
use raw_os.BufferQueue.{queue_buffer_post, bytes_at}
use raw_os.BufferQueue.Delivery.{queue_buffer_post-Contains}
use raw_os.Tests.{base_kernel}
use raw_os.QueueBuffer.Ring.{Message, Contains}
use raw_os.QueueBuffer.Post.{msg_to_end_buffer-Contains}
use raw_os.QueueBuffer.Take.{buffer_to_msg-Contains}

-- An empty ring of 16 bytes whose head and tail stand at 12.
abbrev ring : QueueBuffer
ring = record { bufsz = 16; maxmsz = 12; frbufsz = 16; head = 12; tail = 12; buffer = λ i. 0 }

abbrev nothing : List Message
nothing = []

ring-Contains : Contains ring nothing
ring-Contains = record {
  words = (refl, refl);
  inside = omega arith;
  counted = refl;
  ends = refl;
  frames = tt;
}

-- Five bytes that count up from 65.
abbrev letters : ℕ → ℕ
letters i = 65 + i

abbrev one : QueueBuffer
one = msg_to_end_buffer ring letters 5

one-Contains : Contains one ((5, letters) ∷ [])
one-Contains =
    msg_to_end_buffer-Contains ring nothing letters 5 ring-Contains (omega arith) (omega arith)

buffer_to_msg-Contains_example :
    let (size, out, q') = buffer_to_msg one (λ i. 0) in
    (size ≡ 5) × ((j : ℕ) → j < 5 → out j ≡ letters j) × Contains q' nothing
buffer_to_msg-Contains_example = buffer_to_msg-Contains one 5 letters nothing (λ i. 0) one-Contains

abbrev k0 : Kernel
k0 = set_queue_buffer (base_kernel queue_buffer_obj) 100 one

queue_buffer_post-Contains_example :
    let (k', status) = queue_buffer_post k0 100 500 3 in
    ((4 + 3 ≤ one.frbufsz)
      × (status ≡ success)
      × Contains (k'.queue_buffers 100) ((5, letters) ∷ (3, bytes_at k0 500) ∷ []))
    ⊎ ((one.frbufsz < 4 + 3) × (status ≡ queue_buffer_full) × (k' ≡ k0))
queue_buffer_post-Contains_example =
    queue_buffer_post-Contains k0 100 500 3 ((5, letters) ∷ []) refl one-Contains refl (omega arith)
