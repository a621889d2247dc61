-- ===== src/BufferQueue/Delivery.antt =====
-- A message of bytes that no task waits for.
use raw_os.Shared.{
  ℕ, ◌+◌, ◌≤◌, ◌<◌, ◌≡◌, refl, false, List, [], ◌∷◌, ◌++◌, arith, ◌⊎◌, inl, inr, Bool-cases,
  ==_refl,
}
use raw_os.QueueBuffer.{is_queue_buffer_free}
use raw_os.QueueBuffer.Ring.{Message, Contains}
use raw_os.QueueBuffer.Post.{msg_to_end_buffer-Contains}
use raw_os.Kernel.{Kernel, queue_buffer_obj, wrong_type, success, queue_buffer_full, u32_mod}
use raw_os.BufferQueue.{queue_buffer_post, bytes_at}

-- With no task waiting, a post of a message whose length and bytes fit into the free part of the ring
-- succeeds and puts the message behind the others, with its bytes as they stand in memory; a post of a
-- larger message fails with `queue_buffer_full` and changes nothing. The length must be below the last
-- four of 32 bits, where the test for room wraps.
pub queue_buffer_post-Contains :
    (k : Kernel) (o p_void msg_size : ℕ) (msgs : List Message)
    → wrong_type k o queue_buffer_obj ≡ false
    → Contains (k.queue_buffers o) msgs
    → k.block_list o ≡ []
    → 4 + msg_size < u32_mod
    → let q = k.queue_buffers o in
      let (k', status) = queue_buffer_post k o p_void msg_size in
      ((4 + msg_size ≤ q.frbufsz)
        × (status ≡ success)
        × Contains (k'.queue_buffers o) (msgs ++ (msg_size, bytes_at k p_void) ∷ []))
      ⊎ ((q.frbufsz < 4 + msg_size) × (status ≡ queue_buffer_full) × (k' ≡ k))
unfolding queue_buffer_post
queue_buffer_post-Contains k o p_void msg_size msgs type c e small =
    let q = k.queue_buffers o in
    elim (Bool-cases (is_queue_buffer_free q msg_size)) [
      | inl room ↦
          let le : 4 + msg_size ≤ q.frbufsz = ground (arith, room, small) in
          rw (type, room, e, ==_refl o)
            (inl (
              le,
              refl,
              msg_to_end_buffer-Contains q msgs (bytes_at k p_void) msg_size c le
                  (omega (arith, small)),
            ))
      | inr full ↦ rw (type, full) (inr (ground (arith, full, small), refl, refl))
    ]
