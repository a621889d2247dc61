-- ===== src/Tests/SizedQueues.antt =====
-- Queues of messages with a size at concrete inputs.
use raw_os.Shared.{ℕ, ◌≡◌, ◌<◌, ◌++◌, refl, true, false, List, [], ◌∷◌, arith, if◌then◌else◌, ◌⊎◌}
use raw_os.MsgCells.{MsgCells, create, link_cells, post}
use raw_os.MsgCells.Contents.{Contains}
use raw_os.MsgCells.Post.{post-Contains}
use raw_os.MsgCells.Take.{create-Contains}
use raw_os.Kernel.{Kernel, queue_size_obj, success, msg_max, set_queue_size, returned}
use raw_os.QueueSize.{msg_size_post, raw_queue_size_receive}
use raw_os.QueueSize.Delivery.{msg_size_post-Contains, raw_queue_size_receive-Contains}
use raw_os.Tests.{waiting_kernel, base_kernel, empty_cells}

-- Two messages, 8 behind 9, in the cells of a queue of three.
abbrev cells : MsgCells
cells = post (post empty_cells 9 4 true) 8 2 true

empty_cells-Contains : Contains empty_cells []
empty_cells-Contains = create-Contains _ 50 3 (omega arith) (omega arith)

abbrev two_messages : List (ℕ × ℕ)
two_messages = (9, 4) ∷ (8, 2) ∷ []

cells-Contains : Contains cells two_messages
unfolding post create link_cells
cells-Contains =
    post-Contains (post empty_cells 9 4 true) ((9, 4) ∷ []) 8 2 true
      (post-Contains empty_cells [] 9 4 true empty_cells-Contains (omega arith)) (omega arith)

abbrev k0 : Kernel
k0 = waiting_kernel queue_size_obj

abbrev k1 : Kernel
k1 =
    set_queue_size (base_kernel queue_size_obj) 100
      (record ((base_kernel queue_size_obj).queue_sizes 100) { msg_cells = cells })

msg_size_post-Contains_example :
    let q = (k1.queue_sizes 100).msg_cells in
    let (k', status) = msg_size_post k1 100 77 6 true false in
    ((q.queue_current_msg < q.queue_msg_size)
      × (status ≡ success)
      × Contains
          (k'.queue_sizes 100).msg_cells
          (if true then two_messages ++ (77, 6) ∷ [] else (77, 6) ∷ two_messages))
    ⊎ ((q.queue_current_msg ≡ q.queue_msg_size)
        × (status ≡ msg_max)
        × (k'.queue_sizes ≡ k1.queue_sizes))
msg_size_post-Contains_example =
    msg_size_post-Contains k1 100 77 6 true false two_messages refl cells-Contains refl

raw_queue_size_receive-Contains_example :
    let (k', status) = raw_queue_size_receive k1 100 0 500 504 in
    (status ≡ returned success)
    × ((rest : List (ℕ × ℕ)) × (two_messages ≡ (k'.memory 500, k'.memory 504) ∷ rest)
        × Contains (k'.queue_sizes 100).msg_cells rest)
unfolding post create link_cells
raw_queue_size_receive-Contains_example =
    raw_queue_size_receive-Contains k1 100 0 500 504 two_messages refl refl refl refl refl refl
      cells-Contains (omega arith)
