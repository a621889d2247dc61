-- ===== src/MsgCells.antt =====
-- `RAW_QUEUE_SIZE` of include/raw_queue_size.h: messages with their sizes in linked cells, and what
-- raw_queue_size.c does with the cells once its guards have passed. The address of a cell counts
-- cells, so that the next one of an array is 1 further. `next`, `msg_ptr` and `msg_size` are the
-- fields of the cell at each address.
pub mod Contents
pub mod Post
pub mod Take
use raw_os.Shared.{ℕ, zero, suc, ◌+◌, ◌-◌, Bool, ltb, ◌==◌, if◌then◌else◌, update, not}

pub record MsgCells : Type 0 where
  pub free_msg : ℕ
  pub peak_numbers : ℕ
  pub write : ℕ
  pub read : ℕ
  pub queue_msg_size : ℕ
  pub queue_current_msg : ℕ
  pub next : ℕ → ℕ
  pub msg_ptr : ℕ → ℕ
  pub msg_size : ℕ → ℕ

-- The three assignments to the fields of a cell.
abbrev pub set_cell : MsgCells → (cell next msg_ptr msg_size : ℕ) → MsgCells
set_cell q cell next msg_ptr msg_size = record q {
  next = update q.next cell next;
  msg_ptr = update q.msg_ptr cell msg_ptr;
  msg_size = update q.msg_size cell msg_size;
}

-- `while (--number)` from the cell `p_msg1` on, and the last cell behind the loop
unfoldable pub link_cells : (number : ℕ) → (p_msg1 : ℕ) → MsgCells → MsgCells
link_cells zero p_msg1 q = q
link_cells (suc zero) p_msg1 q = set_cell q p_msg1 0 0 0
link_cells (suc (suc n)) p_msg1 q =
    link_cells (suc n) (p_msg1 + 1) (set_cell q p_msg1 (p_msg1 + 1) 0 0)

-- `raw_queue_size_create` leaves `read` and `write` as they are.
unfoldable pub create : MsgCells → (msg_start number : ℕ) → MsgCells
create q msg_start number = link_cells number msg_start (record q {
  queue_current_msg = 0;
  peak_numbers = 0;
  queue_msg_size = number;
  free_msg = msg_start;
})

-- `queue_current_msg++` and the peak
abbrev count_message : MsgCells → MsgCells
count_message q =
    let n = q.queue_current_msg + 1 in
    record q {
      queue_current_msg = n;
      peak_numbers = if ltb q.peak_numbers n then n else q.peak_numbers;
    }

-- The cell `msg_temp`, which is not free any more, becomes part of the queue.
abbrev insert : MsgCells → (msg_temp : ℕ) → (to_end : Bool) → MsgCells
insert q msg_temp to_end =
    if q.queue_current_msg == 0
    then record q { write = msg_temp; read = msg_temp }
    else if to_end
    then record q { next = update (update q.next q.write msg_temp) msg_temp 0; write = msg_temp }
    else record q { next = update q.next msg_temp q.read; read = msg_temp }

-- The part of `msg_size_post` behind the test for a waiting task.
unfoldable pub post : MsgCells → (p_void size : ℕ) → (to_end : Bool) → MsgCells
post q p_void size to_end =
    let msg_temp = q.free_msg in
    let q' = count_message (insert (record q { free_msg = q.next msg_temp }) msg_temp to_end) in
    record q' {
      msg_ptr = update q'.msg_ptr msg_temp p_void;
      msg_size = update q'.msg_size msg_temp size;
    }

-- The cell that `raw_queue_size_receive` takes, as its message, its size, and the queue after it.
pub receive : MsgCells → ℕ × ℕ × MsgCells
receive q =
    let msg_tmp = q.read in
    let read = q.next msg_tmp in
    let q1 =
      if not (read == 0)
      then record q { read = read; queue_current_msg = q.queue_current_msg - 1 }
      else record q { read = read; write = 0; queue_current_msg = 0 } in
    (
      q.msg_ptr msg_tmp,
      q.msg_size msg_tmp,
      record q1 { next = update q.next msg_tmp q.free_msg; free_msg = msg_tmp },
    )

pub flush : MsgCells → MsgCells
flush q =
    if not (q.queue_current_msg == 0)
    then record q {
      next = update q.next q.write q.free_msg;
      free_msg = q.read;
      queue_current_msg = 0;
      read = 0;
      write = 0;
    }
    else q
