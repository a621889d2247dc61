-- ===== src/MsgRing.antt =====
-- `RAW_MSG_Q` of include/raw_queue.h: a ring of messages in storage that the caller gives, and what
-- raw_queue.c does with it once its guards have passed. A pointer into the storage is an index:
-- `queue_start` is 0 and `queue_end` is the size.
pub mod Contents
use raw_os.Shared.{ℕ, ◌+◌, ◌-◌, ltb, ◌==◌, if◌then◌else◌, List, get_or, set, length}

pub record MsgQ : Type 0 where
  pub storage : List ℕ
  pub write : ℕ
  pub read : ℕ
  pub size : ℕ
  pub current_numbers : ℕ
  pub peak_numbers : ℕ

-- `if (p == queue_end) p = queue_start;` after `p++`
abbrev pub next : ℕ → ℕ → ℕ
next size i = if (i + 1) == size then 0 else i + 1

-- `if (p == queue_start) p = queue_end;` before `p--`
abbrev pub before : ℕ → ℕ → ℕ
before size i = (if i == 0 then size else i) - 1

pub create : List ℕ → ℕ → MsgQ
create msg_start number = record {
  storage = msg_start;
  write = 0;
  read = 0;
  size = number;
  current_numbers = 0;
  peak_numbers = 0;
}

-- `current_numbers++` and the peak, in `msg_post`
count_message : MsgQ → MsgQ
count_message q =
    let n = q.current_numbers + 1 in
    record q {
      current_numbers = n;
      peak_numbers = if ltb q.peak_numbers n then n else q.peak_numbers;
    }

-- `SEND_TO_END`
pub post_end : MsgQ → ℕ → MsgQ
unfolding count_message
post_end q msg = record (count_message q) {
  storage = set q.storage q.write msg;
  write = next q.size q.write;
}

-- `SEND_TO_FRONT`
pub post_front : MsgQ → ℕ → MsgQ
unfolding count_message
post_front q msg = record (count_message q) {
  storage = set q.storage (before q.size q.read) msg;
  read = before q.size q.read;
}

-- The message that `raw_queue_receive` takes, and the ring after it. A read out of range gives 0.
pub receive : MsgQ → ℕ × MsgQ
receive q = (
  get_or q.storage q.read 0,
  record q { read = next q.size q.read; current_numbers = q.current_numbers - 1 },
)

pub flush : MsgQ → MsgQ
flush q = record q { write = 0; read = 0; current_numbers = 0 }
