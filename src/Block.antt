-- ===== src/Block.antt =====
-- raw_block.c: pools of blocks of one size. The free blocks are linked through their first words. A
-- pointer is a number, and memory a word at each address; `sizeof(void *)` is 4.

pub mod Create
pub mod Free
use raw_os.Shared.{
  ℕ, zero, suc, ◌+◌, ◌-◌, ◌%◌, Bool, ltb, leb, ◌==◌, if◌then◌else◌, not, Option, none, some, update,
}
use raw_os.Kernel.{
  ObjectType, block_obj_type, type_none, type_code, RawOsError, success, block_size_error,
  null_object, null_pointer, invalid_align, error_object_type, no_memory, u32_mod,
}

abbrev pub Memory : Type 0
Memory = ℕ → ℕ

pub record MemPool : Type 0 where
  pub object_type : ObjectType
  pub raw_block_pool_available : ℕ
  pub block_size : ℕ
  pub raw_block_pool_available_list : ℕ

-- The result of the loop that links the blocks: the memory, the last block and the count.
pub record Linking : Type 0 where
  pub memory : Memory
  pub block_ptr : ℕ
  pub blocks : ℕ

-- The loop; `next_block_ptr` is always `block_ptr + block_size`. With `none` it still runs.
pub link_blocks : ℕ → (block_size end_of_pool : ℕ) → Linking → Option Linking
link_blocks zero block_size end_of_pool l = none
link_blocks (suc fuel) block_size end_of_pool l =
    let next = l.block_ptr + block_size in
    let rest = link_blocks fuel block_size end_of_pool (record {
      memory = update l.memory l.block_ptr next;
      block_ptr = next;
      blocks = l.blocks + 1;
    }) in
    if leb next end_of_pool
    then if next == end_of_pool then some (record l { blocks = l.blocks + 1 }) else rest
    else some l

unfoldable pub finish_pool : MemPool → ℕ → ℕ → Linking → MemPool × Memory × RawOsError
finish_pool pool block_size pool_start l = (
  record {
    object_type = block_obj_type;
    raw_block_pool_available = l.blocks;
    block_size = block_size;
    raw_block_pool_available_list = pool_start;
  },
  update l.memory l.block_ptr 0,
  success,
)

unfoldable pub run_create :
    MemPool → ℕ → ℕ → Option Linking → Option (MemPool × Memory × RawOsError)
unfolding finish_pool
run_create pool block_size pool_start none = none
run_create pool block_size pool_start (some l) = some (finish_pool pool block_size pool_start l)

-- `fuel` bounds the rounds of the loop; `none` says that they were not enough.
pub raw_block_pool_create :
    (fuel : ℕ)
    → MemPool
    → Memory
    → (pool_ptr block_size pool_start pool_size : ℕ) → Option (MemPool × Memory × RawOsError)
unfolding run_create
raw_block_pool_create fuel pool mem pool_ptr block_size pool_start pool_size =
    let start : Linking = record { memory = mem; block_ptr = pool_start; blocks = 0 } in
    if ltb pool_size ((block_size + block_size) % u32_mod)
    then some (pool, mem, block_size_error)
    else if pool_ptr == 0
    then some (pool, mem, null_object)
    else if pool_start == 0
    then some (pool, mem, null_pointer)
    else if not (pool_start % 4 == 0)
    then some (pool, mem, invalid_align)
    else if not (pool_size % 4 == 0)
    then some (pool, mem, invalid_align)
    else if not (block_size % 4 == 0)
    then some (pool, mem, invalid_align)
    else run_create pool block_size pool_start
        (link_blocks fuel block_size (pool_start + pool_size) start)

abbrev pub not_a_pool : MemPool → Bool
not_a_pool pool = not (type_code pool.object_type == 7)

-- The block's address is stored at `block_ptr`, before the link of the block is read.
pub raw_block_allocate : MemPool → Memory → (pool_ptr block_ptr : ℕ) → MemPool × Memory × RawOsError
raw_block_allocate pool mem pool_ptr block_ptr =
    let work_ptr = pool.raw_block_pool_available_list in
    let mem' = update mem block_ptr work_ptr in
    let pool' = record pool {
      raw_block_pool_available = pool.raw_block_pool_available - 1;
      raw_block_pool_available_list = mem' work_ptr;
    } in
    if pool_ptr == 0
    then (pool, mem, null_object)
    else if block_ptr == 0
    then (pool, mem, null_pointer)
    else if not_a_pool pool
    then (pool, mem, error_object_type)
    else if not (pool.raw_block_pool_available == 0)
    then (pool', mem', success)
    else (pool, update mem block_ptr 0, no_memory)

pub raw_block_release : MemPool → Memory → (pool_ptr block_ptr : ℕ) → MemPool × Memory × RawOsError
raw_block_release pool mem pool_ptr block_ptr =
    let mem' = update mem block_ptr pool.raw_block_pool_available_list in
    let pool' = record pool {
      raw_block_pool_available = (pool.raw_block_pool_available + 1) % u32_mod;
      raw_block_pool_available_list = block_ptr;
    } in
    if block_ptr == 0
    then (pool, mem, null_object)
    else if pool_ptr == 0
    then (pool, mem, null_object)
    else if not_a_pool pool
    then (pool, mem, error_object_type)
    else (pool', mem', success)
