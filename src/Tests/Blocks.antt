-- ===== src/Tests/Blocks.antt =====
-- Block pools at concrete inputs.
use raw_os.Shared.{ℕ, ◌≡◌, refl, update, count, List, [], ◌∷◌, none, some, arith, ◌⊎◌, blocks_from}
use raw_os.Kernel.{block_obj_type, type_none, success, no_memory}
use raw_os.Block.{MemPool, Memory, raw_block_pool_create, raw_block_allocate, raw_block_release}
use raw_os.Block.Free.{IsPool, raw_block_allocate_lem, raw_block_release_lem}
use raw_os.Block.Create.{raw_block_pool_create_lem, raw_block_pool_create_of_zero}

abbrev no_pool : MemPool
no_pool = record {
  object_type = type_none;
  raw_block_pool_available = 0;
  block_size = 0;
  raw_block_pool_available_list = 0;
}

abbrev blank : Memory
blank = λ a. 0

-- Three blocks of 8 bytes from 1000 on, of which the first is taken.
abbrev pool : MemPool
pool = record {
  object_type = block_obj_type;
  raw_block_pool_available = 2;
  block_size = 8;
  raw_block_pool_available_list = 1008;
}

abbrev mem : Memory
mem = update blank 1008 1016

abbrev free : List ℕ
free = 1008 ∷ 1016 ∷ []

pool-IsPool : IsPool pool mem free
unfolding count
pool-IsPool = record {
  typed = refl;
  available = refl;
  linked = (refl, (refl, tt));
  distinct = λ a. ground arith;
}

raw_block_pool_create_lem_example :
    (pool' : MemPool) × (mem' : Memory) × (raw_block_pool_create 4 no_pool blank 1 8 1000 24
      ≡ some (pool', mem', success))
    × IsPool pool' mem' (blocks_from 8 3 1000)
raw_block_pool_create_lem_example =
    raw_block_pool_create_lem 4 no_pool blank 1 8 1000 24 3 refl refl refl refl refl (omega arith)
      (omega arith) (omega arith) (omega arith) (omega arith) (omega arith)

raw_block_pool_create_of_zero_example : raw_block_pool_create 100 no_pool blank 1 0 1000 24 ≡ none
raw_block_pool_create_of_zero_example =
    raw_block_pool_create_of_zero 100 no_pool blank 1 1000 24 refl refl refl refl (omega arith)

raw_block_allocate_lem_example :
    let (pool', mem', status) = raw_block_allocate pool mem 1 500 in
    ((b : ℕ) × (rest : List ℕ) × (free ≡ b ∷ rest)
      × (status ≡ success)
      × (mem' 500 ≡ b)
      × IsPool pool' mem' rest)
    ⊎ ((free ≡ []) × (status ≡ no_memory) × (mem' 500 ≡ 0) × IsPool pool' mem' [])
unfolding count
raw_block_allocate_lem_example =
    raw_block_allocate_lem pool mem free 1 500 refl refl refl pool-IsPool

raw_block_release_lem_example :
    let (pool', mem', status) = raw_block_release pool mem 1 1000 in
    (status ≡ success) × IsPool pool' mem' (1000 ∷ 1008 ∷ 1016 ∷ [])
unfolding count
raw_block_release_lem_example =
    raw_block_release_lem pool mem free 1 1000 refl refl refl (omega arith) pool-IsPool
