-- ===== src/Block/Create.antt =====
-- The pool that `raw_block_pool_create` sets up, and when it does not end.
use raw_os.Shared.{
  ℕ, zero, suc, ◌+◌, ◌*◌, ◌%◌, ◌≤◌, ◌<◌, ◌≡◌, refl, sym, ◌∙◌, ap, true, false, ltb, leb, ◌==◌,
  update, List, [], arith, Follows, ==_refl, inl, inr, Option, some, none, Bool-cases, blocks_from,
  length-blocks_from, blocks_from_distinct,
}
use raw_os.Kernel.{block_obj_type, success, u32_mod}
use raw_os.Block.{
  MemPool, Memory, raw_block_pool_create, link_blocks, Linking, run_create, finish_pool,
}
use raw_os.Block.Free.{IsPool}

-- The blocks behind the first of `n`.
abbrev blocks_behind : ℕ → ℕ → ℕ → List ℕ
blocks_behind size zero p = []
blocks_behind size (suc n) p = blocks_from size n (p + size)

-- From `p` on `n` blocks fit, and no more.
Fits : ℕ → ℕ → ℕ → ℕ → Type 0
Fits size end zero p = end < p + size
Fits size end (suc n) p = (p + size ≤ end) × Fits size end n (p + size)

-- What the loop leaves, from `p` on, where `n` blocks fit.
record LinkedUp (size n p blocks : ℕ) (mem : Memory) (r : Option Linking) : Type 0 where
  result : Linking
  ends : r ≡ some result
  counted : result.blocks ≡ blocks + n
  linked : Follows (update result.memory result.block_ptr 0) p (blocks_behind size n p)
  below : (a : ℕ) → a < p → update result.memory result.block_ptr 0 a ≡ mem a

link_blocks_lem :
    (fuel size end n p blocks : ℕ) (mem : Memory)
    → n < fuel
    → 0 < size
    → Fits size end n p
    → LinkedUp size n p blocks mem
        (link_blocks fuel size end (record { memory = mem; block_ptr = p; blocks = blocks }))
unfolding link_blocks Fits
link_blocks_lem zero size end n p blocks mem more pos fits = absurd (omega arith)
link_blocks_lem (suc fuel) size end zero p blocks mem more pos fits =
    let out : leb (p + size) end ≡ false = ground arith in
    rw out (record {
      result = record { memory = mem; block_ptr = p; blocks = blocks };
      ends = refl;
      counted = omega arith;
      linked = tt;
      below = λ a lt. ground arith;
    })
link_blocks_lem (suc fuel) size end (suc zero) p blocks mem more pos fits =
    let in_pool : leb (p + size) end ≡ true = ground arith in
    elim (Bool-cases ((p + size) == end)) [
      | inl at_end ↦
          rw (in_pool, at_end)
            (record {
              result = record { memory = mem; block_ptr = p; blocks = blocks + 1 };
              ends = refl;
              counted = omega arith;
              linked = tt;
              below = λ a lt. ground arith;
            })
      | inr further ↦
          let r =
            link_blocks_lem fuel size end zero (p + size) (blocks + 1) (update mem p (p + size))
              (omega arith) pos fits.1 in
          rw (in_pool, further)
            (record {
              result = r.result;
              ends = r.ends;
              counted = omega (arith, r.counted);
              linked = tt;
              below = λ a lt. r.below a (omega arith) ∙ (ground arith);
            })
    ]
link_blocks_lem (suc fuel) size end (suc (suc n)) p blocks mem more pos fits =
    let in_pool : leb (p + size) end ≡ true = ground arith in
    let further : ((p + size) == end) ≡ false = ground arith in
    let r =
      link_blocks_lem fuel size end (suc n) (p + size) (blocks + 1) (update mem p (p + size))
        (omega arith) pos fits.1 in
    rw (in_pool, further)
      (record {
        result = r.result;
        ends = r.ends;
        counted = omega (arith, r.counted);
        linked = (r.below p (omega arith) ∙ rw (==_refl p) refl, r.linked);
        below = λ a lt. r.below a (omega arith) ∙ (ground arith);
      })

Fits-from : (n size p end : ℕ) → p + n * size ≤ end → end < p + n * size + size → Fits size end n p
unfolding Fits
Fits-from zero size p end le lt = omega arith
Fits-from (suc n) size p end le lt =
    let m : suc n * size ≡ size + n * size = grind arith in
    (omega (arith, m), Fits-from n size (p + size) end (omega (arith, m)) (omega (arith, m)))

link_forever :
    (fuel end p blocks : ℕ) (mem : Memory)
    → p < end
    → link_blocks fuel 0 end (record { memory = mem; block_ptr = p; blocks = blocks }) ≡ none
unfolding link_blocks
link_forever zero end p blocks mem lt = refl
link_forever (suc fuel) end p blocks mem lt =
    let in_pool : leb (p + 0) end ≡ true = ground arith in
    let further : ((p + 0) == end) ≡ false = ground arith in
    rw (in_pool, further)
      (link_forever fuel end (p + 0) (blocks + 1) (update mem p (p + 0)) (omega arith))

-- A pool with aligned arguments in which `n` blocks fit, two or more, is created with exactly these
-- blocks free, each once, from the start of the pool on. The loop ends
-- within one round more than there are blocks: any number of rounds greater than `n` gives the result.
pub raw_block_pool_create_lem :
    (fuel : ℕ) (pool : MemPool) (mem : Memory) (pool_ptr block_size pool_start pool_size n : ℕ)
    → (pool_ptr == 0) ≡ false
    → (pool_start == 0) ≡ false
    → pool_start % 4 ≡ 0
    → pool_size % 4 ≡ 0
    → block_size % 4 ≡ 0
    → 0 < block_size
    → block_size + block_size ≤ pool_size
    → pool_size < u32_mod
    → n * block_size ≤ pool_size
    → pool_size < n * block_size + block_size
    → n < fuel
    → (pool' : MemPool) × (mem' : Memory) × (raw_block_pool_create fuel pool mem pool_ptr block_size
          pool_start pool_size
        ≡ some (pool', mem', success))
      × IsPool pool' mem' (blocks_from block_size n pool_start)
unfolding raw_block_pool_create run_create finish_pool
raw_block_pool_create_lem fuel pool mem pool_ptr block_size pool_start pool_size zero p s la lz lb
      pos two small le lt more =
    absurd (omega arith)
raw_block_pool_create_lem fuel pool mem pool_ptr block_size pool_start pool_size (suc n) p s la lz
      lb pos two small le lt more =
    let big_enough : ltb pool_size ((block_size + block_size) % u32_mod) ≡ false = ground arith in
    let r =
      link_blocks_lem fuel block_size (pool_start + pool_size) (suc n) pool_start 0 mem more pos (
        Fits-from (suc n) block_size pool_start (pool_start + pool_size) (omega arith)
          (omega arith)) in
    let start : Linking = record { memory = mem; block_ptr = pool_start; blocks = 0 } in
    let passed : raw_block_pool_create fuel pool mem pool_ptr block_size pool_start pool_size
        ≡ run_create pool block_size pool_start
            (link_blocks fuel block_size (pool_start + pool_size) start) =
      rw (big_enough, p, s, la, lz, lb) refl in
    let pool' : MemPool = record {
      object_type = block_obj_type;
      raw_block_pool_available = r.result.blocks;
      block_size = block_size;
      raw_block_pool_available_list = pool_start;
    } in
    (
      pool',
      update r.result.memory r.result.block_ptr 0,
      passed ∙ ap (run_create pool block_size pool_start) r.ends,
      record {
        typed = refl;
        available =
            omega (arith, r.counted) ∙ sym (length-blocks_from block_size (suc n) pool_start);
        linked = (refl, r.linked);
        distinct = λ a. blocks_from_distinct block_size (suc n) pool_start a pos;
      },
    )

-- With blocks of size 0, which every check of the arguments lets pass, the loop does not end, however
-- many rounds it is given.
pub raw_block_pool_create_of_zero :
    (fuel : ℕ) (pool : MemPool) (mem : Memory) (pool_ptr pool_start pool_size : ℕ)
    → (pool_ptr == 0) ≡ false
    → (pool_start == 0) ≡ false
    → pool_start % 4 ≡ 0
    → pool_size % 4 ≡ 0
    → 0 < pool_size
    → raw_block_pool_create fuel pool mem pool_ptr 0 pool_start pool_size ≡ none
unfolding raw_block_pool_create run_create
raw_block_pool_create_of_zero fuel pool mem pool_ptr pool_start pool_size p s la lz some_bytes =
    let never = link_forever fuel (pool_start + pool_size) pool_start 0 mem (omega arith) in
    let big : ltb pool_size ((0 + 0) % u32_mod) ≡ false = ground arith in
    rw (big, p, s, la, lz, never) refl
