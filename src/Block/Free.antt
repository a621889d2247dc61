-- ===== src/Block/Free.antt =====
-- The free blocks of a pool, as a list.
use raw_os.Shared.{
  ℕ, ◌+◌, ◌≤◌, ◌<◌, ◌≡◌, refl, true, false, ◌==◌, update, count, count-cons, length, List, [], ◌∷◌,
  arith, Linked, Follows-update, ==_refl, inl, inr, ◌⊎◌, Linked-tail, Follows-front,
}
use raw_os.Kernel.{block_obj_type, success, no_memory, u32_mod}
use raw_os.Block.{MemPool, Memory, not_a_pool, raw_block_allocate, raw_block_release}

pub record IsPool (pool : MemPool) (mem : Memory) (free : List ℕ) : Type 0 where
  pub typed : pool.object_type ≡ block_obj_type
  pub available : pool.raw_block_pool_available ≡ length free
  pub linked : Linked mem pool.raw_block_pool_available_list free
  pub distinct : (a : ℕ) → count a free ≤ 1

-- An allocation takes the first free block and stores its address where the caller asks, which is in
-- no free block; from a pool with no free block it stores a null pointer and fails.
pub raw_block_allocate_lem :
    (pool : MemPool) (mem : Memory) (free : List ℕ) (pool_ptr block_ptr : ℕ)
    → (pool_ptr == 0) ≡ false
    → (block_ptr == 0) ≡ false
    → count block_ptr free ≡ 0
    → IsPool pool mem free
    → let (pool', mem', status) = raw_block_allocate pool mem pool_ptr block_ptr in
      ((b : ℕ) × (rest : List ℕ) × (free ≡ b ∷ rest)
        × (status ≡ success)
        × (mem' block_ptr ≡ b)
        × IsPool pool' mem' rest)
      ⊎ ((free ≡ []) × (status ≡ no_memory) × (mem' block_ptr ≡ 0) × IsPool pool' mem' [])
unfolding raw_block_allocate
raw_block_allocate_lem pool mem [] pool_ptr block_ptr p b out v =
    let kind : not_a_pool pool ≡ false = rw v.typed refl in
    let none_left : (pool.raw_block_pool_available == 0) ≡ true = ground (arith, v.available) in
    rw (p, b, kind, none_left, ==_refl block_ptr)
      (inr (
        refl,
        refl,
        refl,
        record { typed = v.typed; available = v.available; linked = tt; distinct = v.distinct },
      ))
raw_block_allocate_lem pool mem (x ∷ rest) pool_ptr block_ptr p b out v =
    let kind : not_a_pool pool ≡ false = rw v.typed refl in
    let some_left : (pool.raw_block_pool_available == 0) ≡ false = ground (arith, v.available) in
    let l = v.linked.0 in
    rw (p, b, kind, some_left, ==_refl block_ptr)
      (inl (
        x,
        rest,
        refl,
        refl,
        l,
        record {
          typed = v.typed;
          available = omega (arith, v.available);
          linked =
              Linked-tail (update mem block_ptr pool.raw_block_pool_available_list)
                pool.raw_block_pool_available_list rest
                (rw l (Follows-update mem block_ptr x x rest out v.linked.1));
          distinct = λ a. omega (arith, v.distinct a, count-cons a x rest);
        },
      ))

-- A released block that was not free becomes the first free block, so the next allocation gives it
-- back.
pub raw_block_release_lem :
    (pool : MemPool) (mem : Memory) (free : List ℕ) (pool_ptr block_ptr : ℕ)
    → (pool_ptr == 0) ≡ false
    → (block_ptr == 0) ≡ false
    → count block_ptr free ≡ 0
    → length free + 1 < u32_mod
    → IsPool pool mem free
    → let (pool', mem', status) = raw_block_release pool mem pool_ptr block_ptr in
      (status ≡ success) × IsPool pool' mem' (block_ptr ∷ free)
unfolding raw_block_release
raw_block_release_lem pool mem free pool_ptr block_ptr p b out small v =
    let kind : not_a_pool pool ≡ false = rw v.typed refl in
    rw (p, b, kind)
      (
        refl,
        record {
          typed = v.typed;
          available = omega (arith, v.available, small);
          linked = (
            refl,
            Follows-front mem pool.raw_block_pool_available_list block_ptr free out v.linked,
          );
          distinct = λ a. ground (arith, v.distinct a, count-cons a block_ptr free, out);
        },
      )
