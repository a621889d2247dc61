-- ===== src/Kernel/Tick/Insert.antt =====
-- `tick_list_insert` field by field.
use raw_os.Shared.{
  ℕ, ◌+◌, ◌%◌, ◌≡◌, true, false, ◌==◌, if◌then◌else◌, List, [], ◌∷◌, b2n, count, arith, count-cons,
  update, if_cases,
}
use raw_os.Kernel.Frame.{SameObjects, SameObjects-lists, SameObjects-refl}
use raw_os.Kernel.{Kernel, Task, u32_mod}
use raw_os.Kernel.Tick.{tick_list_priority_insert, tick_list_insert}

pub count-tick_insert :
    (tasks : ℕ → Task) (now val t u : ℕ) (l : List ℕ)
    → count u (tick_list_priority_insert tasks now val t l) ≡ b2n (t == u) + count u l
unfolding tick_list_priority_insert
count-tick_insert tasks now val t u [] = count-cons u t []
count-tick_insert tasks now val t u (q ∷ rest) = ground (
  arith,
  count-cons u t (q ∷ rest),
  count-cons u q rest,
  count-cons u q (tick_list_priority_insert tasks now val t rest),
  count-tick_insert tasks now val t u rest,
)

module _ (k : Kernel) (t time : ℕ) where
  pub rq-tick_list_insert : (tick_list_insert k t time).rq ≡ k.rq
  unfolding tick_list_insert
  rq-tick_list_insert = ground arith

  pub block_list-tick_list_insert : (tick_list_insert k t time).block_list ≡ k.block_list
  unfolding tick_list_insert
  block_list-tick_list_insert = ground arith

  pub tasks-tick_list_insert :
      (time == 0) ≡ false
      → (u : ℕ)
      → (tick_list_insert k t time).tasks u ≡ (
          if t == u
          then record (k.tasks t) {
            tick_match = (k.raw_tick_count + time) % u32_mod;
            tick_remain = time;
            on_tick = true;
          }
          else k.tasks u)
  unfolding tick_list_insert
  tasks-tick_list_insert h u = ground arith

  pub count-tick_list_insert :
      (time == 0) ≡ false
      → (u : ℕ) → count u (tick_list_insert k t time).tick_list ≡ b2n (t == u) + count u k.tick_list
  unfolding tick_list_insert
  count-tick_list_insert h u = rw h (
      count-tick_insert
        (update k.tasks t (record (k.tasks t) {
          tick_match = (k.raw_tick_count + time) % u32_mod;
          tick_remain = time;
          on_tick = true;
        }))
        k.raw_tick_count time t u k.tick_list)

pub tick_list_insert-SameObjects :
    (k : Kernel) (t time : ℕ) → SameObjects k (tick_list_insert k t time)
unfolding tick_list_insert
tick_list_insert-SameObjects k t time =
    if_cases (SameObjects k) (time == 0) (λ e. SameObjects-refl k)
      (λ e. SameObjects-lists _ _ _ _ _ _ _)
