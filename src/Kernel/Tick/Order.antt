-- ===== src/Kernel/Tick/Order.antt =====
-- The order of the tick list: by the time that is left, the head being the next to wake.
use raw_os.Shared.{
  refl, insert_by, insert_by-Inserted, ℕ, ◌+◌, ◌%◌, ◌<◌, ◌≡◌, List, [], ◌∷◌, arith, All, IsSorted,
  Inserted, Inserted-IsSorted, true, false, ◌==◌, count, subst, update, sym, IsSorted-congr,
  absent_induction,
}
use raw_os.Kernel.{Kernel, Task, u32_mod}
use raw_os.Kernel.Tick.{tick_list_priority_insert, tick_list_insert, remaining}

tick_list_priority_insert_lem :
    (tasks : ℕ → Task) (now val t : ℕ) (l : List ℕ)
    → tick_list_priority_insert tasks now val t l ≡ insert_by (λ q. remaining now (tasks q)) val t l
unfolding tick_list_priority_insert
tick_list_priority_insert_lem tasks now val t [] = refl
tick_list_priority_insert_lem tasks now val t (q ∷ rest) =
    rw (tick_list_priority_insert_lem tasks now val t rest) refl

tick_insert-Inserted :
    (tasks : ℕ → Task) (now t val : ℕ) (l : List ℕ)
    → IsSorted (λ q. remaining now (tasks q)) l
    → Inserted (λ q. remaining now (tasks q)) val t l (tick_list_priority_insert tasks now val t l)
tick_insert-Inserted tasks now t val l s =
    rw (tick_list_priority_insert_lem tasks now val t l) (insert_by-Inserted _ val t l s)

-- A task that gets a timeout of `time` ticks has `time` ticks left, whether or not the sum of the tick
-- count and the time wraps; a sorted tick list stays sorted, with the task behind those that wake no
-- later and before those that wake later.
pub tick_list_insert-Inserted :
    (k : Kernel) (t time : ℕ)
    → (time == 0) ≡ false
    → time < u32_mod
    → k.raw_tick_count < u32_mod
    → count t k.tick_list ≡ 0
    → IsSorted (λ q. remaining k.raw_tick_count (k.tasks q)) k.tick_list
    → let k' = tick_list_insert k t time in
      let left = λ (q : ℕ). remaining k.raw_tick_count (k'.tasks q) in
      (left t ≡ time) × Inserted left time t k.tick_list k'.tick_list × IsSorted left k'.tick_list
unfolding tick_list_insert
tick_list_insert-Inserted k t time some_time fits now_fits out s =
    rw some_time (mine, inserted, stays)
  where
    tasks' : ℕ → Task
    tasks' = update k.tasks t (record (k.tasks t) {
      tick_match = (k.raw_tick_count + time) % u32_mod;
      tick_remain = time;
      on_tick = true;
    })

    left : ℕ → ℕ
    left q = remaining k.raw_tick_count (tasks' q)

    mine : left t ≡ time
    mine = ground arith

    same : All (λ q. remaining k.raw_tick_count (k.tasks q) ≡ left q) k.tick_list
    same =
        absent_induction (All (λ q. remaining k.raw_tick_count (k.tasks q) ≡ left q)) t tt
          (λ x xs ne rest. (ground arith, rest)) k.tick_list out

    inserted :
        Inserted left time t k.tick_list
          (tick_list_priority_insert tasks' k.raw_tick_count time t k.tick_list)
    inserted =
        tick_insert-Inserted tasks' k.raw_tick_count t time k.tick_list
          (IsSorted-congr _ left k.tick_list same s)

    stays : IsSorted left (tick_list_priority_insert tasks' k.raw_tick_count time t k.tick_list)
    stays =
        Inserted-IsSorted left t k.tick_list _
          (subst
            (λ v.
              Inserted left v t k.tick_list
                (tick_list_priority_insert tasks' k.raw_tick_count time t k.tick_list))
            (sym mine) inserted)
          (IsSorted-congr _ left k.tick_list same s)
