-- ===== src/Kernel/Tick.antt =====
-- raw_tick.c: the list of tasks that wait for a tick, sorted by the time that is left.
pub mod Remove
pub mod Insert
pub mod Order
use raw_os.Shared.{
  ℕ, zero, suc, ◌+◌, ◌-◌, ◌%◌, Bool, true, false, ltb, ◌==◌, if◌then◌else◌, Option, none, some,
  List, [], ◌∷◌, erase,
}
use raw_os.Kernel.{Kernel, Task, set_task, u32_mod}

-- `task->tick_match - raw_tick_count`, in `RAW_TICK_TYPE`
abbrev pub remaining : ℕ → Task → ℕ
remaining now x = (x.tick_match + u32_mod - now) % u32_mod

pub tick_list_priority_insert : (ℕ → Task) → ℕ → ℕ → ℕ → List ℕ → List ℕ
tick_list_priority_insert tasks now val t [] = t ∷ []
tick_list_priority_insert tasks now val t (q ∷ rest) =
    if ltb val (remaining now (tasks q))
    then t ∷ q ∷ rest
    else q ∷ tick_list_priority_insert tasks now val t rest

pub tick_list_insert : Kernel → ℕ → ℕ → Kernel
unfolding tick_list_priority_insert
tick_list_insert k t time =
    let x = record (k.tasks t) {
      tick_match = (k.raw_tick_count + time) % u32_mod;
      tick_remain = time;
      on_tick = true;
    } in
    let k1 = set_task k t x in
    if time == 0 then k else record k1 {
      tick_list = tick_list_priority_insert k1.tasks k.raw_tick_count time t k.tick_list;
    }

pub tick_list_remove : Kernel → ℕ → Kernel
tick_list_remove k t =
    if (k.tasks t).on_tick
    then set_task (record k { tick_list = erase t k.tick_list }) t
        (record (k.tasks t) { on_tick = false })
    else k
