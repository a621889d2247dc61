-- ===== src/Kernel/Tick/Remove.antt =====
-- `tick_list_remove` field by field.
use raw_os.Shared.{
  ℕ, ◌≡◌, false, ◌==◌, if◌then◌else◌, b2n, count, erase, arith, count-erase, if_cases,
}
use raw_os.Kernel.Frame.{SameObjects, SameObjects-lists, SameObjects-refl}
use raw_os.Kernel.{Kernel, set_task}
use raw_os.Kernel.Tick.{tick_list_remove}

module _ (k : Kernel) (t : ℕ) where
  pub rq-tick_list_remove : (tick_list_remove k t).rq ≡ k.rq
  unfolding tick_list_remove
  rq-tick_list_remove = ground arith

  pub block_list-tick_list_remove : (tick_list_remove k t).block_list ≡ k.block_list
  unfolding tick_list_remove
  block_list-tick_list_remove = ground arith

  pub tasks-tick_list_remove :
      (u : ℕ)
      → (tick_list_remove k t).tasks u
        ≡ (if t == u then record (k.tasks t) { on_tick = false } else k.tasks u)
  unfolding tick_list_remove
  tasks-tick_list_remove u = ground arith

  pub count-tick_list_remove :
      (u : ℕ)
      → count t k.tick_list ≡ b2n (k.tasks t).on_tick
      → count u (tick_list_remove k t).tick_list ≡ (if t == u then 0 else count u k.tick_list)
  unfolding tick_list_remove
  count-tick_list_remove u h = ground (arith, count-erase u t k.tick_list)

  pub tick_list_remove-SameObjects : SameObjects k (tick_list_remove k t)
  unfolding tick_list_remove
  tick_list_remove-SameObjects =
      if_cases (SameObjects k) (k.tasks t).on_tick (λ e. frame) (λ e. SameObjects-refl k)
    where
      frame : SameObjects k (
          set_task
            (record k { tick_list = erase t k.tick_list })
            t
            (record (k.tasks t) { on_tick = false }))
      frame = SameObjects-lists _ _ _ _ _ _ _
