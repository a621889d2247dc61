-- ===== src/Event/Grant.antt =====
-- Which tasks the setting of flags wakes.
use raw_os.Shared.{
  ℕ, ◌≡◌, refl, ap, Bool, true, false, ◌==◌, if◌then◌else◌, arith, erase, update, ==_refl,
}
use raw_os.Kernel.{Kernel, b_ok, set_event}
use raw_os.Kernel.Place.{WellFormed, is_pending}
use raw_os.Kernel.Place.Moves.{WellFormed-frame}
use raw_os.Kernel.Frame.{SameObjects}
use raw_os.Kernel.Pend.{unblock}
use raw_os.Kernel.Pend.Wake.{
  woken_task, tasks-unblock, block_list-unblock, unblock-WellFormed, unblock-SameObjects,
  raw_wake_object_lem,
}
use raw_os.Event.{grant, wants_clear, without}

-- One task that is woken.
pub record Step (k : Kernel) (o current t : ℕ) (k' : Kernel) : Type 0 where
  pub well_formed : WellFormed k'
  pub tasks : (u : ℕ) → k'.tasks u ≡ (if t == u then woken_task b_ok (k.tasks t) else k.tasks u)
  pub lists : k'.block_list ≡ (λ q. erase t (k.block_list q))
  pub flags : (k'.events o).flags ≡ (
      if wants_clear (k.tasks t).suspend_option
      then without (k.events o).flags (k.tasks t).suspend_flags
      else (k.events o).flags)
  pub memory : k'.memory ≡ update k.memory (k.tasks t).suspend_info current

pub grant_lem :
    (k : Kernel) (o current t : ℕ)
    → WellFormed k
    → is_pending (k.tasks t).task_state ≡ true
    → Step k o current t (grant k o current t)
unfolding grant
grant_lem k o current t w waits =
    rw (raw_wake_object_lem noted t, mine) (by_option (wants_clear (k.tasks t).suspend_option) refl)
  where
    noted : Kernel
    noted = record k { memory = update k.memory (k.tasks t).suspend_info current }

    mine : (unblock noted t b_ok).tasks t ≡ woken_task b_ok (k.tasks t)
    mine = ground (arith, tasks-unblock noted t b_ok waits t)

    woke : Kernel
    woke = unblock noted t b_ok

    same : SameObjects noted woke
    same = unblock-SameObjects noted t b_ok

    stays : WellFormed woke
    stays = unblock-WellFormed noted t b_ok waits (WellFormed-frame refl refl refl refl w)

    old_flags : (woke.events o).flags ≡ (k.events o).flags
    old_flags = ap (λ f. (f o).flags) same.events

    by_option :
        (b : Bool)
        → wants_clear (k.tasks t).suspend_option ≡ b
        → Step k o current t (
            if b
            then set_event woke o
                (record { flags = without (woke.events o).flags (k.tasks t).suspend_flags })
            else woke)
    by_option true e = record {
      well_formed = WellFormed-frame refl refl refl refl stays;
      tasks = tasks-unblock noted t b_ok waits;
      lists = block_list-unblock noted t b_ok waits;
      flags = rw (e, old_flags, ==_refl o) refl;
      memory = same.memory;
    }
    by_option false e = record {
      well_formed = stays;
      tasks = tasks-unblock noted t b_ok waits;
      lists = block_list-unblock noted t b_ok waits;
      flags = rw (e, old_flags) refl;
      memory = same.memory;
    }
