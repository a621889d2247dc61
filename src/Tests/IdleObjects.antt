-- ===== src/Tests/IdleObjects.antt =====
-- The objects of the idle task at concrete inputs.
use raw_os.Shared.{◌≡◌, ◌+◌, ◌-◌, ◌*◌, ◌/◌, ◌%◌, refl, true, false, [], arith, ◌⊎◌}
use raw_os.Kernel.{success, idle_event_exhausted}
use raw_os.Bits.{any_below}
use raw_os.IdleEvent.{IdleEvents, event_post, idle_high_priority}
use raw_os.IdleEvent.Choice.{IsLowest, idle_high_priority_lem}
use raw_os.IdleEvent.Flags.{IsFlagged}
use raw_os.IdleEvent.Ready.{Added, event_post-IsFlagged}

-- The object of priority `p` stands at the address 100 + p, with room for four events.
abbrev quiet : IdleEvents
quiet = record {
  acts = λ a. record {
    tick_ctr = 0;
    head = 0;
    prio = a - 100;
    tail = 0;
    n_used = 0;
    priority_x = (a - 100) % 8;
    priority_y = (a - 100) / 8;
  };
  active_idle_task = λ p. record { act = 100 + p; queue = λ i. (0, 0); queue_end = 4 };
  raw_idle_rdy_grp = λ y. false;
  raw_rdy_tbl = λ y x. false;
  raw_idle_tick_head = [];
}

quiet-IsFlagged : IsFlagged 20 quiet
unfolding any_below
quiet-IsFlagged = record {
  few = omega arith;
  placed = λ p lt. (omega arith, omega arith, omega arith);
  used = λ p lt. (omega arith, omega arith);
  flagged = λ p lt. refl;
  beyond = λ p out lt. refl;
  group = λ y lt. refl;
}

event_post-IsFlagged_example :
    let (s', status) = event_post quiet 109 5 77 true in
    IsFlagged 20 s'
    × (((status ≡ success) × Added quiet s' 20 9 5 77 true)
        ⊎ ((status ≡ idle_event_exhausted)
            × (s' ≡ quiet)
            × ((quiet.acts 109).n_used ≡ (quiet.active_idle_task 9).queue_end)))
event_post-IsFlagged_example =
    event_post-IsFlagged 20 quiet 9 5 77 true quiet-IsFlagged (omega arith)

-- Object 9 alone has an event.
abbrev one_ready : IdleEvents
one_ready = (event_post quiet 109 5 77 true).0

group-IsLowest : IsLowest one_ready.raw_idle_rdy_grp 1
unfolding event_post
group-IsLowest = record { in_byte = omega arith; is_set = refl; clear_below = λ i lt. ground arith }

flag-IsLowest : IsLowest (one_ready.raw_rdy_tbl 1) 1
unfolding event_post
flag-IsLowest = record { in_byte = omega arith; is_set = refl; clear_below = λ i lt. ground arith }

idle_high_priority_lem_example : idle_high_priority one_ready ≡ 8 * 1 + 8 * 1
idle_high_priority_lem_example = idle_high_priority_lem one_ready 1 1 group-IsLowest flag-IsLowest
