-- ===== src/IdleEvent.antt =====
-- raw_idle_event.c: the events that the idle task handles, one queue for each of its objects, and the
-- two levels of flags that say which queues are not empty. A byte is its bits, bit 0 first. An event
-- is its signal and its parameter; an object is its address. The state machine that handles an event
-- is the application's and is not run.
pub mod Flags
pub mod Ready
pub mod Choice
use raw_os.Shared.{
  ℕ, zero, suc, ◌+◌, ◌-◌, ◌*◌, ◌/◌, ◌%◌, Bool, true, false, ◌==◌, if◌then◌else◌, not, List, [], ◌∷◌,
  erase, update, b2n, get_or, Option, none, some,
}
use raw_os.Bits.{Word, any_below}
use raw_os.Kernel.{RawOsError, success, idle_event_exhausted}

-- `ACTIVE_EVENT_STRUCT`. `priority_bit_x` and `priority_bit_y` are the bits at `priority_x` and
-- `priority_y`.
pub record ActiveEvent : Type 0 where
  pub tick_ctr : ℕ
  pub head : ℕ
  pub prio : ℕ
  pub tail : ℕ
  pub n_used : ℕ
  pub priority_x : ℕ
  pub priority_y : ℕ

-- `ACTIVE_EVENT_STRUCT_CB`
pub record ActiveEventCb : Type 0 where
  pub act : ℕ
  pub queue : ℕ → ℕ × ℕ
  pub queue_end : ℕ

-- The globals, with the objects at their addresses.
pub record IdleEvents : Type 0 where
  pub acts : ℕ → ActiveEvent
  pub active_idle_task : ℕ → ActiveEventCb
  pub raw_idle_rdy_grp : Word
  pub raw_rdy_tbl : ℕ → Word
  pub raw_idle_tick_head : List ℕ

abbrev set_act : IdleEvents → ℕ → ActiveEvent → IdleEvents
set_act s a x = record s { acts = update s.acts a x }

-- The loop of `idle_event_init`, from object `i` on; `MAX_IDLE_EVENT_TASK` is the port's.
init_from : (left i : ℕ) → IdleEvents → IdleEvents
init_from zero i s = s
init_from (suc left) i s =
    let a = (s.active_idle_task i).act in
    init_from left (i + 1) (
      set_act s a (record (s.acts a) {
        prio = i;
        head = 0;
        tail = 0;
        n_used = 0;
        priority_x = i % 8;
        priority_y = i / 8;
      }))

pub idle_event_init : (max_idle_event_task : ℕ) → IdleEvents → IdleEvents
unfolding init_from
idle_event_init max_idle_event_task s = record (init_from max_idle_event_task 0 s) {
  raw_idle_tick_head = [];
}

-- The queue with the event, and the object with its index moved.
abbrev put_event : ActiveEvent → ActiveEventCb → ℕ × ℕ → Bool → ActiveEvent × ActiveEventCb
put_event x acb event true = (
  record x { head = if (x.head + 1) % 256 == acb.queue_end then 0 else (x.head + 1) % 256 },
  record acb { queue = update acb.queue x.head event },
)
put_event x acb event false =
    let tail = (if x.tail == 0 then acb.queue_end else x.tail) - 1 in
    (record x { tail = tail }, record acb { queue = update acb.queue tail event })

-- The object of `acb` is ready.
unfoldable flag : IdleEvents → ℕ → IdleEvents
flag s a =
    let x = s.acts a in
    record s {
      raw_idle_rdy_grp = update s.raw_idle_rdy_grp x.priority_y true;
      raw_rdy_tbl =
          update s.raw_rdy_tbl x.priority_y (update (s.raw_rdy_tbl x.priority_y) x.priority_x true);
    }

-- The post, for `prio` the priority of the object.
unfoldable post_to : IdleEvents → (me prio sig para : ℕ) → (to_end : Bool) → IdleEvents × RawOsError
unfolding flag
post_to s me prio sig para to_end =
    let acb = s.active_idle_task prio in
    let (x, acb') = put_event (s.acts me) acb (sig, para) to_end in
    let used = (x.n_used + 1) % 256 in
    let s' = record (set_act s me (record x { n_used = used })) {
      active_idle_task = update s.active_idle_task prio acb';
    } in
    if (s.acts me).n_used == acb.queue_end
    then (s, idle_event_exhausted)
    else ((if used == 1 then flag s' acb.act else s'), success)

-- `to_end` says that `opt_send_method` is SEND_TO_END.
unfoldable pub event_post :
    IdleEvents → (me sig para : ℕ) → (to_end : Bool) → IdleEvents × RawOsError
unfolding post_to
event_post s me sig para to_end = post_to s me (s.acts me).prio sig para to_end

pub idle_event_end_post : IdleEvents → (me sig para : ℕ) → IdleEvents × RawOsError
idle_event_end_post s me sig para = event_post s me sig para true

pub idle_event_front_post : IdleEvents → (me sig para : ℕ) → IdleEvents × RawOsError
idle_event_front_post s me sig para = event_post s me sig para false

-- `STM_TIMEOUT_SIG`
abbrev stm_timeout_sig : ℕ
stm_timeout_sig = 4

-- The loop of `idle_tick_isr`, which reads the next object before it handles one.
tick_objects : List ℕ → IdleEvents → IdleEvents
tick_objects [] s = s
tick_objects (a ∷ rest) s =
    let x = s.acts a in
    let s1 = set_act s a (record x { tick_ctr = x.tick_ctr - 1 }) in
    let s2 = record s1 { raw_idle_tick_head = erase a s1.raw_idle_tick_head } in
    tick_objects rest (
      if x.tick_ctr == 0
      then s
      else if x.tick_ctr - 1 == 0
      then (idle_event_end_post s2 a stm_timeout_sig 0).0
      else s1)

pub idle_tick_isr : IdleEvents → IdleEvents
unfolding tick_objects
idle_tick_isr s = tick_objects s.raw_idle_tick_head s

-- raw_obj.c
abbrev pub raw_idle_map_table : List ℕ
raw_idle_map_table =
    0 ∷ 0 ∷ 8 ∷ 0 ∷ 16 ∷ 0 ∷ 8 ∷ 0 ∷ 24 ∷ 0 ∷ 8 ∷ 0 ∷ 16 ∷ 0 ∷ 8 ∷ 0 ∷ 32 ∷ 0 ∷ 8 ∷ 0 ∷ 16 ∷ 0 ∷ 8
    ∷ 0 ∷ 24 ∷ 0 ∷ 8 ∷ 0 ∷ 16 ∷ 0 ∷ 8 ∷ 0 ∷ 40 ∷ 0 ∷ 8 ∷ 0 ∷ 16 ∷ 0 ∷ 8 ∷ 0 ∷ 24 ∷ 0 ∷ 8 ∷ 0 ∷ 16
    ∷ 0 ∷ 8 ∷ 0 ∷ 32 ∷ 0 ∷ 8 ∷ 0 ∷ 16 ∷ 0 ∷ 8 ∷ 0 ∷ 24 ∷ 0 ∷ 8 ∷ 0 ∷ 16 ∷ 0 ∷ 8 ∷ 0 ∷ 48 ∷ 0 ∷ 8 ∷ 0
    ∷ 16 ∷ 0 ∷ 8 ∷ 0 ∷ 24 ∷ 0 ∷ 8 ∷ 0 ∷ 16 ∷ 0 ∷ 8 ∷ 0 ∷ 32 ∷ 0 ∷ 8 ∷ 0 ∷ 16 ∷ 0 ∷ 8 ∷ 0 ∷ 24 ∷ 0
    ∷ 8 ∷ 0 ∷ 16 ∷ 0 ∷ 8 ∷ 0 ∷ 40 ∷ 0 ∷ 8 ∷ 0 ∷ 16 ∷ 0 ∷ 8 ∷ 0 ∷ 24 ∷ 0 ∷ 8 ∷ 0 ∷ 16 ∷ 0 ∷ 8 ∷ 0
    ∷ 32 ∷ 0 ∷ 8 ∷ 0 ∷ 16 ∷ 0 ∷ 8 ∷ 0 ∷ 24 ∷ 0 ∷ 8 ∷ 0 ∷ 16 ∷ 0 ∷ 8 ∷ 0 ∷ 56 ∷ 0 ∷ 8 ∷ 0 ∷ 16 ∷ 0
    ∷ 8 ∷ 0 ∷ 24 ∷ 0 ∷ 8 ∷ 0 ∷ 16 ∷ 0 ∷ 8 ∷ 0 ∷ 32 ∷ 0 ∷ 8 ∷ 0 ∷ 16 ∷ 0 ∷ 8 ∷ 0 ∷ 24 ∷ 0 ∷ 8 ∷ 0
    ∷ 16 ∷ 0 ∷ 8 ∷ 0 ∷ 40 ∷ 0 ∷ 8 ∷ 0 ∷ 16 ∷ 0 ∷ 8 ∷ 0 ∷ 24 ∷ 0 ∷ 8 ∷ 0 ∷ 16 ∷ 0 ∷ 8 ∷ 0 ∷ 32 ∷ 0
    ∷ 8 ∷ 0 ∷ 16 ∷ 0 ∷ 8 ∷ 0 ∷ 24 ∷ 0 ∷ 8 ∷ 0 ∷ 16 ∷ 0 ∷ 8 ∷ 0 ∷ 48 ∷ 0 ∷ 8 ∷ 0 ∷ 16 ∷ 0 ∷ 8 ∷ 0
    ∷ 24 ∷ 0 ∷ 8 ∷ 0 ∷ 16 ∷ 0 ∷ 8 ∷ 0 ∷ 32 ∷ 0 ∷ 8 ∷ 0 ∷ 16 ∷ 0 ∷ 8 ∷ 0 ∷ 24 ∷ 0 ∷ 8 ∷ 0 ∷ 16 ∷ 0
    ∷ 8 ∷ 0 ∷ 40 ∷ 0 ∷ 8 ∷ 0 ∷ 16 ∷ 0 ∷ 8 ∷ 0 ∷ 24 ∷ 0 ∷ 8 ∷ 0 ∷ 16 ∷ 0 ∷ 8 ∷ 0 ∷ 32 ∷ 0 ∷ 8 ∷ 0
    ∷ 16 ∷ 0 ∷ 8 ∷ 0 ∷ 24 ∷ 0 ∷ 8 ∷ 0 ∷ 16 ∷ 0 ∷ 8 ∷ 0 ∷ []

-- The number that a byte is.
abbrev pub byte_value : Word → ℕ
byte_value w =
    b2n (w 0)
    + 2 * b2n (w 1)
    + 4 * b2n (w 2)
    + 8 * b2n (w 3)
    + 16 * b2n (w 4)
    + 32 * b2n (w 5)
    + 64 * b2n (w 6)
    + 128 * b2n (w 7)

-- `idle_high_priority` of `idle_run`, in `RAW_U8`
unfoldable pub idle_high_priority : IdleEvents → ℕ
idle_high_priority s =
    let y = get_or raw_idle_map_table (byte_value s.raw_idle_rdy_grp) 0 in
    let x = y / 8 in (y + get_or raw_idle_map_table (byte_value (s.raw_rdy_tbl x)) 0) % 256

-- The queue of the object became empty.
unflag : IdleEvents → ActiveEvent → IdleEvents
unflag s x =
    let bits = update (s.raw_rdy_tbl x.priority_y) x.priority_x false in
    let s' = record s { raw_rdy_tbl = update s.raw_rdy_tbl x.priority_y bits } in
    if not (any_below 8 bits)
    then record s' { raw_idle_rdy_grp = update s.raw_idle_rdy_grp x.priority_y false }
    else s'

-- One round of the loop of `idle_run`: the state, and the object with the event that its state machine
-- is given, if there is one.
pub idle_run : IdleEvents → IdleEvents × Option (ℕ × (ℕ × ℕ))
unfolding unflag
idle_run s =
    let acb = s.active_idle_task (idle_high_priority s) in
    let x = s.acts acb.act in
    let used = (x.n_used + 255) % 256 in
    let s1 = if used == 0 then unflag s x else s in
    let tail = if (x.tail + 1) % 256 == acb.queue_end then 0 else (x.tail + 1) % 256 in
    if not (any_below 8 s.raw_idle_rdy_grp) then (s, none) else (
      set_act s1 acb.act (record x { n_used = used; tail = tail }),
      some (acb.act, acb.queue x.tail),
    )
