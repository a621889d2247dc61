-- ===== src/IdleEvent/Ready.antt =====
-- The flags say which objects have an event, also after a post.
use raw_os.Shared.{
  ℕ, ◌+◌, ◌-◌, ◌%◌, ◌<◌, ◌≡◌, refl, subst, sym, ◌∙◌, ap, Bool, true, false, ◌==◌, if◌then◌else◌,
  arith, update, Bool-cases, inl, inr, ◌⊎◌,
}
use raw_os.Kernel.{RawOsError, success, idle_event_exhausted}
use raw_os.IdleEvent.{IdleEvents, ActiveEvent, ActiveEventCb, event_post, post_to, flag}
use raw_os.IdleEvent.Flags.{IsFlagged, apart, stored, post_flags}

post_to_full :
    (s : IdleEvents) (q sig para : ℕ) (to_end : Bool)
    → let me = (s.active_idle_task q).act in
      ((s.acts me).n_used == (s.active_idle_task q).queue_end) ≡ true
      → post_to s me q sig para to_end ≡ (s, idle_event_exhausted)
unfolding post_to
post_to_full s q sig para to_end full = rw full refl

-- Where an event goes: to the head of the queue, or in front of its tail.
abbrev pub slot : ActiveEvent → (queue_end : ℕ) → (to_end : Bool) → ℕ
slot x queue_end true = x.head
slot x queue_end false = (if x.tail == 0 then queue_end else x.tail) - 1

-- The indices after a post.
abbrev pub head_after : ActiveEvent → (queue_end : ℕ) → (to_end : Bool) → ℕ
head_after x queue_end true = if (x.head + 1) % 256 == queue_end then 0 else (x.head + 1) % 256
head_after x queue_end false = x.head

abbrev pub tail_after : ActiveEvent → (queue_end : ℕ) → (to_end : Bool) → ℕ
tail_after x queue_end true = x.tail
tail_after x queue_end false = slot x queue_end false

-- In `s'` the event is in the queue of the object `q`, behind or in front of the others, which stay
-- where they are, and no other object changed.
pub record Added (s s' : IdleEvents) (n q sig para : ℕ) (to_end : Bool) : Type 0 where
  pub counted : let me = (s.active_idle_task q).act in (s'.acts me).n_used ≡ (s.acts me).n_used + 1
  pub recorded :
      let acb = s.active_idle_task q in
      (s'.active_idle_task q).queue (slot (s.acts acb.act) acb.queue_end to_end) ≡ (sig, para)
  pub kept :
      (i : ℕ)
      → let acb = s.active_idle_task q in
        (slot (s.acts acb.act) acb.queue_end to_end == i) ≡ false
        → (s'.active_idle_task q).queue i ≡ acb.queue i
  pub indices :
      let acb = s.active_idle_task q in
      ((s'.acts acb.act).head ≡ head_after (s.acts acb.act) acb.queue_end to_end)
      × ((s'.acts acb.act).tail ≡ tail_after (s.acts acb.act) acb.queue_end to_end)
  pub others :
      (p : ℕ)
      → p < n
      → (q == p) ≡ false
      → let acb = s.active_idle_task p in
        (s'.active_idle_task p ≡ acb) × (s'.acts acb.act ≡ s.acts acb.act)

-- The state after a post of a first or a further event.
module _ (s : IdleEvents) (q sig para : ℕ) (to_end : Bool) where
  abbrev acb : ActiveEventCb
  acb = s.active_idle_task q

  abbrev x : ActiveEvent
  x = s.acts acb.act

  abbrev stored_event : IdleEvents
  stored_event =
      stored s q (update acb.queue (slot x acb.queue_end to_end) (sig, para))
        (head_after x acb.queue_end to_end) (tail_after x acb.queue_end to_end)

  abbrev after_post : IdleEvents
  after_post = if x.n_used + 1 == 1 then flag stored_event acb.act else stored_event

  after_post-Added : (n : ℕ) → IsFlagged n s → q < n → Added s after_post n q sig para to_end
  unfolding flag
  after_post-Added n f lq = record {
    counted = ground arith;
    recorded = ground arith;
    kept = λ i ne. ground arith;
    indices = ground arith;
    others = λ p lp ne. let far = apart n s q p f lq lp ne in ground arith;
  }

in_byte : (n : ℕ) → n + 1 < 256 → (n + 1) % 256 ≡ n + 1
in_byte n small = omega arith

post_to_room :
    (s : IdleEvents) (q sig para : ℕ) (to_end : Bool)
    → let acb = s.active_idle_task q in
      let x = s.acts acb.act in
      (x.n_used == acb.queue_end) ≡ false
      → x.n_used + 1 < 256
      → post_to s acb.act q sig para to_end ≡ (after_post s q sig para to_end, success)
unfolding post_to
post_to_room s q sig para true room small =
    rw (room, in_byte (s.acts (s.active_idle_task q).act).n_used small) refl
post_to_room s q sig para false room small =
    rw (room, in_byte (s.acts (s.active_idle_task q).act).n_used small) refl

-- A post to an object whose queue is full changes nothing; any other post succeeds, the object has one
-- event more, behind or in front of the others as was asked, no other object changes, and the flags
-- still say which objects have events: an object's flag is set exactly if it has one, and a group's flag
-- exactly if one of its objects has.
pub event_post-IsFlagged :
    (n : ℕ) (s : IdleEvents) (q sig para : ℕ) (to_end : Bool)
    → IsFlagged n s
    → q < n
    → let me = (s.active_idle_task q).act in
      let (s', status) = event_post s me sig para to_end in
      IsFlagged n s'
      × (((status ≡ success) × Added s s' n q sig para to_end)
          ⊎ ((status ≡ idle_event_exhausted)
              × (s' ≡ s)
              × ((s.acts me).n_used ≡ (s.active_idle_task q).queue_end)))
unfolding event_post
event_post-IsFlagged n s q sig para to_end f lt =
    elim (Bool-cases (x.n_used == (s.active_idle_task q).queue_end)) [
      | inl full ↦
          subst Posted (sym (named ∙ post_to_full s q sig para to_end full))
            (f, inr (refl, refl, ground (arith, full)))
      | inr room ↦
          let small : x.n_used + 1 < 256 = ground (arith, room, f.used q lt) in
          let some_room : x.n_used < (s.active_idle_task q).queue_end =
            ground (arith, room, f.used q lt) in
          subst Posted (sym (named ∙ post_to_room s q sig para to_end room small)) (
            (post_flags n s q _ _ _ f lt some_room).0,
            inl (refl, after_post-Added s q sig para to_end n f lt),
          )
    ]
  where
    me : ℕ
    me = (s.active_idle_task q).act

    x : ActiveEvent
    x = s.acts me

    named : event_post s me sig para to_end ≡ post_to s me q sig para to_end
    named = ap (λ r. post_to s me r sig para to_end) (f.placed q lt).0

    Posted : IdleEvents × RawOsError → Type 0
    Posted (s', status) =
        IsFlagged n s'
        × (((status ≡ success) × Added s s' n q sig para to_end)
            ⊎ ((status ≡ idle_event_exhausted)
                × (s' ≡ s)
                × (x.n_used ≡ (s.active_idle_task q).queue_end)))
