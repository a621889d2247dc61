-- ===== src/MsgCells/Post.antt =====
-- A post to a sized queue whose cells are not all used.
use raw_os.Shared.{
  b2n, ap₂, ℕ, ◌<◌, ◌≡◌, refl, sym, ◌∙◌, ap, subst, Bool, true, false, ◌==◌, if◌then◌else◌, List,
  [], ◌∷◌, ◌++◌, length-append, arith, update, count, count-cons, count-nil, count-append, ==_refl,
  Follows, last, Linked-tail, Linked-update, Follows-front, Follows-append, Follows-update-last,
  last-snoc,
}
use raw_os.MsgCells.{MsgCells, post}
use raw_os.MsgCells.Contents.{
  Holds, Contains, messages, messages-snoc, messages-update, posted-distinct, free_once, last_once,
}

-- What a post to either end leaves of the cells that it does not take.
post_empty :
    (q : MsgCells) (p s f : ℕ) (free : List ℕ) (to_end : Bool)
    → Holds q [] (f ∷ free)
    → Contains (post q p s to_end) ((p, s) ∷ [])
unfolding post
post_empty q p s f free to_end h =
    let none_yet : (q.queue_current_msg == 0) ≡ true = ground (arith, h.counted) in
    let once = free_once f [] free h.distinct in
    let start = h.freed.0 in
    rw (none_yet, start)
      (record {
        used = f ∷ [];
        free = free;
        holds = record {
          readable = (refl, tt);
          written = refl;
          freed = Linked-tail q.next f free h.freed.1;
          counted = omega (arith, h.counted);
          room = omega (arith, h.room);
          distinct = λ a. posted-distinct f [] free h.distinct a;
          valid = omega (arith, h.valid, count-cons 0 f free, count-cons 0 f [], count-nil 0);
          peak = ground (arith, h.peak);
        };
        same = rw (==_refl f) refl;
      })

post_end :
    (q : MsgCells) (p s f x : ℕ) (xs free : List ℕ)
    → Holds q (x ∷ xs) (f ∷ free)
    → Contains (post q p s true) (messages q.msg_ptr q.msg_size (x ∷ xs) ++ (p, s) ∷ [])
unfolding post
post_end q p s f x xs free h =
    let some_yet : (q.queue_current_msg == 0) ≡ false = ground (arith, h.counted) in
    let once = free_once f (x ∷ xs) free h.distinct in
    let l = last_once x xs (f ∷ free) h.distinct in
    let lf : count (last x xs) free ≡ 0 = omega (arith, l.1, count-cons (last x xs) f free) in
    let start = h.freed.0 in
    let linked =
      Follows-append q.next f x xs (f ∷ []) l.0
        (omega (
          arith,
          l.1,
          count-cons (last x xs) f free,
          count-cons (last x xs) f [],
          count-nil (last x xs),
        ))
        h.readable.1 (refl, tt) in
    let last_now = last-snoc x xs f in
    let once_now : count (last x (xs ++ f ∷ [])) (x ∷ xs ++ f ∷ []) ≡ 1 =
      ap (λ v. count v (x ∷ xs ++ f ∷ [])) last_now
      ∙ omega (
        arith,
        once.0,
        count-append f (x ∷ xs) (f ∷ []),
        count-cons f f [],
        count-nil f,
        ap b2n (==_refl f),
      ) in
    let tied : Follows (update (update q.next (last x xs) f) (last x (xs ++ f ∷ [])) 0) x
        (xs ++ f ∷ []) =
      Follows-update-last (update q.next (last x xs) f) 0 x (xs ++ f ∷ []) once_now linked in
    rw (some_yet, start, h.written)
      (record {
        used = x ∷ xs ++ f ∷ [];
        free = free;
        holds = record {
          readable = (
            h.readable.0,
            subst (λ v. Follows (update (update q.next (last x xs) f) v 0) x (xs ++ f ∷ []))
                last_now tied,
          );
          written = sym (last-snoc x xs f);
          freed = Linked-update (update q.next (last x xs) f) f 0 (q.next f) free once.1 (
              Linked-update q.next (last x xs) f (q.next f) free lf
                (Linked-tail q.next f free h.freed.1));
          counted = omega (arith, h.counted, length-append xs (f ∷ []));
          room = omega (arith, h.room, length-append xs (f ∷ []));
          distinct = λ a. posted-distinct f (x ∷ xs) free h.distinct a;
          valid = omega (
            arith,
            h.valid,
            count-cons 0 f free,
            count-append 0 (x ∷ xs) (f ∷ []),
            count-cons 0 f [],
            count-nil 0,
          );
          peak = ground (arith, h.peak);
        };
        same =
            messages-snoc (update q.msg_ptr f p) (update q.msg_size f s) (x ∷ xs) f
            ∙ ap₂ (λ m c. m ++ c ∷ []) (messages-update q.msg_ptr q.msg_size f p s (x ∷ xs) once.0)
                (rw (==_refl f) refl);
      })

post_front :
    (q : MsgCells) (p s f x : ℕ) (xs free : List ℕ)
    → Holds q (x ∷ xs) (f ∷ free)
    → Contains (post q p s false) ((p, s) ∷ messages q.msg_ptr q.msg_size (x ∷ xs))
unfolding post
post_front q p s f x xs free h =
    let some_yet : (q.queue_current_msg == 0) ≡ false = ground (arith, h.counted) in
    let once = free_once f (x ∷ xs) free h.distinct in
    let start = h.freed.0 in
    rw (some_yet, start)
      (record {
        used = f ∷ x ∷ xs;
        free = free;
        holds = record {
          readable = (refl, Follows-front q.next q.read f (x ∷ xs) once.0 h.readable);
          written = h.written;
          freed =
              Linked-update q.next f q.read (q.next f) free once.1
                (Linked-tail q.next f free h.freed.1);
          counted = omega (arith, h.counted);
          room = omega (arith, h.room);
          distinct = λ a. omega (arith, h.distinct a, count-cons a f free, count-cons a f (x ∷ xs));
          valid = omega (arith, h.valid, count-cons 0 f free, count-cons 0 f (x ∷ xs));
          peak = ground (arith, h.peak);
        };
        same =
            ap₂ (λ c m. c ∷ m) (rw (==_refl f) refl)
              (messages-update q.msg_ptr q.msg_size f p s (x ∷ xs) once.0);
      })

post_cells :
    (q : MsgCells) (p s : ℕ) (used free : List ℕ) (to_end : Bool)
    → Holds q used free
    → q.queue_current_msg < q.queue_msg_size
    → Contains (post q p s to_end) (
        if to_end
        then messages q.msg_ptr q.msg_size used ++ (p, s) ∷ []
        else (p, s) ∷ messages q.msg_ptr q.msg_size used)
post_cells q p s [] [] to_end h lt = absurd (omega (arith, h.room))
post_cells q p s (x ∷ xs) [] to_end h lt = absurd (omega (arith, h.room, h.counted))
post_cells q p s [] (f ∷ free) true h lt = post_empty q p s f free true h
post_cells q p s [] (f ∷ free) false h lt = post_empty q p s f free false h
post_cells q p s (x ∷ xs) (f ∷ free) true h lt = post_end q p s f x xs free h
post_cells q p s (x ∷ xs) (f ∷ free) false h lt = post_front q p s f x xs free h

-- A post to a queue with a free cell puts the message at the end or, if asked to, at the front.
pub post-Contains :
    (q : MsgCells) (msgs : List (ℕ × ℕ)) (p_void size : ℕ) (to_end : Bool)
    → Contains q msgs
    → q.queue_current_msg < q.queue_msg_size
    → Contains
        (post q p_void size to_end)
        (if to_end then msgs ++ (p_void, size) ∷ [] else (p_void, size) ∷ msgs)
post-Contains q msgs p s to_end c lt =
    subst (λ m. Contains (post q p s to_end) (if to_end then m ++ (p, s) ∷ [] else (p, s) ∷ m))
      c.same (post_cells q p s c.used c.free to_end c.holds lt)
