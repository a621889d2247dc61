-- ===== src/MsgCells/Contents.antt =====
-- The cells of a sized queue as the list of its messages, each with its size.
use raw_os.Shared.{
  ℕ, suc, ◌+◌, ◌≤◌, ◌≡◌, refl, ap, List, [], ◌∷◌, ◌++◌, length, arith, update, count, count-cons,
  count-nil, count-append, ==_refl, Linked, last, count-last, absent_induction,
}
use raw_os.MsgCells.{MsgCells}

-- `write` points to the last of the used cells.
abbrev pub LastIs : ℕ → List ℕ → Type 0
LastIs w [] = Unit
LastIs w (x ∷ xs) = w ≡ last x xs

-- The used cells in the order of their messages, and the free cells.
pub record Holds (q : MsgCells) (used free : List ℕ) : Type 0 where
  pub readable : Linked q.next q.read used
  pub written : LastIs q.write used
  pub freed : Linked q.next q.free_msg free
  pub counted : q.queue_current_msg ≡ length used
  pub room : q.queue_msg_size ≡ length used + length free
  pub distinct : (a : ℕ) → count a used + count a free ≤ 1
  pub valid : count 0 used + count 0 free ≡ 0
  pub peak : q.queue_current_msg ≤ q.peak_numbers

abbrev pub messages : (ℕ → ℕ) → (ℕ → ℕ) → List ℕ → List (ℕ × ℕ)
messages msg_ptr msg_size [] = []
messages msg_ptr msg_size (x ∷ xs) = (msg_ptr x, msg_size x) ∷ messages msg_ptr msg_size xs

-- The queue holds these messages, oldest first, and the rest of its cells are free.
pub record Contains (q : MsgCells) (msgs : List (ℕ × ℕ)) : Type 0 where
  pub used : List ℕ
  pub free : List ℕ
  pub holds : Holds q used free
  pub same : messages q.msg_ptr q.msg_size used ≡ msgs

pub length-messages :
    (msg_ptr msg_size : ℕ → ℕ) (xs : List ℕ) → length (messages msg_ptr msg_size xs) ≡ length xs
length-messages msg_ptr msg_size [] = refl
length-messages msg_ptr msg_size (x ∷ xs) = ap suc (length-messages msg_ptr msg_size xs)

pub messages-snoc :
    (msg_ptr msg_size : ℕ → ℕ) (xs : List ℕ) (x : ℕ)
    → messages msg_ptr msg_size (xs ++ x ∷ [])
      ≡ messages msg_ptr msg_size xs ++ (msg_ptr x, msg_size x) ∷ []
messages-snoc msg_ptr msg_size [] x = refl
messages-snoc msg_ptr msg_size (y ∷ ys) x =
    ap ((msg_ptr y, msg_size y) ∷◌) (messages-snoc msg_ptr msg_size ys x)

-- A write to a cell that is not used changes no message.
pub messages-update :
    (msg_ptr msg_size : ℕ → ℕ) (a p s : ℕ) (xs : List ℕ)
    → count a xs ≡ 0
    → messages (update msg_ptr a p) (update msg_size a s) xs ≡ messages msg_ptr msg_size xs
messages-update msg_ptr msg_size a p s =
    absent_induction
      (λ xs. messages (update msg_ptr a p) (update msg_size a s) xs ≡ messages msg_ptr msg_size xs)
      a refl (λ x xs ne rest. rw (ne, rest) refl)

-- The parts of `Holds` about the counts, after a post.
pub posted-distinct :
    (f : ℕ) (used free : List ℕ)
    → ((a : ℕ) → count a used + count a (f ∷ free) ≤ 1)
    → (a : ℕ) → count a (used ++ f ∷ []) + count a free ≤ 1
posted-distinct f used free d a =
    omega (
      arith,
      d a,
      count-append a used (f ∷ []),
      count-cons a f free,
      count-cons a f [],
      count-nil a,
    )

-- A cell that is free is not used, and not free twice.
pub free_once :
    (f : ℕ) (used free : List ℕ)
    → ((a : ℕ) → count a used + count a (f ∷ free) ≤ 1)
    → (count f used ≡ 0) × (count f free ≡ 0)
free_once f used free d =
    let c = count-cons f f free in
    let r = ==_refl f in (ground (arith, d f, c), ground (arith, d f, c))

-- The last used cell is used once, and not free.
pub last_once :
    (x : ℕ) (xs free : List ℕ)
    → ((a : ℕ) → count a (x ∷ xs) + count a free ≤ 1)
    → (count (last x xs) (x ∷ xs) ≡ 1) × (count (last x xs) free ≡ 0)
last_once x xs free d =
    let m = count-last x xs in (omega (arith, d (last x xs), m), omega (arith, d (last x xs), m))
