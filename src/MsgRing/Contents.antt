-- ===== src/MsgRing/Contents.antt =====
-- The ring as the list of its messages, oldest first.
use raw_os.Shared.{
  ℕ, zero, suc, ◌+◌, ◌-◌, ◌≤◌, ◌<◌, ◌≡◌, refl, sym, ◌∙◌, ap, ltb, if◌then◌else◌, List, [], ◌∷◌,
  ◌++◌, get_or, set, length, length-set, get_or-set_self, get_or-set_ne, arith,
}
use raw_os.MsgRing.{MsgQ, next, before, create, post_end, post_front, receive, flush}

-- The index `n` places behind `i`, for `i` below the size and `n` at most the size.
abbrev pub wrap : ℕ → ℕ → ℕ
wrap size i = if ltb i size then i else i - size

-- The `n` messages from index `i` on.
abbrev pub window : List ℕ → ℕ → ℕ → ℕ → List ℕ
window storage size i zero = []
window storage size i (suc n) = get_or storage i 0 ∷ window storage size (next size i) n

abbrev pub contents : MsgQ → List ℕ
contents q = window q.storage q.size q.read q.current_numbers

pub record IsValid (q : MsgQ) : Type 0 where
  pub stored : length q.storage ≡ q.size
  pub read_in : q.read < q.size
  pub fits : q.current_numbers ≤ q.size
  pub write_at : q.write ≡ wrap q.size (q.read + q.current_numbers)
  pub peak : q.current_numbers ≤ q.peak_numbers

-- A write behind the window leaves it as it is.
window-set :
    (storage : List ℕ) (size x i n m at : ℕ)
    → i < size
    → n ≤ m
    → m < size
    → at ≡ wrap size (i + m)
    → window (set storage at x) size i n ≡ window storage size i n
window-set storage size x i zero m at hi hn hm e = refl
window-set storage size x i (suc n) m at hi hn hm e =
    let here : get_or (set storage at x) i 0 ≡ get_or storage i 0 =
      get_or-set_ne storage x 0 (ground arith) in
    let rest =
      window-set storage size x (next size i) n (m - 1) at (ground arith) (omega arith)
        (omega arith) (ground arith) in
    λ j. here j ∷ rest j

-- The window with one message more.
window-suc :
    (storage : List ℕ) (size i n : ℕ)
    → i < size
    → n < size
    → window storage size i (suc n)
      ≡ window storage size i n ++ get_or storage (wrap size (i + n)) 0 ∷ []
window-suc storage size i zero hi hn = ap (λ j. get_or storage j 0 ∷ []) (ground arith)
window-suc storage size i (suc n) hi hn = ap (get_or storage i 0 ∷◌) (
    window-suc storage size (next size i) n (ground arith) (omega arith)
    ∙ ap (λ j. window storage size (next size i) n ++ get_or storage j 0 ∷ []) (ground arith))

-- A post to the end of a ring that is not full appends the message.
pub contents-post_end :
    (q : MsgQ) (msg : ℕ)
    → IsValid q
    → q.current_numbers < q.size
    → contents (post_end q msg) ≡ contents q ++ msg ∷ []
unfolding post_end
contents-post_end q msg v room =
    ap (window stored size read) count
    ∙ window-suc stored size read n v.read_in room
    ∙ (λ j. kept j ++ at_end j ∷ [])
  where
    open q use {size, read, current_numbers as n}

    stored : List ℕ
    stored = set q.storage q.write msg

    count : n + 1 ≡ suc n
    count = omega arith

    kept : window stored size read n ≡ window q.storage size read n
    kept = window-set q.storage size msg read n n q.write v.read_in (omega arith) room v.write_at

    at_end : get_or stored (wrap size (read + n)) 0 ≡ msg
    at_end =
        ap (λ j. get_or stored j 0) (sym v.write_at)
        ∙ get_or-set_self q.storage q.write msg 0 (ground arith)

-- A post to the front of a ring that is not full puts the message first.
pub contents-post_front :
    (q : MsgQ) (msg : ℕ)
    → IsValid q
    → q.current_numbers < q.size
    → contents (post_front q msg) ≡ msg ∷ contents q
unfolding post_front
contents-post_front q msg v room =
    ap (window stored size at) count ∙ (λ j. at_front j ∷ (shifted ∙ kept) j)
  where
    open q use {size, read, current_numbers as n}

    at : ℕ
    at = before size read

    stored : List ℕ
    stored = set q.storage at msg

    count : n + 1 ≡ suc n
    count = omega arith

    at_front : get_or stored at 0 ≡ msg
    at_front = get_or-set_self q.storage at msg 0 (ground arith)

    shifted : window stored size (next size at) n ≡ window stored size read n
    shifted = ap (λ i. window stored size i n) (ground arith)

    kept : window stored size read n ≡ window q.storage size read n
    kept =
        window-set q.storage size msg read n (size - 1) at v.read_in (omega arith) (omega arith)
          (ground arith)

pub post-IsValid :
    (q : MsgQ) (msg : ℕ)
    → IsValid q
    → q.current_numbers < q.size
    → IsValid (post_end q msg) × IsValid (post_front q msg)
unfolding post_end post_front
post-IsValid q msg v room =
    ground
      (arith, length-set q.storage q.write msg, length-set q.storage (before q.size q.read) msg)

-- A receive from a ring that is not empty takes the first message, and leaves the others.
pub contents-receive :
    (q : MsgQ)
    → IsValid q
    → 0 < q.current_numbers
    → (contents q ≡ (receive q).0 ∷ contents (receive q).1) × IsValid (receive q).1
unfolding receive
contents-receive q v some_left = (ap (window q.storage q.size q.read) count, ground arith)
  where
    count : q.current_numbers ≡ suc (q.current_numbers - 1)
    count = omega arith

pub flush-IsValid : (q : MsgQ) → IsValid q → IsValid (flush q) × (contents (flush q) ≡ [])
unfolding flush
flush-IsValid q v = (ground arith, refl)

pub create-IsValid :
    (msg_start : List ℕ) (number : ℕ)
    → length msg_start ≡ number
    → 0 < number
    → IsValid (create msg_start number) × (contents (create msg_start number) ≡ [])
unfolding create
create-IsValid msg_start number e some_room = (ground arith, refl)
