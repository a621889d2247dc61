-- ===== src/Shared/Chain.antt =====
-- Singly linked nodes: the list of the nodes that a chain of links leads through. The link of the
-- last node is free, as a count says where the chain ends.
use Prim.Native.Nat.{ℕ, zero, suc, ◌+◌, ◌≤◌, ◌<◌}
use mathlib.Core.Path.{◌≡◌, refl, ap, subst}
use mathlib.Core.Bool.{false}
use mathlib.Core.Logic.{inl, inr}
use mathlib.Core.List.{List, [], ◌∷◌, ◌++◌}
use native.Mathlib.Omega.{arith}
use raw_os.Shared.Tests.{◌==◌, ==_refl, Bool-cases}
use raw_os.Shared.Lists.{update, count, count-cons, count-nil, length}

-- From `x` the links lead through `xs`.
abbrev pub Follows : (ℕ → ℕ) → ℕ → List ℕ → Type 0
Follows next x [] = Unit
Follows next x (y ∷ ys) = (next x ≡ y) × Follows next y ys

-- The chain that starts at the pointer `p`; a chain of no nodes may start anywhere.
abbrev pub Linked : (ℕ → ℕ) → ℕ → List ℕ → Type 0
Linked next p [] = Unit
Linked next p (x ∷ xs) = (p ≡ x) × Follows next x xs

abbrev pub last : ℕ → List ℕ → ℕ
last x [] = x
last x (y ∷ ys) = last y ys

-- A link that is not of a node of the chain may change.
pub Follows-update :
    (next : ℕ → ℕ) (a v x : ℕ) (xs : List ℕ)
    → count a (x ∷ xs) ≡ 0
    → Follows next x xs
    → Follows (update next a v) x xs
Follows-update next a v x [] out f = tt
Follows-update next a v x (y ∷ ys) out f =
    let c = count-cons a x (y ∷ ys) in
    let ne : (a == x) ≡ false = ground arith in
    (rw ne f.0, Follows-update next a v y ys (omega (arith, out, c)) f.1)

pub Linked-update :
    (next : ℕ → ℕ) (a v p : ℕ) (xs : List ℕ)
    → count a xs ≡ 0
    → Linked next p xs
    → Linked (update next a v) p xs
Linked-update next a v p [] out l = tt
Linked-update next a v p (x ∷ xs) out l = (l.0, Follows-update next a v x xs out l.1)

pub count-last : (x : ℕ) (xs : List ℕ) → 1 ≤ count (last x xs) (x ∷ xs)
count-last x [] = let r = ==_refl x in ground (arith, count-cons x x [])
count-last x (y ∷ ys) = omega (arith, count-last y ys, count-cons (last y ys) x (y ∷ ys))

pub last-snoc : (x : ℕ) (xs : List ℕ) (a : ℕ) → last x (xs ++ a ∷ []) ≡ a
last-snoc x [] a = refl
last-snoc x (y ∷ ys) a = last-snoc y ys a

pub last-append : (x y : ℕ) (xs ys : List ℕ) → last x (xs ++ y ∷ ys) ≡ last y ys
last-append x y [] ys = refl
last-append x y (z ∷ xs) ys = last-append z y xs ys

-- The last link leads to the start of another chain.
pub Follows-append :
    (next : ℕ → ℕ) (p x : ℕ) (xs ys : List ℕ)
    → count (last x xs) (x ∷ xs) ≡ 1
    → count (last x xs) ys ≡ 0
    → Follows next x xs
    → Linked next p ys
    → Follows (update next (last x xs) p) x (xs ++ ys)
Follows-append next p x [] [] once out f l = tt
Follows-append next p x [] (y ∷ ys) once out f l =
    (rw (==_refl x) l.0, Follows-update next x p y ys out l.1)
Follows-append next p x (z ∷ zs) ys once out f l =
    let c = count-cons (last z zs) x (z ∷ zs) in
    let m = count-last z zs in
    let ne : (last z zs == x) ≡ false = ground (arith, once, c, m) in
    (rw ne f.0, Follows-append next p z zs ys (omega (arith, once, c, m)) out f.1 l)

-- The links behind the first node.
pub Linked-tail : (next : ℕ → ℕ) (p : ℕ) (xs : List ℕ) → Follows next p xs → Linked next (next p) xs
Linked-tail next p [] f = tt
Linked-tail next p (x ∷ xs) f = f

-- A node that is linked to the start of a chain.
pub Follows-front :
    (next : ℕ → ℕ) (p b : ℕ) (xs : List ℕ)
    → count b xs ≡ 0
    → Linked next p xs
    → Follows (update next b p) b xs
Follows-front next p b [] out l = tt
Follows-front next p b (x ∷ xs) out l = (rw (==_refl b) l.0, Follows-update next b p x xs out l.1)

-- The link of the last node may change.
append_nil : (xs : List ℕ) → xs ++ [] ≡ xs
append_nil [] = refl
append_nil (x ∷ xs) = ap (x ∷◌) (append_nil xs)

pub Follows-update-last :
    (next : ℕ → ℕ) (v x : ℕ) (xs : List ℕ)
    → count (last x xs) (x ∷ xs) ≡ 1
    → Follows next x xs
    → Follows (update next (last x xs) v) x xs
Follows-update-last next v x xs once f =
    subst (Follows (update next (last x xs) v) x) (append_nil xs)
      (Follows-append next v x xs [] once (count-nil (last x xs)) f tt)

-- `n` blocks of a size, from an address up.
abbrev pub blocks_from : ℕ → ℕ → ℕ → List ℕ
blocks_from size zero p = []
blocks_from size (suc n) p = p ∷ blocks_from size n (p + size)

pub length-blocks_from : (size n p : ℕ) → length (blocks_from size n p) ≡ n
length-blocks_from size zero p = refl
length-blocks_from size (suc n) p = ap suc (length-blocks_from size n (p + size))

-- An address below the first block is of none, and each block is listed once.
pub blocks_from_below : (size n p a : ℕ) → a < p → count a (blocks_from size n p) ≡ 0
blocks_from_below size zero p a lt = count-nil a
blocks_from_below size (suc n) p a lt =
    ground
      (arith, count-cons a p (blocks_from size n (p + size)), blocks_from_below size n (p + size) a)

pub blocks_from_distinct : (size n p a : ℕ) → 0 < size → count a (blocks_from size n p) ≤ 1
blocks_from_distinct size zero p a pos = omega (arith, count-nil a)
blocks_from_distinct size (suc n) p a pos =
    let c = count-cons a p (blocks_from size n (p + size)) in
    elim (Bool-cases (p == a)) [
      | inl e ↦ ground (arith, c, blocks_from_below size n (p + size) a)
      | inr e ↦ ground (arith, c, blocks_from_distinct size n (p + size) a pos)
    ]
