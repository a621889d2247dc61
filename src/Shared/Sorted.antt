-- ===== src/Shared/Sorted.antt =====
-- Lists of addresses sorted by a key, and insertion behind the equal keys.
use Prim.Native.Nat.{ℕ, ◌≤◌, ◌<◌}
use mathlib.Core.Path.{◌≡◌, refl, ap}
use mathlib.Core.Bool.{false}
use mathlib.Core.Logic.{inl, inr}
use raw_os.Shared.Tests.{if◌then◌else◌, ltb, Bool-cases}
use mathlib.Core.List.{List, [], ◌∷◌, ◌++◌}
use native.Mathlib.Omega.{arith}

abbrev pub All : (ℕ → Type 0) → List ℕ → Type 0
All P [] = Unit
All P (x ∷ xs) = P x × All P xs

pub All-map : (P Q : ℕ → Type 0) (xs : List ℕ) → ((x : ℕ) → P x → Q x) → All P xs → All Q xs
All-map P Q [] f h = tt
All-map P Q (x ∷ xs) f h = (f x h.0, All-map P Q xs f h.1)

abbrev pub IsSorted : (ℕ → ℕ) → List ℕ → Type 0
IsSorted key [] = Unit
IsSorted key (x ∷ xs) = All (λ y. key x ≤ key y) xs × IsSorted key xs

-- `t` stands behind the entries whose key is at most `val`, and before the others.
pub record Inserted (key : ℕ → ℕ) (val t : ℕ) (l result : List ℕ) : Type 0 where
  pub ahead : List ℕ
  pub behind : List ℕ
  pub was : l ≡ ahead ++ behind
  pub is : result ≡ ahead ++ t ∷ behind
  pub not_later : All (λ q. key q ≤ val) ahead
  pub later : All (λ q. val < key q) behind

module _ (key : ℕ → ℕ) (val t : ℕ) where
  pub Inserted-here : (l : List ℕ) → All (λ q. val < key q) l → Inserted key val t l (t ∷ l)
  Inserted-here l h = record {
    ahead = [];
    behind = l;
    was = refl;
    is = refl;
    not_later = tt;
    later = h;
  }

  pub Inserted-cons :
      (q : ℕ) (l result : List ℕ)
      → key q ≤ val
      → Inserted key val t l result
      → Inserted key val t (q ∷ l) (q ∷ result)
  Inserted-cons q l result h i = record {
    ahead = q ∷ i.ahead;
    behind = i.behind;
    was = ap (◌∷◌ q) i.was;
    is = ap (◌∷◌ q) i.is;
    not_later = (h, i.not_later);
    later = i.later;
  }

-- Insertion before the first entry of a greater key.
abbrev pub insert_by : (ℕ → ℕ) → ℕ → ℕ → List ℕ → List ℕ
insert_by key val t [] = t ∷ []
insert_by key val t (q ∷ rest) =
    let behind = q ∷ insert_by key val t rest in if ltb val (key q) then t ∷ q ∷ rest else behind

pub insert_by-Inserted :
    (key : ℕ → ℕ) (val t : ℕ) (l : List ℕ)
    → IsSorted key l
    → Inserted key val t l (insert_by key val t l)
insert_by-Inserted key val t [] s = Inserted-here key val t [] tt
insert_by-Inserted key val t (q ∷ rest) s = elim (Bool-cases (ltb val (key q))) [
  | inl e ↦ rw e (
      Inserted-here key val t (q ∷ rest) (
        ground arith,
        All-map (λ y. key q ≤ key y) (λ y. val < key y) rest (λ y le. ground arith) s.0,
      ))
  | inr e ↦
      rw e (Inserted-cons key val t q rest _ (ground arith) (insert_by-Inserted key val t rest s.1))
]

-- Entries of no greater key stay in front.
pub insert_by-append :
    (key : ℕ → ℕ) (val t : ℕ) (xs ys : List ℕ)
    → All (λ q. key q ≤ val) xs
    → insert_by key val t (xs ++ ys) ≡ xs ++ insert_by key val t ys
insert_by-append key val t [] ys h = refl
insert_by-append key val t (x ∷ xs) ys h =
    let e : ltb val (key x) ≡ false = ground (arith, h.0) in
    rw e (ap (◌∷◌ x) (insert_by-append key val t xs ys h.1))

All-append : (P : ℕ → Type 0) (xs ys : List ℕ) → All P (xs ++ ys) → All P xs × All P ys
All-append P [] ys h = (tt, h)
All-append P (x ∷ xs) ys h = let r = All-append P xs ys h.1 in ((h.0, r.0), r.1)

All-insert :
    (P : ℕ → Type 0) (t : ℕ) (xs ys : List ℕ) → P t → All P (xs ++ ys) → All P (xs ++ t ∷ ys)
All-insert P t [] ys p h = (p, h)
All-insert P t (x ∷ xs) ys p h = (h.0, All-insert P t xs ys p h.1)

IsSorted-insert :
    (key : ℕ → ℕ) (t : ℕ) (xs ys : List ℕ)
    → All (λ q. key q ≤ key t) xs
    → All (λ q. key t < key q) ys
    → IsSorted key (xs ++ ys)
    → IsSorted key (xs ++ t ∷ ys)
IsSorted-insert key t [] ys low high s =
    (All-map (λ q. key t < key q) (λ q. key t ≤ key q) ys (λ q lt. omega arith) high, s)
IsSorted-insert key t (x ∷ xs) ys low high s =
    (All-insert (λ y. key x ≤ key y) t xs ys low.0 s.0, IsSorted-insert key t xs ys low.1 high s.1)

-- The list stays sorted.
pub Inserted-IsSorted :
    (key : ℕ → ℕ) (t : ℕ) (l result : List ℕ)
    → Inserted key (key t) t l result
    → IsSorted key l
    → IsSorted key result
Inserted-IsSorted key t l result i s =
    rw i.is (IsSorted-insert key t i.ahead i.behind i.not_later i.later (rw i.was at s))

All-le-congr :
    (key key' : ℕ → ℕ) (x : ℕ) (l : List ℕ)
    → key x ≡ key' x
    → All (λ q. key q ≡ key' q) l
    → All (λ y. key x ≤ key y) l
    → All (λ y. key' x ≤ key' y) l
All-le-congr key key' x [] e same h = tt
All-le-congr key key' x (y ∷ l) e same h =
    (omega (arith, same.0, h.0), All-le-congr key key' x l e same.1 h.1)

-- A key that agrees on the list sorts it too.
pub IsSorted-congr :
    (key key' : ℕ → ℕ) (l : List ℕ) → All (λ q. key q ≡ key' q) l → IsSorted key l → IsSorted key' l
IsSorted-congr key key' [] same s = tt
IsSorted-congr key key' (x ∷ l) same s =
    (All-le-congr key key' x l same.0 same.1 s.0, IsSorted-congr key key' l same.1 s.1)
