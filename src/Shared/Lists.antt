-- ===== src/Shared/Lists.antt =====
-- Lists of addresses (tasks, blocks) measured by native numbers, and maps as functions.
use Prim.Native.Nat.{ℕ, zero, suc, ◌+◌, ◌≤◌, ◌<◌}
use mathlib.Core.Path.{◌≡◌, refl, ap}
use mathlib.Core.Logic.{◌≢◌}
use mathlib.Core.Bool.{Bool, true, false}
use mathlib.Core.List.{List, [], ◌∷◌, ◌++◌}
use mathlib.Core.Option.{Option, none, some}
use native.Mathlib.Omega.{arith}
use raw_os.Shared.Tests.{if◌then◌else◌, ◌==◌}

-- A store: what stands at each address. `update` writes one cell.
abbrev pub update {ℓ} : {A : Type ℓ} → (ℕ → A) → ℕ → A → ℕ → A
update f i v j = if i == j then v else f j

abbrev pub b2n : Bool → ℕ
b2n true = 1
b2n false = 0

module _ {ℓ} {A : Type ℓ} where
  abbrev pub length : List A → ℕ
  length [] = 0
  length (x ∷ xs) = suc (length xs)

  abbrev pub is_empty : List A → Bool
  is_empty [] = true
  is_empty (x ∷ xs) = false

  abbrev pub head? : List A → Option A
  head? [] = none
  head? (x ∷ xs) = some x

  pub length-append : (xs ys : List A) → length (xs ++ ys) ≡ length xs + length ys
  length-append [] ys = omega arith
  length-append (x ∷ xs) ys = omega (arith, length-append xs ys)

abbrev pub opt_is : Option ℕ → ℕ → Bool
opt_is none i = false
opt_is (some j) i = j == i

-- How often an address stands in a list: 1 for a member of a list with no repetition.
unfoldable pub count : ℕ → List ℕ → ℕ
count a [] = 0
count a (x ∷ xs) = b2n (x == a) + count a xs

-- The list without an address.
unfoldable pub erase : ℕ → List ℕ → List ℕ
erase a [] = []
erase a (x ∷ xs) = if x == a then erase a xs else x ∷ erase a xs

pub count-nil : (a : ℕ) → count a [] ≡ 0
unfolding count
count-nil a = refl

pub count-cons : (a x : ℕ) (xs : List ℕ) → count a (x ∷ xs) ≡ b2n (x == a) + count a xs
unfolding count
count-cons a x xs = refl

pub count-append : (a : ℕ) (xs ys : List ℕ) → count a (xs ++ ys) ≡ count a xs + count a ys
unfolding count
count-append a [] ys = omega arith
count-append a (x ∷ xs) ys = omega (arith, count-append a xs ys)

pub count-snoc : (a x : ℕ) (xs : List ℕ) → count a (xs ++ x ∷ []) ≡ count a xs + b2n (x == a)
unfolding count
count-snoc a x xs = omega (arith, count-append a xs (x ∷ []))

pub count-erase :
    (a b : ℕ) (xs : List ℕ) → count a (erase b xs) ≡ (if b == a then 0 else count a xs)
unfolding count erase
count-erase a b [] = ground arith
count-erase a b (x ∷ xs) = ground (arith, count-erase a b xs)

pub erase_of_count : (a : ℕ) (xs : List ℕ) → count a xs ≡ 0 → erase a xs ≡ xs
unfolding count erase
erase_of_count a [] h = refl
erase_of_count a (x ∷ xs) h = ground (arith, erase_of_count a xs)

pub erase_middle :
    (a : ℕ) (xs ys : List ℕ) → count a (xs ++ a ∷ ys) ≡ 1 → erase a (xs ++ a ∷ ys) ≡ xs ++ ys
unfolding count erase
erase_middle a [] ys h = ground (arith, erase_of_count a ys)
erase_middle a (x ∷ xs) ys h =
    ground (arith, erase_middle a xs ys, count-append a xs (a ∷ ys), count-cons a a ys)

pub length-erase-le : (a : ℕ) (xs : List ℕ) → length (erase a xs) ≤ length xs
unfolding erase
length-erase-le a [] = omega arith
length-erase-le a (x ∷ xs) = ground (arith, length-erase-le a xs)

pub erase_head : (a : ℕ) (xs : List ℕ) → count a (a ∷ xs) ≡ 1 → erase a (a ∷ xs) ≡ xs
unfolding count erase
erase_head a xs h = ground (arith, erase_of_count a xs)

pub not-empty_of_count : (a : ℕ) (l : List ℕ) → count a l ≡ 1 → is_empty l ≡ false
unfolding count
not-empty_of_count a [] h = absurd (omega arith)
not-empty_of_count a (x ∷ l) h = refl

module _ {ℓ} {A : Type ℓ} where
  abbrev pub get_or : List A → ℕ → A → A
  get_or [] i d = d
  get_or (x ∷ xs) zero d = x
  get_or (x ∷ xs) (suc i) d = get_or xs i d

  -- A write out of bounds changes nothing.
  abbrev pub set : List A → ℕ → A → List A
  set [] i v = []
  set (x ∷ xs) zero v = v ∷ xs
  set (x ∷ xs) (suc i) v = x ∷ set xs i v

  pub length-set : (xs : List A) (i : ℕ) (v : A) → length (set xs i v) ≡ length xs
  length-set [] i v = refl
  length-set (x ∷ xs) zero v = refl
  length-set (x ∷ xs) (suc i) v = ap suc (length-set xs i v)

  pub get_or-set_self :
      (xs : List A) (i : ℕ) (v d : A) → i < length xs → get_or (set xs i v) i d ≡ v
  get_or-set_self [] i v d h = absurd (omega arith)
  get_or-set_self (x ∷ xs) zero v d h = refl
  get_or-set_self (x ∷ xs) (suc i) v d h = get_or-set_self xs i v d (omega arith)

  pub get_or-set_ne :
      (xs : List A) {i j : ℕ} (v d : A) → i ≢ j → get_or (set xs i v) j d ≡ get_or xs j d
  get_or-set_ne [] v d h = refl
  get_or-set_ne (x ∷ xs) {i = zero} {j = zero} v d h = absurd (h refl)
  get_or-set_ne (x ∷ xs) {i = zero} {j = suc j} v d h = refl
  get_or-set_ne (x ∷ xs) {i = suc i} {j = zero} v d h = refl
  get_or-set_ne (x ∷ xs) {i = suc i} {j = suc j} v d h = get_or-set_ne xs v d (λ e. h (ap suc e))

-- An address that is not in a list differs from each of its entries.
pub absent_induction :
    (R : List ℕ → Type 0) (a : ℕ)
    → R []
    → ((x : ℕ) (xs : List ℕ) → (a == x) ≡ false → R xs → R (x ∷ xs))
    → (xs : List ℕ) → count a xs ≡ 0
    → R xs
unfolding count
absent_induction R a base step [] h = base
absent_induction R a base step (x ∷ xs) h =
    step x xs (ground arith) (absent_induction R a base step xs (ground arith))

pub append_snoc {ℓ} :
    {A : Type ℓ} (xs : List A) (x : A) (ys : List A) → (xs ++ x ∷ []) ++ ys ≡ xs ++ x ∷ ys
append_snoc [] x ys = refl
append_snoc (a ∷ xs) x ys = ap (a ∷◌) (append_snoc xs x ys)
