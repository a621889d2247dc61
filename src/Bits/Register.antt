-- ===== src/Bits/Register.antt =====
-- The five tests that find the first one bit of a register.
use raw_os.Shared.{
  ℕ, zero, suc, ◌+◌, ◌-◌, ◌≤◌, ◌<◌, ◌≡◌, ap, true, false, arith, inl, inr, Bool-cases, dec_lt, sym,
  ◌∙◌,
}
use raw_os.Bits.{Word, any_below, narrow, first_one}

pub any_below-true : (n : ℕ) (v : Word) → any_below n v ≡ true → (i : ℕ) × (i < n) × (v i ≡ true)
unfolding any_below
any_below-true zero v h = cc
any_below-true (suc n) v h = elim (Bool-cases (any_below n v)) [
  | inl e ↦ let r = any_below-true n v e in (r.0, omega arith, r.2)
  | inr e ↦ (n, omega arith, ground arith)
]

pub any_below-false : (n : ℕ) (v : Word) (i : ℕ) → any_below n v ≡ false → i < n → v i ≡ false
unfolding any_below
any_below-false zero v i h lt = absurd (omega arith)
any_below-false (suc n) v i h lt = ground (arith, any_below-false n v i)

pub any_below-set : (n : ℕ) (v : Word) (i : ℕ) → i < n → v i ≡ true → any_below n v ≡ true
any_below-set n v i lt h = elim (Bool-cases (any_below n v)) [
  | inl e ↦ e
  | inr e ↦ let clear = any_below-false n v i e lt in cc
]

-- What the tests keep: `s.0` is `v` shifted by `s.1`, the bits below are clear, and one of the next
-- `n` is set.
record Window (v : Word) (n : ℕ) (s : Word × ℕ) : Type 0 where
  shifted : (i : ℕ) → s.0 i ≡ v (i + s.1)
  clear : (j : ℕ) → j < s.1 → v j ≡ false
  set : (i : ℕ) × (i < n) × (s.0 i ≡ true)
  bound : s.1 + n ≤ 32

narrow-Window :
    (v : Word) (n : ℕ) (w : Word) (p : ℕ) → Window v (n + n) (w, p) → Window v n (narrow n (w, p))
unfolding narrow
narrow-Window v n w p win = elim (Bool-cases (any_below n w)) [
  | inl e ↦ rw e (record {
    shifted = win.shifted;
    clear = win.clear;
    set = any_below-true n w e;
    bound = omega (arith, win.bound);
  })
  | inr e ↦ rw e (record {
    shifted = λ i. win.shifted (i + n) ∙ ap v (omega arith);
    clear = λ j h. lower e j h;
    set = upper e win.set;
    bound = omega (arith, win.bound);
  })
]
  where
    lower : any_below n w ≡ false → (j : ℕ) → j < p + n → v j ≡ false
    lower e j h = elim (dec_lt j p) [
      | yes b ↦ win.clear j b
      | no b ↦
          let back : j - p + p ≡ j = omega arith in
          let same : w (j - p) ≡ v j = win.shifted (j - p) ∙ ap v back in
          sym same ∙ any_below-false n w (j - p) e (omega arith)
    ]

    upper :
        any_below n w ≡ false
        → (i : ℕ) × (i < n + n) × (w i ≡ true)
        → (i : ℕ) × (i < n) × (w (i + n) ≡ true)
    upper e (i, lt, hit) = elim (dec_lt i n) [
      | yes b ↦ let no_bit = any_below-false n w i e b in cc
      | no b ↦ let back : i - n + n ≡ i = omega arith in (i - n, omega arith, ap w back ∙ hit)
    ]

-- The binary search finds the first bit of a register that is not zero.
pub first_one_lem :
    (v : Word)
    → any_below 32 v ≡ true
    → (first_one v < 32) × (v (first_one v) ≡ true) × ((j : ℕ) → j < first_one v → v j ≡ false)
unfolding first_one
first_one_lem v h = (omega (arith, last.bound), found, last.clear)
  where
    start : Window v 32 (v, 0)
    start = record {
      shifted = λ i. ap v (omega arith);
      clear = λ j b. absurd (omega arith);
      set = any_below-true 32 v h;
      bound = omega arith;
    }

    s : Word × ℕ
    s = narrow 1 (narrow 2 (narrow 4 (narrow 8 (narrow 16 (v, 0)))))

    last : Window v 1 s
    last = narrow-Window v 1 _ _ (
        narrow-Window v 2 _ _
          (narrow-Window v 4 _ _ (narrow-Window v 8 _ _ (narrow-Window v 16 _ _ start))))

    found : v s.1 ≡ true
    found =
        let zero_i : last.set.0 ≡ 0 = omega (arith, last.set.1) in
        let at : last.set.0 + s.1 ≡ s.1 = omega arith in
        sym (ap v at) ∙ sym (last.shifted last.set.0) ∙ last.set.2
