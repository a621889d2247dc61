-- ===== src/Bits/Scan.antt =====
-- A scan of the map, one bit at a time.
use raw_os.Shared.{
  ℕ, zero, suc, ◌+◌, ◌<◌, ◌≡◌, refl, true, false, if◌then◌else◌, Option, none, some, arith, subst,
}
use raw_os.Bits.{BitMap}

-- The distance from `offset` to the first bit that is set, among `width` bits.
unfoldable pub scan : BitMap → ℕ → ℕ → Option ℕ
scan base offset zero = none
scan base offset (suc n) =
    if base offset
    then some 0
    else elim (scan base (offset + 1) n) [ none ↦ none | some i ↦ some (i + 1) ]

pub scan-some :
    (base : BitMap) (offset i n : ℕ)
    → i < n
    → base (offset + i) ≡ true
    → ((j : ℕ) → j < i → base (offset + j) ≡ false)
    → scan base offset n ≡ some i
unfolding scan
scan-some base offset i zero h b c = absurd (omega arith)
scan-some base offset zero (suc n) h b c =
    rw (subst (λ z. base z ≡ true) (let e : offset + 0 ≡ offset = omega arith in e) b)
scan-some base offset (suc i) (suc n) h b c =
    let e : offset + 0 ≡ offset = omega arith in
    let first : base offset ≡ false = subst (λ z. base z ≡ false) e (c 0 (omega arith)) in
    let step : (j : ℕ) → offset + suc j ≡ offset + 1 + j = λ j. omega arith in
    let ih : scan base (offset + 1) n ≡ some i =
      scan-some base (offset + 1) i n (omega arith) (subst (λ z. base z ≡ true) (step i) b)
        (λ j hj. subst (λ z. base z ≡ false) (step j) (c (suc j) (omega arith))) in
    ground (arith, ih, first)

pub scan-none :
    (base : BitMap) (offset n : ℕ)
    → ((j : ℕ) → j < n → base (offset + j) ≡ false)
    → scan base offset n ≡ none
unfolding scan
scan-none base offset zero c = refl
scan-none base offset (suc n) c =
    let e : offset + 0 ≡ offset = omega arith in
    let first : base offset ≡ false = subst (λ z. base z ≡ false) e (c 0 (omega arith)) in
    let step : (j : ℕ) → offset + suc j ≡ offset + 1 + j = λ j. omega arith in
    let ih : scan base (offset + 1) n ≡ none =
      scan-none base (offset + 1) n
        (λ j hj. subst (λ z. base z ≡ false) (step j) (c (suc j) (omega arith))) in
    ground (arith, ih, first)
