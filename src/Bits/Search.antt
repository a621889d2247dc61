-- ===== src/Bits/Search.antt =====
-- `bit_search_first_one` against a scan of the map, one bit at a time.
use raw_os.Shared.{
  ℕ, zero, suc, ◌+◌, ◌-◌, ◌*◌, ◌/◌, ◌%◌, ◌≤◌, ◌<◌, ◌≡◌, refl, ap, true, false, ◌&&◌, not, ltb, none,
  some, arith, ◌⊎◌, inl, inr, Bool-cases, dec_lt, sym, ◌∙◌,
}
use raw_os.Bits.{BitMap, Word, any_below, first_one, load, search_loop, bit_search_first_one}
use raw_os.Bits.Scan.{scan, scan-some, scan-none}
use raw_os.Bits.Register.{any_below-false, first_one_lem}

-- Once the loop is past the first word it stands at the start of a word, with all bits before clear.
search_loop-scan :
    (fuel : ℕ) (base : BitMap) (offset low width cp position : ℕ)
    → 0 < position
    → offset + position ≡ 32 * cp
    → ((j : ℕ) → j < position → base (offset + j) ≡ false)
    → width < fuel + position
    → search_loop fuel base low width cp (load base cp) position ≡ scan base offset width
unfolding search_loop load
search_loop-scan zero base offset low width cp position pos at clear more =
    sym (scan-none base offset width (λ j b. clear j (omega arith)))
search_loop-scan (suc fuel) base offset low width cp position pos at clear more =
    elim (dec_lt position width) [
      | no stop ↦
          let none_yet = scan-none base offset width (λ j b. clear j (omega arith)) in ground arith
      | yes go ↦ elim (Bool-cases (any_below 32 word)) [
        | inl e ↦
            let hit = first_one_lem word e in
            let here : 32 * cp + first_one word ≡ offset + (position + first_one word) =
              omega arith in
            let bit : base (offset + (position + first_one word)) ≡ true =
              ap base (sym here) ∙ in_word (first_one word) hit.1 in
            let before : (j : ℕ) → j < position + first_one word → base (offset + j) ≡ false =
              λ j b. earlier (first_one word) (omega arith) hit.2 j b in
            elim (dec_lt (position + first_one word) width) [
              | yes inside ↦
                  let r =
                    scan-some base offset (position + first_one word) width inside bit before in
                  ground arith
              | no outside ↦
                  let r = scan-none base offset width (λ j b. before j (omega arith)) in
                  ground arith
            ]
        | inr e ↦
            let ih =
              search_loop-scan fuel base offset low width (cp + 1) (position + 32) (omega arith)
                (omega arith) (earlier 32 (omega arith) (λ j b. any_below-false 32 word j e b))
                (omega arith) in
            ground (arith, ih)
      ]
    ]
  where
    word : Word
    word = load base cp

    in_word : (i : ℕ) → word i ≡ true → base (32 * cp + i) ≡ true
    in_word i h = ground arith

    earlier :
        (n : ℕ)
        → n ≤ 32
        → ((j : ℕ) → j < n → word j ≡ false)
        → (j : ℕ) → j < position + n
        → base (offset + j) ≡ false
    earlier n small none_below j b = elim (dec_lt j position) [
      | yes old ↦ clear j old
      | no new ↦
          let i : ℕ = j - position in
          let same : offset + j ≡ 32 * cp + i = omega arith in
          let bit = none_below i (omega arith) in ap base same ∙ ground (arith, bit)
    ]

-- The search returns the distance from `offset` to the first bit set among `width` bits of the map,
-- and -1 exactly when none of them is set.
pub bit_search-eq-scan :
    (base : BitMap) (offset width : ℕ)
    → bit_search_first_one base offset width ≡ scan base offset width
unfolding bit_search_first_one
bit_search-eq-scan base offset width = elim (dec_lt 0 width) [
  | no empty ↦
      let none_yet = scan-none base offset width (λ j b. absurd (omega arith)) in ground arith
  | yes go ↦ elim (Bool-cases (any_below 32 word)) [
    | inl e ↦
        let hit = first_one_lem word e in
        let above : low ≤ first_one word = low_le (first_one word) hit.1 in
        let here : 32 * cp + first_one word ≡ offset + (first_one word - low) = omega arith in
        let bit : base (offset + (first_one word - low)) ≡ true =
          ap base (sym here) ∙ in_word (first_one word) hit.1 in
        let before : (j : ℕ) → j < first_one word - low → base (offset + j) ≡ false =
          λ j b. clear (first_one word) (omega arith) hit.2 j (omega arith) in
        elim (dec_lt (first_one word - low) width) [
          | yes inside ↦
              let r = scan-some base offset (first_one word - low) width inside bit before in
              ground arith
          | no outside ↦
              let r = scan-none base offset width (λ j b. before j (omega arith)) in ground arith
        ]
    | inr e ↦
        let rest =
          search_loop-scan width base offset low width (cp + 1) (32 - low) (omega arith)
            (omega arith)
            (λ j b. clear 32 (omega arith) (λ i lt. any_below-false 32 word i e lt) j (omega arith))
            (omega arith) in
        ground (arith, rest)
  ]
]
  where
    low : ℕ
    low = offset % 32

    cp : ℕ
    cp = offset / 32

    word : Word
    word = λ i. load base cp i && not (ltb i low)

    in_word : (i : ℕ) → word i ≡ true → base (32 * cp + i) ≡ true
    in_word i h = ground arith

    low_le : (i : ℕ) → word i ≡ true → low ≤ i
    low_le i h = ground arith

    clear :
        (n : ℕ)
        → n ≤ 32
        → ((i : ℕ) → i < n → word i ≡ false)
        → (j : ℕ) → low + j < n
        → base (offset + j) ≡ false
    clear n small none_below j b =
        let same : offset + j ≡ 32 * cp + (low + j) = omega arith in
        let bit = none_below (low + j) b in ap base same ∙ ground (arith, bit)

-- The scan's result: the first bit set, or no bit set.
pub scan_lem :
    (base : BitMap) (offset n : ℕ)
    → ((i : ℕ) × (scan base offset n ≡ some i)
        × (i < n)
        × (base (offset + i) ≡ true)
        × ((j : ℕ) → j < i → base (offset + j) ≡ false))
      ⊎ ((scan base offset n ≡ none) × ((j : ℕ) → j < n → base (offset + j) ≡ false))
unfolding scan
scan_lem base offset zero = inr (refl, λ j b. absurd (omega arith))
scan_lem base offset (suc n) = elim (Bool-cases (base offset)) [
  | inl e ↦
      inl (0, ground arith, omega arith, ap base (omega arith) ∙ e, λ j b. absurd (omega arith))
  | inr e ↦ elim (scan_lem base (offset + 1) n) [
    | inl (i, found, inside, bit, before) ↦
        inl (i + 1, ground arith, omega arith, ap base (omega arith) ∙ bit, first e before)
    | inr (nothing, clear) ↦ inr (ground arith, λ j b. first e clear j (omega arith))
  ]
]
  where
    first :
        {m : ℕ}
        → base offset ≡ false
        → ((j : ℕ) → j < m → base (offset + 1 + j) ≡ false)
        → (j : ℕ) → j < m + 1
        → base (offset + j) ≡ false
    first e c zero b = ap base (omega arith) ∙ e
    first e c (suc j) b = ap base (omega arith) ∙ c j (omega arith)
