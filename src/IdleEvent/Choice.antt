-- ===== src/IdleEvent/Choice.antt =====
-- The object that `idle_run` takes an event of.
use raw_os.Shared.{
  ℕ, ◌+◌, ◌*◌, ◌/◌, ◌%◌, ◌<◌, ◌≡◌, refl, ◌∙◌, ap, Bool, true, false, ◌==◌, if◌then◌else◌, ◌&&◌,
  ==_iff, arith, b2n, get_or,
}
use raw_os.Bits.{Word}
use raw_os.IdleEvent.{IdleEvents, raw_idle_map_table, byte_value, idle_high_priority}

-- Bit `b` is the lowest that is set.
pub record IsLowest (w : Word) (b : ℕ) : Type 0 where
  pub in_byte : b < 8
  pub is_set : w b ≡ true
  pub clear_below : (i : ℕ) → i < b → w i ≡ false

abbrev every : (Bool → Bool) → Bool
every f = f false && f true

every_at : (f : Bool → Bool) (b : Bool) → every f ≡ true → f b ≡ true
every_at f true e = ground arith
every_at f false e = ground arith

-- The lowest bit that is set, or 8.
abbrev lowest_of : (b0 b1 b2 b3 b4 b5 b6 b7 : Bool) → ℕ
lowest_of b0 b1 b2 b3 b4 b5 b6 b7 =
    if b0
    then 0
    else if b1
    then 1
    else if b2
    then 2
    else if b3
    then 3
    else if b4
    then 4
    else if b5
    then 5
    else if b6
    then 6
    else if b7
    then 7
    else 8

abbrev bits_value : (b0 b1 b2 b3 b4 b5 b6 b7 : Bool) → ℕ
bits_value b0 b1 b2 b3 b4 b5 b6 b7 =
    b2n b0
    + 2 * b2n b1
    + 4 * b2n b2
    + 8 * b2n b3
    + 16 * b2n b4
    + 32 * b2n b5
    + 64 * b2n b6
    + 128 * b2n b7

abbrev table_right : (b0 b1 b2 b3 b4 b5 b6 b7 : Bool) → Bool
table_right b0 b1 b2 b3 b4 b5 b6 b7 =
    get_or raw_idle_map_table (bits_value b0 b1 b2 b3 b4 b5 b6 b7) 0
    == 8 * (lowest_of b0 b1 b2 b3 b4 b5 b6 b7 % 8)

-- The table is right at each of its 256 entries.
table_check :
    every (λ b7. every (λ b6. every (λ b5. every (λ b4.
      every
        (λ b3. every (λ b2. every (λ b1. every (λ b0. table_right b0 b1 b2 b3 b4 b5 b6 b7))))))))
    ≡ true
table_check = refl

table_word : (w : Word) → table_right (w 0) (w 1) (w 2) (w 3) (w 4) (w 5) (w 6) (w 7) ≡ true
table_word w =
    every_at (λ b0. table_right b0 (w 1) (w 2) (w 3) (w 4) (w 5) (w 6) (w 7)) (w 0)
      (every_at (λ b1. every (λ b0. table_right b0 b1 (w 2) (w 3) (w 4) (w 5) (w 6) (w 7))) (w 1)
        (every_at
          (λ b2. every (λ b1. every (λ b0. table_right b0 b1 b2 (w 3) (w 4) (w 5) (w 6) (w 7))))
          (w 2)
          (every_at
            (λ b3.
              every
                (λ b2. every (λ b1. every (λ b0. table_right b0 b1 b2 b3 (w 4) (w 5) (w 6) (w 7)))))
            (w 3)
            (every_at
              (λ b4. every (λ b3.
                every
                  (λ b2. every (λ b1. every (λ b0. table_right b0 b1 b2 b3 b4 (w 5) (w 6) (w 7))))))
              (w 4)
              (every_at
                (λ b5. every (λ b4. every (λ b3.
                  every
                    (λ b2. every (λ b1. every (λ b0. table_right b0 b1 b2 b3 b4 b5 (w 6) (w 7)))))))
                (w 5)
                (every_at
                  (λ b6. every (λ b5. every (λ b4. every (λ b3.
                    every
                      (λ b2. every (λ b1. every (λ b0. table_right b0 b1 b2 b3 b4 b5 b6 (w 7))))))))
                  (w 6)
                  (every_at
                    (λ b7. every (λ b6. every (λ b5. every (λ b4. every (λ b3.
                      every
                        (λ b2. every (λ b1. every (λ b0. table_right b0 b1 b2 b3 b4 b5 b6 b7))))))))
                    (w 7) (table_check))))))))

lowest_word :
    (w : Word) (b : ℕ)
    → IsLowest w b
    → lowest_of (w 0) (w 1) (w 2) (w 3) (w 4) (w 5) (w 6) (w 7) ≡ b
lowest_word w b l = ground (
  arith,
  l.in_byte,
  l.is_set,
  l.clear_below 0,
  l.clear_below 1,
  l.clear_below 2,
  l.clear_below 3,
  l.clear_below 4,
  l.clear_below 5,
  l.clear_below 6,
  l.clear_below 7,
)

abbrev lookup : Word → ℕ
lookup w = get_or raw_idle_map_table (byte_value w) 0

table_lem : (w : Word) (b : ℕ) → IsLowest w b → lookup w ≡ 8 * b
table_lem w b l =
    let t : lookup w ≡ 8 * (b % 8) =
      equal (table_word w) ∙ ap (λ n. 8 * (n % 8)) (lowest_word w b l) in
    t ∙ omega (arith, l.in_byte)
  where
    equal : {x y : ℕ} → (x == y) ≡ true → x ≡ y
    equal {x} {y} e = (==_iff x y).0 e

-- With `g` the lowest group that is flagged and `b` the lowest flag in it, the object that is most
-- urgent is 8 * g + b, but the one that `idle_run` takes is 8 * g + 8 * b: the second lookup in the table
-- gives 8 times the bit, too.
pub idle_high_priority_lem :
    (s : IdleEvents) (g b : ℕ)
    → IsLowest s.raw_idle_rdy_grp g
    → IsLowest (s.raw_rdy_tbl g) b
    → idle_high_priority s ≡ 8 * g + 8 * b
unfolding idle_high_priority
idle_high_priority_lem s g b lg lb =
    let group : 8 * g / 8 ≡ g = omega arith in
    ap (λ y. (y + lookup (s.raw_rdy_tbl (y / 8))) % 256) (table_lem s.raw_idle_rdy_grp g lg)
    ∙ ap (λ x. (8 * g + lookup (s.raw_rdy_tbl x)) % 256) group
    ∙ ap (λ v. (8 * g + v) % 256) (table_lem (s.raw_rdy_tbl g) b lb)
    ∙ omega (arith, lg.in_byte, lb.in_byte)
