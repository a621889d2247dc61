-- ===== src/Bits.antt =====
-- The bit map of raw_pend.c (`bit_set`, `bit_clear`) and `bit_search_first_one` of raw_system.c.
-- The map is read as its bits, little-endian: bit `n` is bit `n & 7` of byte `n >> 3`, and bit
-- `n & 31` of the 32-bit word `n >> 5`. A 32-bit register is its bits too, bit 0 first.
pub mod Scan
pub mod Register
pub mod Search
use raw_os.Shared.{
  ℕ, zero, suc, ◌+◌, ◌-◌, ◌*◌, ◌/◌, ◌%◌, Bool, true, false, ◌&&◌, ◌||◌, not, ltb, ◌==◌,
  if◌then◌else◌, Option, none, some, update,
}

abbrev pub BitMap : Type 0
BitMap = ℕ → Bool

abbrev pub Word : Type 0
Word = ℕ → Bool

-- `*cp |= mask` at the byte and the bit of `offset`
unfoldable pub bit_set : BitMap → ℕ → BitMap
bit_set base offset = update base offset true

-- `*cp &= ~mask`
unfoldable pub bit_clear : BitMap → ℕ → BitMap
bit_clear base offset = update base offset false

-- `v & (2^n - 1)` is not zero
unfoldable pub any_below : ℕ → Word → Bool
any_below zero v = false
any_below (suc n) v = any_below n v || v n

-- `v >> n`
abbrev shr : Word → ℕ → Word
shr v n = λ i. v (i + n)

-- `if (!(v & (2^n - 1))) { v >>= n; position += n; }`
narrow : ℕ → Word × ℕ → Word × ℕ
narrow n (v, position) = if any_below n v then (v, position) else (shr v n, position + n)

-- The five tests that find the first one bit of a register that is not zero.
pub first_one : Word → ℕ
first_one v = (narrow 1 (narrow 2 (narrow 4 (narrow 8 (narrow 16 (v, 0)))))).1

-- The word `cp` of the map.
load : BitMap → ℕ → Word
load base cp = λ i. ltb i 32 && base (32 * cp + i)

-- The `while` loop. `none` is the result -1. The source takes `offset & 31` off `position` before it
-- adds the bit's index, by signed arithmetic; here it is taken off the sum.
search_loop : ℕ → BitMap → ℕ → ℕ → ℕ → Word → ℕ → Option ℕ
search_loop zero base low width cp v position = none
search_loop (suc fuel) base low width cp v position =
    let next = if position == 0 then 32 - low else position + 32 in
    let rest = search_loop fuel base low width (cp + 1) (load base (cp + 1)) next in
    let found = position + first_one v - (if position == 0 then low else 0) in
    if ltb position width
    then if any_below 32 v then if ltb found width then some found else none else rest
    else none

unfoldable pub bit_search_first_one : BitMap → ℕ → ℕ → Option ℕ
unfolding search_loop load first_one narrow
bit_search_first_one base offset width =
    let low = offset % 32 in
    let cp = offset / 32 in
    let word = load base cp in
    let v : Word = λ i. word i && not (ltb i low) in search_loop (suc width) base low width cp v 0
