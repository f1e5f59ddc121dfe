-- ===== src/Common/Sizes/Rounding.antt =====
-- What the texts of common.c say about the number.
use rdma_pmem.Prelude.{ℕ, ◌+◌, ◌*◌, ◌^◌, ◌≤◌, ◌<◌, ◌==◌, if◌then◌else◌, arith}
use rdma_pmem.Prelude.Int.{pos}
use rdma_pmem.Common.Sizes.{SizeText, whole, decimal, size_str}

-- the number of bytes that a letter stands for
abbrev pub unit_bytes : ℕ → ℕ
unit_bytes letter =
    if letter == b'g'
    then 2 ^ 30
    else if letter == b'm'
    then 2 ^ 20
    else if letter == b'k'
    then 2 ^ 10
    else 1

-- the text says `n` rounded down to a tenth of its unit, below 10 units, or to a unit
abbrev pub Says : SizeText → ℕ → Type 0
Says (whole (pos q) letter) n =
    (q * unit_bytes letter ≤ n)
    × (n < (q + 1) * unit_bytes letter)
    × (q < 10 → 10 * n < (10 * q + 1) * unit_bytes letter)
Says (decimal q f letter) n =
    (f < 10)
    × ((10 * q + f) * unit_bytes letter ≤ 10 * n)
    × (10 * n < (10 * q + f + 1) * unit_bytes letter)
Says _ n = ⊥

-- The text of size_str for a number that is not negative says that number rounded down to its unit,
-- or to a tenth of the unit. A text without a tenth and with a count below ten units is exact to
-- a tenth too.
pub size_str-Says : (n : ℕ) → Says (size_str (pos n)) n
unfolding size_str
size_str-Says n = ground arith
