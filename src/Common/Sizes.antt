-- ===== src/Common/Sizes.antt =====
-- size_str, cnt_str and size_to_count of pmrdmabenchmark/src/common.c. A text is the arguments that
-- `snprintf` gets: a letter of 0 is the NUL character, and `bare` has no letter.
pub mod Rounding
use rdma_pmem.Prelude.{ℕ, ◌*◌, ◌/◌, ◌%◌, ◌^◌, leb, ltb, ◌==◌, if◌then◌else◌}
use rdma_pmem.Prelude.Int.{ℤ, pos, negsuc, pos_part}

pub data SizeText : Type 0 where
  whole : ℤ → (letter : ℕ) → SizeText
  bare : ℤ → SizeText
  decimal : (units fraction letter : ℕ) → SizeText

-- the tests on `size`: `base` and `mag`
pub unit_of : ℕ → ℕ × ℕ
unit_of size =
    if leb (2 ^ 30) size
    then (2 ^ 30, b'g')
    else if leb (2 ^ 20) size
    then (2 ^ 20, b'm')
    else if leb (2 ^ 10) size
    then (2 ^ 10, b'k')
    else (1, 0)

-- `size` is not negative; below 0 it is smaller than each unit, and has no fraction
size_text : ℕ → SizeText
unfolding unit_of
size_text size =
    let (base, mag) = unit_of size in
    let fraction = if ltb (size / base) 10 then size % base * 10 / base else 0 in
    if fraction == 0 then whole (pos (size / base)) mag else decimal (size / base) fraction mag

unfoldable pub size_str : ℤ → SizeText
unfolding size_text
size_str (pos n) = size_text n
size_str (negsuc n) = whole (negsuc n) 0

unfoldable pub cnt_str : ℤ → SizeText
cnt_str (pos n) =
    if leb 1_000_000_000 n
    then whole (pos (n / 1_000_000_000)) b'b'
    else if leb 1_000_000 n
    then whole (pos (n / 1_000_000)) b'm'
    else if leb 1_000 n
    then whole (pos (n / 1_000)) b'k'
    else bare (pos n)
cnt_str (negsuc n) = bare (negsuc n)

unfoldable pub size_to_count : ℤ → ℕ
size_to_count size =
    let n = pos_part size in
    if leb (2 ^ 20) n
    then 100
    else if leb (2 ^ 16) n
    then 1000
    else if leb (2 ^ 10) n
    then 10000
    else 100000
