-- ===== src/Quants.antt =====
-- src/quants.h: half precision and the block formats. A shift is a quotient or a product by a
-- power of two, a mask a remainder, and `|` of fields that do not overlap a sum.
pub mod Blocks
pub mod Halves
pub mod Closed
pub mod Rows
use qwen_kernel.Prelude.{
  ◌+◌, ◌-◌, ◌*◌, ◌/◌, ◌%◌, ◌&&◌, ◌||◌, ◌==◌, if◌then◌else◌, ℕ, zero, suc, ltb, leb, sub32,
}

-- The loop over a subnormal half's mantissa: exponent and mantissa. Ten steps are enough.
unfoldable pub normalise : ℕ → ℕ → ℕ → ℕ × ℕ
normalise zero ex mant = (ex, mant)
normalise (suc fuel) ex mant =
    let rest = normalise fuel (ex - 1) (mant * 2) in
    if mant / 1024 % 2 == 0 then rest else (ex, mant)

-- qk_f16_to_f32, up to the bits of the float.
unfoldable pub f16_to_f32 : ℕ → ℕ
unfolding normalise
f16_to_f32 h =
    let sign = h / 32768 % 2 * 2147483648 in
    let ex = h / 1024 % 32 in
    let mant = h % 1024 in
    let sub = normalise 10 113 mant in
    if ex == 0
    then (if mant == 0 then sign else sign + sub.0 * 8388608 + sub.1 % 1024 * 8192)
    else if ex == 31
    then sign + 2139095040 + mant * 8192
    else sign + (sub32 ex 15 + 127) % 4294967296 * 8388608 + mant * 8192

-- qk_f32_to_f16, from the bits of the float. The exponent is kept with 112 added, so that it is
-- not negative.
unfoldable pub f32_to_f16 : ℕ → ℕ
f32_to_f16 x =
    let sign = x / 65536 / 32768 % 2 * 32768 in
    let ex = x / 8388608 % 256 in
    let mant = x % 8388608 in
    let h = sign + (ex - 112) * 1024 + mant / 8192 in
    let rem = mant % 8192 in
    if leb ex 112
    then sign
    else if leb 143 ex
    then sign + 31744
    else if ltb 4096 rem || (rem == 4096) && (h % 2 == 1)
    then (h + 1) % 65536
    else h % 65536
