-- ===== src/Quants/Halves.antt =====
-- A half survives the conversion to a float and back, unless it is subnormal or no number.
use qwen_kernel.Prelude.{
  ◌+◌, ◌-◌, ◌*◌, ◌/◌, ◌%◌, ◌<◌, ◌≡◌, ◌∙◌, ◌≢◌, ◌⊎◌, ◌==◌, ℕ, refl, inl, inr, true, false, arith,
  leb, Bool-cases, sub32,
}
use qwen_kernel.Quants.{f16_to_f32, f32_to_f16}

-- The float of a sign, an exponent and a mantissa of the half.
abbrev float_bits : ℕ → ℕ → ℕ → ℕ
float_bits s ex m = s * 2147483648 + (ex + 112) * 8388608 + m * 8192

normal_back :
    (s ex m : ℕ)
    → s < 2
    → 0 < ex
    → ex < 31
    → m < 1024
    → f32_to_f16 (float_bits s ex m) ≡ s * 32768 + ex * 1024 + m
unfolding f32_to_f16
normal_back s ex m a b c d =
    let e1 : float_bits s ex m / 8388608 % 256 ≡ ex + 112 = omega arith in
    let e2 : float_bits s ex m % 8388608 ≡ m * 8192 = omega arith in
    let e3 : float_bits s ex m / 65536 / 32768 % 2 ≡ s = omega arith in
    let e4 : m * 8192 / 8192 ≡ m = omega arith in
    let e5 : m * 8192 % 8192 ≡ 0 = omega arith in
    let e6 : leb (ex + 112) 112 ≡ false = ground arith in
    let e7 : leb 143 (ex + 112) ≡ false = ground arith in
    let e8 : (s * 32768 + (ex + 112 - 112) * 1024 + m) % 65536 ≡ s * 32768 + ex * 1024 + m =
      omega arith in
    rw (f32_to_f16, e1, e2, e3, e4, e5, e6, e7) e8

zero_back : (s : ℕ) → s < 2 → f32_to_f16 (s * 2147483648) ≡ s * 32768
unfolding f32_to_f16
zero_back s a =
    let e1 : s * 2147483648 / 8388608 % 256 ≡ 0 = omega arith in
    let e3 : s * 2147483648 / 65536 / 32768 % 2 ≡ s = omega arith in rw (f32_to_f16, e1, e3) refl

infinite_back :
    (s : ℕ) → s < 2 → f32_to_f16 (s * 2147483648 + 2139095040 + 0 * 8192) ≡ s * 32768 + 31744
unfolding f32_to_f16
infinite_back s a =
    let e1 : (s * 2147483648 + 2139095040 + 0 * 8192) / 8388608 % 256 ≡ 255 = omega arith in
    let e3 : (s * 2147483648 + 2139095040 + 0 * 8192) / 65536 / 32768 % 2 ≡ s = omega arith in
    rw (f32_to_f16, e1, e3) refl

is_eq : (a b : ℕ) → (a == b) ≡ true → a ≡ b
is_eq a b h = ground arith

eq_false : (a b : ℕ) → a ≢ b → (a == b) ≡ false
eq_false a b h = ground (arith, h)

normal_float :
    (h : ℕ)
    → 0 < h / 1024 % 32
    → h / 1024 % 32 < 31
    → f16_to_f32 h ≡ float_bits (h / 32768 % 2) (h / 1024 % 32) (h % 1024)
unfolding f16_to_f32
normal_float h lo hi =
    let e1 : (h / 1024 % 32 == 0) ≡ false = eq_false (h / 1024 % 32) 0 (omega arith) in
    let e2 : (h / 1024 % 32 == 31) ≡ false = eq_false (h / 1024 % 32) 31 (omega arith) in
    let e3 : (sub32 (h / 1024 % 32) 15 + 127) % 4294967296 ≡ h / 1024 % 32 + 112 = omega arith in
    rw (f16_to_f32, e1, e2, e3) refl

-- Any 16-bit half that is normal, or whose mantissa is zero (a zero or an infinity), is the same
-- after qk_f16_to_f32 and qk_f32_to_f16.
pub f32_to_f16-f16_to_f32 :
    (h : ℕ)
    → h < 65536
    → ((0 < h / 1024 % 32) × (h / 1024 % 32 < 31)) ⊎ (h % 1024 ≡ 0)
    → f32_to_f16 (f16_to_f32 h) ≡ h
unfolding f16_to_f32
f32_to_f16-f16_to_f32 h w (inl n) = rw (normal_float h n.0 n.1) (
    normal_back (h / 32768 % 2) (h / 1024 % 32) (h % 1024) (omega arith) n.0 n.1 (omega arith)
    ∙ omega arith)
f32_to_f16-f16_to_f32 h w (inr z) = elim (Bool-cases (h / 1024 % 32 == 0)) [
  | inl zero' ↦
      rw (f16_to_f32, z, zero')
        (zero_back (h / 32768 % 2) (omega arith) ∙ omega (arith, is_eq (h / 1024 % 32) 0 zero'))
  | inr more ↦ elim (Bool-cases (h / 1024 % 32 == 31)) [
    | inl top ↦
        rw (f16_to_f32, more, top, z)
          (infinite_back (h / 32768 % 2) (omega arith)
            ∙ omega (arith, is_eq (h / 1024 % 32) 31 top))
    | inr normal ↦
        let lo : 0 < h / 1024 % 32 = ground arith in
        let hi : h / 1024 % 32 < 31 = ground arith in
        rw (normal_float h lo hi) (
          normal_back (h / 32768 % 2) (h / 1024 % 32) (h % 1024) (omega arith) lo hi (omega arith)
          ∙ omega arith)
  ]
]
