-- ===== src/Quants/Blocks.antt =====
-- The blocks of src/quants.h and their dequantisation. Float arithmetic and the codebooks (the
-- tables of quant_tables.h) are parameters; a signed byte is its two's complement.
use qwen_kernel.Prelude.{
  ◌+◌, ◌*◌, ◌/◌, ◌%◌, ◌^◌, ◌∷◌, ◌++◌, ◌==◌, if◌then◌else◌, ℕ, zero, suc, bit_and, List, [], map,
  get_or, set,
}
use qwen_kernel.Quants.{f16_to_f32}

pub record Floats (F : Type 0) : Type 0 where
  pub of_bits : ℕ → F
  pub of_uint : ℕ → F
  pub of_i8 : ℕ → F
  pub of_i32 : ℕ → F
  pub mul : F → F → F
  pub add : F → F → F
  pub half : F
  pub one_f : F
  pub minus_one : F

-- kvalues_iq4nl, ksigns_iq2xs, kmask_iq2xs, and the bytes of iq3xxs_grid, four to an entry.
pub record Codebooks : Type 0 where
  pub kvalues : ℕ → ℕ
  pub ksigns : ℕ → ℕ
  pub kmask : ℕ → ℕ
  pub grid : ℕ → ℕ → ℕ

pub record BlockQ8 : Type 0 where
  pub d : ℕ
  pub qs : List ℕ

pub record BlockQ6 : Type 0 where
  pub ql : List ℕ
  pub qh : List ℕ
  pub scales : List ℕ
  pub d : ℕ

pub record BlockIq4 : Type 0 where
  pub d : ℕ
  pub scales_h : ℕ
  pub scales_l : List ℕ
  pub qs : List ℕ

pub record BlockIq3 : Type 0 where
  pub d : ℕ
  pub qs : List ℕ

module _ {F : Type 0} (a : Floats F) where
  abbrev pub scale_of : ℕ → F
  scale_of d = a.of_bits (f16_to_f32 d)

  -- dequant_row_q8_0: the row is its blocks, the output a list.
  unfoldable pub dequant_q8 : List BlockQ8 → List F
  dequant_q8 [] = []
  dequant_q8 (x ∷ xs) = map (λ q. a.mul (scale_of x.d) (a.of_i8 q)) x.qs ++ dequant_q8 xs

  -- An int8_t less 32.
  abbrev pub less_32 : ℕ → ℕ
  less_32 q = (q + 224) % 256

  -- q1 to q4 of dequant_row_q6_K for a half whose ql, qh start at lo and hi.
  unfoldable pub q6_quants : BlockQ6 → ℕ → ℕ → ℕ → ℕ × ℕ × ℕ × ℕ
  q6_quants x lo hi l = (
    get_or x.ql (lo + l) 0 % 16 + get_or x.qh (hi + l) 0 % 4 * 16,
    get_or x.ql (lo + (l + 32)) 0 % 16 + get_or x.qh (hi + l) 0 / 4 % 4 * 16,
    get_or x.ql (lo + l) 0 / 16 + get_or x.qh (hi + l) 0 / 16 % 4 * 16,
    get_or x.ql (lo + (l + 32)) 0 / 16 + get_or x.qh (hi + l) 0 / 64 % 4 * 16,
  )

  -- d * sc[is] * q.
  abbrev pub q6_value : BlockQ6 → ℕ → ℕ → F
  q6_value x is q =
      a.mul (a.mul (scale_of x.d) (a.of_i8 (get_or x.scales is 0))) (a.of_i8 (less_32 q))

  -- The loop over l of one half: y, ql, qh and sc stand at o, lo, hi and so.
  unfoldable pub q6_loop : ℕ → ℕ → BlockQ6 → ℕ → ℕ → ℕ → ℕ → List F → List F
  unfolding q6_quants
  q6_loop zero l x o lo hi so y = y
  q6_loop (suc k) l x o lo hi so y =
      let q = q6_quants x lo hi l in
      let is = so + l / 16 in
      let y1 = set y (o + l) (q6_value x is q.0) in
      let y2 = set y1 (o + (l + 32)) (q6_value x (is + 2) q.1) in
      let y3 = set y2 (o + (l + 64)) (q6_value x (is + 4) q.2) in
      q6_loop k (l + 1) x o lo hi so (set y3 (o + (l + 96)) (q6_value x (is + 6) q.3))

  -- dequant_row_q6_K into a buffer, from the position o on.
  unfoldable pub dequant_q6 : List BlockQ6 → ℕ → List F → List F
  unfolding q6_loop
  dequant_q6 [] o y = y
  dequant_q6 (x ∷ xs) o y =
      dequant_q6 xs (o + 256) (q6_loop 32 0 x (o + 128) 64 32 8 (q6_loop 32 0 x o 0 0 0 y))

module _ {F : Type 0} (a : Floats F) (t : Codebooks) where
  -- dl of a sub-block of dequant_row_iq4_xs.
  unfoldable pub iq4_scale : BlockIq4 → ℕ → F
  iq4_scale x ib =
      let ls = get_or x.scales_l (ib / 2) 0 / 16 ^ (ib % 2) % 16 + x.scales_h / 4 ^ ib % 4 * 16 in
      a.mul (scale_of a x.d) (a.of_i32 ((ls + 4294967264) % 4294967296))

  -- The loop over j of one sub-block: y and qs stand at o and q0.
  unfoldable pub iq4_loop : ℕ → ℕ → BlockIq4 → F → ℕ → ℕ → List F → List F
  iq4_loop zero j x dl o q0 y = y
  iq4_loop (suc k) j x dl o q0 y =
      let q = get_or x.qs (q0 + j) 0 in
      let y1 = set y (o + j) (a.mul dl (a.of_i8 (t.kvalues (q % 16)))) in
      iq4_loop k (j + 1) x dl o q0 (set y1 (o + (j + 16)) (a.mul dl (a.of_i8 (t.kvalues (q / 16)))))

  -- The sub-blocks from ib on.
  unfoldable pub iq4_blocks : ℕ → ℕ → BlockIq4 → ℕ → ℕ → List F → List F
  unfolding iq4_scale iq4_loop
  iq4_blocks zero ib x o q0 y = y
  iq4_blocks (suc k) ib x o q0 y =
      iq4_blocks k (ib + 1) x (o + 32) (q0 + 16) (iq4_loop 16 0 x (iq4_scale x ib) o q0 y)

  unfoldable pub dequant_iq4 : List BlockIq4 → ℕ → List F → List F
  unfolding iq4_blocks
  dequant_iq4 [] o y = y
  dequant_iq4 (x ∷ xs) o y = dequant_iq4 xs (o + 256) (iq4_blocks 8 0 x o 0 y)

  -- A little-endian 32-bit word of a block's bytes.
  abbrev pub word : List ℕ → ℕ → ℕ
  word bs i =
      get_or bs i 0
      + get_or bs (i + 1) 0 * 256
      + get_or bs (i + 2) 0 * 65536
      + get_or bs (i + 3) 0 * 16777216

  unfoldable pub iq3_value : F → ℕ → ℕ → ℕ → F
  iq3_value db g signs mask =
      a.mul (a.mul db (a.of_uint g)) (if bit_and signs mask == 0 then a.one_f else a.minus_one)

  -- The loop over j: y stands at o, the grids are entries g1 and g2.
  unfoldable pub iq3_loop : ℕ → ℕ → F → ℕ → ℕ → ℕ → ℕ → List F → List F
  unfolding iq3_value
  iq3_loop zero j db signs g1 g2 o y = y
  iq3_loop (suc k) j db signs g1 g2 o y =
      let y1 = set y (o + j) (iq3_value db (t.grid g1 j) signs (t.kmask j)) in
      iq3_loop k (j + 1) db signs g1 g2 o
        (set y1 (o + (j + 4)) (iq3_value db (t.grid g2 j) signs (t.kmask (j + 4))))

  -- The loop over l of a sub-block, whose word is aux.
  unfoldable pub iq3_rows : ℕ → ℕ → BlockIq3 → F → ℕ → ℕ → ℕ → List F → List F
  unfolding iq3_loop
  iq3_rows zero l x db aux q0 o y = y
  iq3_rows (suc k) l x db aux q0 o y = iq3_rows k (l + 1) x db aux q0 (o + 8) (
      iq3_loop 4 0 db (t.ksigns (aux / 128 ^ l % 128)) (get_or x.qs (q0 + 2 * l) 0)
        (get_or x.qs (q0 + (2 * l + 1)) 0) o y)

  unfoldable pub iq3_blocks : ℕ → ℕ → BlockIq3 → ℕ → ℕ → List F → List F
  unfolding iq3_rows
  iq3_blocks zero ib x q0 o y = y
  iq3_blocks (suc k) ib x q0 o y =
      let aux = word x.qs (64 + 4 * ib) in
      let db = a.mul (a.mul (scale_of a x.d) (a.add a.half (a.of_uint (aux / 268435456)))) a.half in
      iq3_blocks k (ib + 1) x (q0 + 8) (o + 32) (iq3_rows 4 0 x db aux q0 o y)

  unfoldable pub dequant_iq3 : List BlockIq3 → ℕ → List F → List F
  unfolding iq3_blocks
  dequant_iq3 [] o y = y
  dequant_iq3 (x ∷ xs) o y = dequant_iq3 xs (o + 256) (iq3_blocks 8 0 x 0 o y)
