-- ===== src/Batch/Groups.antt =====
-- The grids of the dispatches: the workgroups cover the work, and stay within the device's limit.
use native.Mathlib.Nat.{mod-add-div', mod-lt}
use qwen_kernel.Prelude.{
  ◌+◌, ◌-◌, ◌*◌, ◌/◌, ◌%◌, ◌≤◌, ◌<◌, ◌≡◌, ℕ, refl, inl, inr, Bool, true, false, List, arith,
  Bool-cases,
}
use qwen_kernel.Batch.{
  Command, DescSet, Flags, Kernel, Model, dispatch_grid, p_emb, p_gemm_b, p_gemm_b4, p_gemm_b_coop,
  p_gemm_b_coop2, p_gemm_b_coop2_b64, p_gemm_b_coop_split,
}
use qwen_kernel.Batch.Project.{
  blocks, disp, gemm_kernel, gemm_proj, grid_x, use_coop, use_coop_b64, use_coop_split, w32,
}

unfoldable pub kernel_of : Command → Kernel
kernel_of (dispatch_grid k s args gx gy gz) = k
kernel_of c = p_emb

-- The rows of a tile of the output, which the shaders fix: 64 in the two short kernels.
unfoldable pub tile_rows : Kernel → ℕ
tile_rows p_gemm_b_coop2_b64 = 64
tile_rows p_gemm_b_coop_split = 64
tile_rows k = 128

-- The kernels that store whole tiles only.
unfoldable pub whole_tiles : Kernel → Bool
whole_tiles p_gemm_b_coop = true
whole_tiles p_gemm_b_coop2 = true
whole_tiles p_gemm_b_coop2_b64 = true
whole_tiles p_gemm_b_coop_split = true
whole_tiles k = false

-- Workgroups of a kernel over an output of so many rows and tokens.
pub record Covers (k : Kernel) (rows n gx gz : ℕ) : Type 0 where
  rows_in : rows ≤ gx * tile_rows k
  tokens_in : n ≤ gz * 64
  exact : whole_tiles k ≡ true → (gx * tile_rows k ≡ rows) × (gz * 64 ≡ n)

pub data GemmCovers (rows n : ℕ) : Command → Type 0 where
  covers :
      (k : Kernel) (s : DescSet) (args : List ℕ) (gx gz : ℕ)
      → Covers k rows n gx gz
      → GemmCovers rows n (dispatch_grid k s args gx 1 gz)

module _ (k : Kernel) (rows n : ℕ) where
  by64 :
      tile_rows k ≡ 64
      → rows < 4294967168
      → n < 4294967232
      → rows % 64 ≡ 0
      → n % 64 ≡ 0
      → Covers k rows n (blocks rows 64) (blocks n 64)
  by64 t rw' nw d e = record {
    rows_in = rw t (omega arith);
    tokens_in = omega arith;
    exact = λ _. (rw t (omega arith), omega arith);
  }

  by128 :
      tile_rows k ≡ 128
      → rows < 4294967168
      → n < 4294967232
      → (whole_tiles k ≡ true → (rows % 128 ≡ 0) × (n % 64 ≡ 0))
      → Covers k rows n (blocks rows 128) (blocks n 64)
  by128 t rw' nw d = record {
    rows_in = rw t (omega arith);
    tokens_in = omega arith;
    exact = λ w. (rw t (omega (arith, (d w).0)), omega (arith, (d w).1));
  }

module _ (m : Model) (f : Flags) (n il : ℕ) where
  coop_divides :
      (rows cols : ℕ) (iq4 : Bool)
      → use_coop m f n il rows cols iq4 ≡ true
      → (iq4 ≡ false) × (rows % 128 ≡ 0) × (n % 64 ≡ 0)
  unfolding use_coop
  coop_divides rows cols iq4 h = ground arith

  split_divides :
      (rows cols : ℕ) (iq4 : Bool)
      → use_coop_split m f n il rows cols iq4 ≡ true
      → (iq4 ≡ false) × (use_coop m f n il rows cols iq4 ≡ false) × (rows % 64 ≡ 0) × (n % 64 ≡ 0)
  unfolding use_coop_split
  split_divides rows cols iq4 h = ground arith

  b64_coop :
      (rows cols : ℕ) (iq4 : Bool)
      → use_coop_b64 m f n il rows cols iq4 ≡ true
      → (use_coop m f n il rows cols iq4 ≡ true) × (f.gemm_coop_v1 ≡ false)
  unfolding use_coop_b64
  b64_coop rows cols iq4 h = ground arith

  coop_not_split :
      (rows cols : ℕ) (iq4 : Bool)
      → use_coop m f n il rows cols iq4 ≡ true
      → use_coop_split m f n il rows cols iq4 ≡ false
  unfolding use_coop_split
  coop_not_split rows cols iq4 h = rw (use_coop_split, h) refl

  not_coop_not_b64 :
      (rows cols : ℕ) (iq4 : Bool)
      → use_coop m f n il rows cols iq4 ≡ false
      → use_coop_b64 m f n il rows cols iq4 ≡ false
  unfolding use_coop_b64
  not_coop_not_b64 rows cols iq4 h = rw (use_coop_b64, h) refl

  -- For fewer than 2^32 - 128 rows and fewer than 2^32 - 64 tokens, the workgroups of gemmProj, at
  -- the chosen kernel's tile size, cover all rows and all tokens; where the chosen kernel stores
  -- whole tiles only, they cover exactly these.
  pub gemm_proj-GemmCovers :
      (s : DescSet) (rows cols : ℕ) (iq4 : Bool)
      → rows < 4294967168
      → n < 4294967232
      → GemmCovers rows n (gemm_proj m f n il s rows cols iq4)
  unfolding gemm_proj gemm_kernel tile_rows whole_tiles
  gemm_proj-GemmCovers s rows cols iq4 rw' nw =
      elim (Bool-cases (use_coop m f n il rows cols iq4)) [
        | inl coop ↦
            let d = coop_divides rows cols iq4 coop in
            elim (Bool-cases (use_coop_b64 m f n il rows cols iq4)) [
              | inl b64 ↦
                  rw
                    (
                      gemm_proj,
                      gemm_kernel,
                      coop_not_split rows cols iq4 coop,
                      b64,
                      coop,
                      d.0,
                      (b64_coop rows cols iq4 b64).1,
                    )
                    (covers p_gemm_b_coop2_b64 s _ _ _
                      (by64 p_gemm_b_coop2_b64 rows n refl rw' nw (omega (arith, d.1)) d.2))
              | inr wide ↦ elim (Bool-cases f.gemm_coop_v1) [
                | inl old ↦
                    rw
                      (
                        gemm_proj,
                        gemm_kernel,
                        coop_not_split rows cols iq4 coop,
                        wide,
                        coop,
                        d.0,
                        old,
                      )
                      (covers p_gemm_b_coop s _ _ _
                        (by128 p_gemm_b_coop rows n refl rw' nw (λ _. (d.1, d.2))))
                | inr new ↦
                    rw
                      (
                        gemm_proj,
                        gemm_kernel,
                        coop_not_split rows cols iq4 coop,
                        wide,
                        coop,
                        d.0,
                        new,
                      )
                      (covers p_gemm_b_coop2 s _ _ _
                        (by128 p_gemm_b_coop2 rows n refl rw' nw (λ _. (d.1, d.2))))
              ]
            ]
        | inr no_coop ↦ elim (Bool-cases (use_coop_split m f n il rows cols iq4)) [
          | inl split ↦
              let d = split_divides rows cols iq4 split in
              rw
                (
                  gemm_proj,
                  gemm_kernel,
                  split,
                  not_coop_not_b64 rows cols iq4 no_coop,
                  no_coop,
                  d.0,
                )
                (covers p_gemm_b_coop_split s _ _ _
                  (by64 p_gemm_b_coop_split rows n refl rw' nw d.2 d.3))
          | inr plain ↦ elim (Bool-cases iq4) [
            | inl four ↦
                rw
                  (
                    gemm_proj,
                    gemm_kernel,
                    plain,
                    not_coop_not_b64 rows cols iq4 no_coop,
                    no_coop,
                    four,
                  )
                  (covers p_gemm_b4 s _ _ _
                    (by128 p_gemm_b4 rows n refl rw' nw (λ w. absurd (ground (arith, w)))))
            | inr eight ↦
                rw
                  (
                    gemm_proj,
                    gemm_kernel,
                    plain,
                    not_coop_not_b64 rows cols iq4 no_coop,
                    no_coop,
                    eight,
                  )
                  (covers p_gemm_b s _ _ _
                    (by128 p_gemm_b rows n refl rw' nw (λ w. absurd (ground (arith, w)))))
          ]
        ]
      ]

-- A grid of workgroups within the device's limit that has at least so many of them, and no whole
-- column too many.
pub data Spread (limit wgs : ℕ) : Command → Type 0 where
  spread :
      (k : Kernel) (s : DescSet) (args : List ℕ) (gx gy gz : ℕ)
      → gx ≤ limit
      → wgs ≤ gy * gx
      → gy * gx < wgs + gx
      → Spread limit wgs (dispatch_grid k s args gx gy gz)

ceil-bounds :
    (a b : ℕ) → 0 < b → a + b < 4294967296 → (a ≤ blocks a b * b) × (blocks a b * b < a + b)
ceil-bounds a b pos w =
    let small : w32 (a + (b - 1)) ≡ a + (b - 1) = omega arith in
    let lt : (a + (b - 1)) % b < b = mod-lt (a + (b - 1)) pos in
    let whole : (a + (b - 1)) % b + (a + (b - 1)) / b * b ≡ a + (b - 1) =
      mod-add-div' (a + (b - 1)) b in
    rw small (omega (arith, lt, whole, pos), omega (arith, lt, whole, pos))

-- For at least one and fewer than 2^31 workgroups and a device limit of at least one, disp
-- dispatches a grid whose first side is within the limit, which has at least that many workgroups
-- and less than one side more.
pub disp-Spread :
    (m : Model) (z : ℕ) (k : Kernel) (s : DescSet) (wgs : ℕ) (args : List ℕ)
    → 0 < wgs
    → 0 < m.grid_limit
    → wgs < 2147483648
    → Spread m.grid_limit wgs (disp m z k s wgs args)
unfolding disp
disp-Spread m z k s wgs args pos limit w =
    let b = ceil-bounds wgs (grid_x m wgs) (omega arith) (omega arith) in
    spread k s args (grid_x m wgs) (blocks wgs (grid_x m wgs)) z (omega arith) b.0 b.1
