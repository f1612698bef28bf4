-- ===== src/Batch/Tiles.antt =====
-- The query tiles of the attention: they cover every query of the chunk once, within the budget.
use qwen_kernel.Prelude.{
  ◌+◌, ◌-◌, ◌*◌, ◌/◌, ◌%◌, ◌≤◌, ◌<◌, ◌≡◌, ◌∙◌, ◌&&◌, ◌∷◌, ◌++◌, if◌then◌else◌, ℕ, zero, suc, min,
  max, refl, inl, inr, List, [], arith, ltb, leb, ltb→lt, lt→ltb, Bool-cases, get_or, All,
}
use qwen_kernel.Batch.{
  Command, Flags, Model, barrier, copy_barrier, copy_carry, copy_hidden_in, copy_hidden_out,
  copy_ids, copy_logits, dispatch_grid, submit, zero_carry,
}
use qwen_kernel.Batch.Attention.{attn_br32, query_block, query_tile, tile_commands}
use qwen_kernel.Batch.Project.{blocks, disp, w32}
use qwen_kernel.Gguf.{le}

-- How many of the dispatches work on query q: the base of a tile is the last of its arguments, and
-- a workgroup along z has so many queries.
abbrev pub in_tile : ℕ → ℕ → ℕ → ℕ → ℕ
in_tile qb q qbase gz = if leb qbase q && ltb q (qbase + gz * qb) then 1 else 0

unfoldable pub tiles_of : ℕ → ℕ → List Command → ℕ
tiles_of qb q [] = 0
tiles_of qb q (dispatch_grid k s args gx gy gz ∷ cs) =
    in_tile qb q (get_or args 7 0) gz + tiles_of qb q cs
tiles_of qb q (c ∷ cs) = tiles_of qb q cs

tiles_of-append :
    (qb q : ℕ) (cs ds : List Command)
    → tiles_of qb q (cs ++ ds) ≡ tiles_of qb q cs + tiles_of qb q ds
unfolding tiles_of
tiles_of-append qb q [] ds = omega arith
tiles_of-append qb q (dispatch_grid k s args gx gy gz ∷ cs) ds =
    omega (arith, tiles_of-append qb q cs ds)
tiles_of-append qb q (barrier ∷ cs) ds = tiles_of-append qb q cs ds
tiles_of-append qb q (submit ∷ cs) ds = tiles_of-append qb q cs ds
tiles_of-append qb q (zero_carry a ∷ cs) ds = tiles_of-append qb q cs ds
tiles_of-append qb q (copy_carry a b ∷ cs) ds = tiles_of-append qb q cs ds
tiles_of-append qb q (copy_hidden_in a ∷ cs) ds = tiles_of-append qb q cs ds
tiles_of-append qb q (copy_hidden_out a ∷ cs) ds = tiles_of-append qb q cs ds
tiles_of-append qb q (copy_logits a ∷ cs) ds = tiles_of-append qb q cs ds
tiles_of-append qb q (copy_ids a ∷ cs) ds = tiles_of-append qb q cs ds
tiles_of-append qb q (copy_barrier ∷ cs) ds = tiles_of-append qb q cs ds

-- What one tile covers: with workgroups of qb queries, tiles of qt queries from qo.
record TileSize (qb qt n : ℕ) : Type 0 where
  some_queries : qb ≤ qt
  positive : 0 < qb
  whole : (t : ℕ) → t ≤ qt → t ≤ n → blocks t qb * qb ≤ qt
  inside :
      (qo q : ℕ) → qo ≤ q → q < qo + qt → q < n → in_tile qb q qo (blocks (min qt (n - qo)) qb) ≡ 1
  below : (qo q : ℕ) → q < qo → in_tile qb q qo (blocks (min qt (n - qo)) qb) ≡ 0
  above : (qo q : ℕ) → qo + qt ≤ q → q < n → in_tile qb q qo (blocks (min qt (n - qo)) qb) ≡ 0

whole16 : (qt n : ℕ) → 16 ≤ qt → qt % 16 ≡ 0 → n < 4294967264 → TileSize 16 qt n
whole16 qt n le z w = record {
  some_queries = le;
  positive = omega arith;
  whole = λ t a b. omega arith;
  inside = λ qo q a b c. ground arith;
  below = λ qo q a. ground arith;
  above = λ qo q a b. ground arith;
}

whole32 : (qt n : ℕ) → 32 ≤ qt → qt % 32 ≡ 0 → n < 4294967264 → TileSize 32 qt n
whole32 qt n le z w = record {
  some_queries = le;
  positive = omega arith;
  whole = λ t a b. omega arith;
  inside = λ qo q a b c. ground arith;
  below = λ qo q a. ground arith;
  above = λ qo q a b. ground arith;
}

module _ (m : Model) (f : Flags) (n base layer : ℕ) where
  query_tile-TileSize :
      n < 4294967264 → TileSize (query_block m f n base layer) (query_tile m f n base layer) n
  unfolding query_block query_tile
  query_tile-TileSize w = elim (Bool-cases (attn_br32 m f n base layer)) [
    | inl yes' ↦ rw (query_tile, query_block, yes') (whole32 _ n (omega arith) (omega arith) w)
    | inr no' ↦ rw (query_tile, query_block, no') (whole16 _ n (omega arith) (omega arith) w)
  ]

  -- A step of the loop: the tile, a submission unless it is the last, and the tiles behind it.
  tiles_of-step :
      (fuel qo q : ℕ)
      → qo < n
      → tiles_of (query_block m f n base layer) q (tile_commands m f n base layer (suc fuel) qo)
        ≡ in_tile
            (query_block m f n base layer)
            q
            qo
            (blocks (min (query_tile m f n base layer) (n - qo)) (query_block m f n base layer))
          + tiles_of
              (query_block m f n base layer)
              q
              (tile_commands m f n base layer fuel (qo + query_tile m f n base layer))
  unfolding tile_commands disp tiles_of
  tiles_of-step fuel qo q lt =
      rw (lt→ltb qo n lt)
        (elim (Bool-cases (ltb (qo + min (query_tile m f n base layer) (n - qo)) n)) [
          | inl more ↦ rw more refl
          | inr done' ↦ rw done' refl
        ])

  tiles_of-past :
      (fuel qo q : ℕ)
      → q < qo
      → n < 4294967264
      → tiles_of (query_block m f n base layer) q (tile_commands m f n base layer fuel qo) ≡ 0
  unfolding tile_commands tiles_of
  tiles_of-past zero qo q lt w = refl
  tiles_of-past (suc fuel) qo q lt w = elim (Bool-cases (ltb qo n)) [
    | inr out ↦ rw (tile_commands, out) refl
    | inl more ↦
        tiles_of-step fuel qo q (ltb→lt qo n more)
        ∙ omega (
          arith,
          (query_tile-TileSize w).below qo q lt,
          tiles_of-past fuel (qo + query_tile m f n base layer) q (omega arith) w,
        )
  ]

  tiles_of-once :
      (fuel qo q : ℕ)
      → qo ≤ q
      → q < n
      → n ≤ fuel + qo
      → n < 4294967264
      → tiles_of (query_block m f n base layer) q (tile_commands m f n base layer fuel qo) ≡ 1
  unfolding tile_commands tiles_of
  tiles_of-once zero qo q le lt enough w = absurd (omega arith)
  tiles_of-once (suc fuel) qo q le lt enough w =
      let size = query_tile-TileSize w in
      tiles_of-step fuel qo q (omega arith)
      ∙ elim (Bool-cases (ltb q (qo + query_tile m f n base layer))) [
        | inl here ↦ omega (
          arith,
          size.inside qo q le (ltb→lt q (qo + query_tile m f n base layer) here) lt,
          tiles_of-past fuel (qo + query_tile m f n base layer) q
              (ltb→lt q (qo + query_tile m f n base layer) here) w,
        )
        | inr later ↦
            let past : qo + query_tile m f n base layer ≤ q = ground arith in
            omega (
              arith,
              size.above qo q past lt,
              tiles_of-once fuel (qo + query_tile m f n base layer) q past lt
                  (omega (arith, size.some_queries, size.positive)) w,
            )
      ]

  -- For a chunk of fewer than 2^32 - 32 tokens, the query tiles of an attention layer, with as
  -- many steps of the loop as tokens, cover every query of the chunk exactly once.
  pub tile_commands-once :
      (q : ℕ)
      → q < n
      → n < 4294967264
      → tiles_of (query_block m f n base layer) q (tile_commands m f n base layer n 0) ≡ 1
  tile_commands-once q lt w = tiles_of-once n 0 q (omega arith) lt (omega arith) w

w32_small : (x : ℕ) → x < 4294967296 → w32 x ≡ x
w32_small x h = omega arith

bound32 : (x n : ℕ) → max 32 (min (w32 (max 1 x)) n - min (w32 (max 1 x)) n % 32) ≤ max 32 x
bound32 x n = omega arith

bound16 : (x n : ℕ) → max 16 (min (w32 (max 1 x)) n - min (w32 (max 1 x)) n % 16) ≤ max 16 x
bound16 x n = omega arith

-- The queries that a dispatch works on.
unfoldable pub queries_of : ℕ → Command → ℕ
queries_of qb (dispatch_grid k s args gx gy gz) = gz * qb
queries_of qb c = 0

module _ (m : Model) (f : Flags) (n base layer : ℕ) where
  tile_bound : ℕ
  tile_bound = max (query_block m f n base layer) (f.attn_budget / (base + n))

  query_tile-bound : base + n < 4294967264 → query_tile m f n base layer ≤ tile_bound
  unfolding query_tile tile_bound query_block
  query_tile-bound w = elim (Bool-cases (attn_br32 m f n base layer)) [
    | inl wide ↦
        rw (query_tile, query_block, wide, w32_small (base + n) (omega arith))
          (bound32 (f.attn_budget / (base + n)) n)
    | inr narrow ↦
        rw (query_tile, query_block, narrow, w32_small (base + n) (omega arith))
          (bound16 (f.attn_budget / (base + n)) n)
  ]

  tiles-bound :
      (fuel qo : ℕ)
      → base + n < 4294967264
      → All
          (λ c. queries_of (query_block m f n base layer) c ≤ tile_bound)
          (tile_commands m f n base layer fuel qo)
  unfolding tile_commands disp queries_of
  tiles-bound zero qo w = tt
  tiles-bound (suc fuel) qo w = elim (Bool-cases (ltb qo n)) [
    | inr out ↦ rw (tile_commands, out) tt
    | inl more ↦
        let size = query_tile-TileSize m f n base layer (omega arith) in
        let here =
          size.whole (min (query_tile m f n base layer) (n - qo)) (omega arith) (omega arith) in
        let rest = tiles-bound fuel (qo + query_tile m f n base layer) w in
        rw (tile_commands, more)
          (
            omega (arith, here, query_tile-bound w),
            (elim (Bool-cases (ltb (qo + min (query_tile m f n base layer) (n - qo)) n)) [
              | inl on ↦ rw on (omega arith, (omega arith, (omega arith, rest)))
              | inr end ↦ rw end rest
            ]),
          )
  ]

  -- When base and chunk together stay below 2^32 - 32, no dispatch of the attention tiles works on
  -- more queries than the attention budget divided by the number of keys, or than one workgroup's
  -- queries where that is more.
  pub tile_commands-bound :
      base + n < 4294967264
      → All
          (λ c.
            queries_of (query_block m f n base layer) c
            ≤ max (query_block m f n base layer) (f.attn_budget / (base + n)))
          (tile_commands m f n base layer n 0)
  unfolding tile_bound
  tile_commands-bound w = tiles-bound n 0 w
