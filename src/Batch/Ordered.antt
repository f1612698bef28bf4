-- ===== src/Batch/Ordered.antt =====
-- The commands of a layer are ordered by barriers, whatever kernels are chosen.
use qwen_kernel.Prelude.{
  ◌+◌, ◌-◌, ◌*◌, ◌/◌, ◌≤◌, ◌≡◌, ◌&&◌, ◌∷◌, ◌++◌, ◌==◌, if◌then◌else◌, ℕ, zero, suc, min, refl, inl,
  inr, Bool, true, false, List, [], arith, ltb, leb, ltb→lt, Bool-cases,
}
use qwen_kernel.Batch.{
  Command, DescSet, Flags, Kernel, LayerKind, Model, barrier, dispatch_grid, p_ab_b, p_conv_b,
  p_prep_b, s_ab, s_conv, s_p1, s_p2, s_p2_kv, s_p3, s_prep, s_wo,
}
use qwen_kernel.Batch.Attention.{
  attention_commands, attn_args, core_commands, query_tile, split_commands, tile_commands,
}
use qwen_kernel.Batch.Buffers.{Buffer}
use qwen_kernel.Batch.Delta.{delta_commands, scan_commands}
use qwen_kernel.Batch.Hazards.{ordered, ordered-barrier}
use qwen_kernel.Batch.Project.{disp, gemm_proj, proj}

-- A dispatch on a set.
pub data On (s : DescSet) : Command → Type 0 where
  on_set : (k : Kernel) (args : List ℕ) (gx gy gz : ℕ) → On s (dispatch_grid k s args gx gy gz)

pub if-ordered :
    (ts ws : List Buffer) (b : Bool) (cs ds : List Command)
    → ordered ts ws cs ≡ true
    → ordered ts ws ds ≡ true
    → ordered ts ws (if b then cs else ds) ≡ true
if-ordered ts ws true cs ds p q = p
if-ordered ts ws false cs ds p q = q

pub if-On : (s : DescSet) (b : Bool) {c d : Command} → On s c → On s d → On s (if b then c else d)
if-On s true p q = p
if-On s false p q = q

module _ (m : Model) (f : Flags) (n il : ℕ) where
  proj-On :
      (z : ℕ) (s : DescSet) (rows cols : ℕ) (is_out iq4 : Bool)
      → On s (proj m f n il z s rows cols is_out iq4)
  unfolding proj gemm_proj disp
  proj-On z s rows cols is_out iq4 =
      if-On s (leb 48 n) (on_set _ _ _ _ _) (if-On s is_out (on_set _ _ _ _ _) (on_set _ _ _ _ _))

  scan-ordered :
      (l : LayerKind) {c : Command}
      → On s_wo c
      → ordered [] [] (scan_commands m f n il l ++ c ∷ barrier ∷ []) ≡ true
  unfolding scan_commands disp ordered
  scan-ordered l (on_set _ _ _ _ _) = elim (Bool-cases ((n == 1) && f.dn_step_gate)) [
    | inl fused ↦ rw (scan_commands, fused) refl
    | inr apart ↦ rw (scan_commands, apart) refl
  ]

  delta_head-ordered :
      {c1 c2 : Command} (rest : List Command)
      → On s_p1 c1
      → On s_p2 c2
      → ordered [] [] rest ≡ true
      → ordered [] [] (
          c1
          ∷ c2
          ∷ disp m n p_ab_b s_ab (2 * m.h_v) (m.n_embd ∷ m.h_v ∷ n ∷ [])
          ∷ barrier
          ∷ disp m n p_conv_b s_conv
              (m.ch_qkv / m.d_s)
              (m.ch_qkv ∷ m.d_s ∷ 2 * m.h_k * m.d_s ∷ n ∷ [])
          ∷ barrier
          ∷ rest)
        ≡ true
  unfolding disp ordered
  delta_head-ordered rest (on_set _ _ _ _ _) (on_set _ _ _ _ _) h = h

  pub delta-ordered : (l : LayerKind) → ordered [] [] (delta_commands m f n il l) ≡ true
  unfolding delta_commands
  delta-ordered l =
      delta_head-ordered
        (scan_commands m f n il l
          ++ proj m f n il n s_wo m.n_embd m.d_in true l.iq4_wo ∷ barrier ∷ [])
        (proj-On n s_p1 m.ch_qkv m.n_embd false l.iq4_p1)
        (proj-On n s_p2 m.d_in m.n_embd false l.iq4_p2)
        (scan-ordered l (proj-On n s_wo m.n_embd m.d_in true l.iq4_wo))

module _ (m : Model) (f : Flags) (n base il : ℕ) where
  tiles-past : (fuel qo : ℕ) → n ≤ qo → tile_commands m f n base il fuel qo ≡ []
  unfolding tile_commands
  tiles-past zero qo h = refl
  tiles-past (suc fuel) qo h = elim (Bool-cases (ltb qo n)) [
    | inl more ↦ absurd (omega (arith, h, ltb→lt qo n more))
    | inr out ↦ rw (tile_commands, out) refl
  ]

  tiles-ordered : (fuel qo : ℕ) → ordered [] [] (tile_commands m f n base il fuel qo) ≡ true
  unfolding tile_commands disp ordered
  tiles-ordered zero qo = refl
  tiles-ordered (suc fuel) qo = elim (Bool-cases (ltb qo n)) [
    | inr out ↦ rw (tile_commands, out) refl
    | inl more ↦ elim (Bool-cases (ltb (qo + min (query_tile m f n base il) (n - qo)) n)) [
      | inl on ↦ rw (tile_commands, more, on) (tiles-ordered fuel (qo + query_tile m f n base il))
      | inr last ↦
          let past : n ≤ qo + query_tile m f n base il = ground (arith, last, ltb→lt qo n more) in
          rw (tile_commands, more, last, tiles-past fuel (qo + query_tile m f n base il) past) refl
    ]
  ]

  core-ordered : ordered [] [] (core_commands m f n base il) ≡ true
  unfolding core_commands split_commands disp ordered
  core-ordered =
      if-ordered [] [] (f.use_split_k && (n == 1)) (split_commands m f n base il)
        (tile_commands m f n base il n 0) refl (tiles-ordered n 0)

  attention_head-ordered :
      {c1 c2 c3 : Command} (rest : List Command)
      → On s_p1 c1
      → On s_p2_kv c2
      → On s_p3 c3
      → ordered [] [] rest ≡ true
      → ordered [] [] (
          c1
          ∷ c2
          ∷ c3
          ∷ barrier
          ∷ disp m n p_prep_b s_prep (m.h_q + 2 * m.h_kv) (attn_args m f n base il 0)
          ∷ barrier
          ∷ rest)
        ≡ true
  unfolding disp ordered
  attention_head-ordered rest (on_set _ _ _ _ _) (on_set _ _ _ _ _) (on_set _ _ _ _ _) h = h

  wo-ordered : {c : Command} → On s_wo c → ordered [] [] (c ∷ []) ≡ true
  unfolding ordered
  wo-ordered (on_set _ _ _ _ _) = refl

  pub attention-ordered :
      (l : LayerKind) → ordered [] [] (attention_commands m f n base il l) ≡ true
  unfolding attention_commands
  attention-ordered l =
      attention_head-ordered
        (core_commands m f n base il
          ++ barrier ∷ proj m f n il n s_wo m.n_embd m.d_in true l.iq4_wo ∷ [])
        (proj-On m f n il n s_p1 m.ch_qkv m.n_embd false l.iq4_p1)
        (proj-On m f n il n s_p2_kv (m.h_kv * m.dh) m.n_embd false l.iq4_p2)
        (proj-On m f n il n s_p3 (m.h_kv * m.dh) m.n_embd false l.iq4_p3)
        (ordered-barrier [] [] (core_commands m f n base il)
          (proj m f n il n s_wo m.n_embd m.d_in true l.iq4_wo ∷ []) core-ordered
          (wo-ordered (proj-On m f n il n s_wo m.n_embd m.d_in true l.iq4_wo)))
