-- ===== src/Batch/OrderedPass.antt =====
-- The commands of the experts, and of a whole pass, are ordered by barriers.
use qwen_kernel.Prelude.{
  ◌+◌, ◌-◌, ◌*◌, ◌%◌, ◌≡◌, ◌⊎◌, ◌&&◌, ◌||◌, ◌∷◌, ◌++◌, ◌==◌, if◌then◌else◌, ℕ, refl, sym, subst,
  inl, inr, Bool, true, false, List, [], append_assoc, ltb, Bool-cases, length,
}
use qwen_kernel.Batch.{
  Command, DescSet, Flags, Kernel, LayerKind, Model, barrier, copy_barrier, copy_hidden_out,
  dispatch_grid, s_add3, s_add3_group, s_add_n, s_add_n_route, s_moe_dn, s_moe_dn_group, s_moe_dns,
  s_moe_gus, s_moe_l, s_moe_rs, submit,
}
use qwen_kernel.Batch.Attention.{attention_commands}
use qwen_kernel.Batch.Buffers.{Buffer, b_carry, b_conv_st}
use qwen_kernel.Batch.Delta.{delta_commands}
use qwen_kernel.Batch.Experts.{
  down_commands, expert_commands, fuse_route, gate_up, moe_coop, pair_commands, router_commands,
  select_commands, shared_coop_down, shared_coop_gu, shared_down, shared_gate_up, use_group_down,
  use_group_gu, use_logits_gemm,
}
use qwen_kernel.Batch.Hazards.{ordered, ordered-barrier}
use qwen_kernel.Batch.Ordered.{On, attention-ordered, delta-ordered, if-On, if-ordered, on_set}
use qwen_kernel.Batch.Pass.{
  carry_commands, flush_commands, head_commands, input_commands, layer_commands, layers_commands,
  pass_commands,
}
use qwen_kernel.Batch.Project.{disp}

assoc-ordered :
    (cs ds es : List Command)
    → ordered [] [] (cs ++ (ds ++ es)) ≡ true
    → ordered [] [] ((cs ++ ds) ++ es) ≡ true
assoc-ordered cs ds es h = subst (λ x. ordered [] [] x ≡ true) (sym (append_assoc cs ds es)) h

flush-ordered :
    (b : Bool) (rest : List Command)
    → ordered [] [] rest ≡ true
    → ordered [] [] ((if b then flush_commands else []) ++ rest) ≡ true
unfolding ordered
flush-ordered true rest h = h
flush-ordered false rest h = h

module _ (m : Model) (f : Flags) (n il : ℕ) where
  pair1 :
      {c1 c2 : Command}
      → On s_moe_l c1 ⊎ On s_moe_rs c1
      → On s_moe_gus c2
      → ordered [] [] (c1 ∷ c2 ∷ []) ≡ true
  unfolding ordered
  pair1 (inl (on_set _ _ _ _ _)) (on_set _ _ _ _ _) = refl
  pair1 (inr (on_set _ _ _ _ _)) (on_set _ _ _ _ _) = refl

  gus-On : On s_moe_gus (shared_gate_up m f n il)
  unfolding shared_gate_up disp
  gus-On = if-On s_moe_gus (shared_coop_gu m f n il) (on_set _ _ _ _ _) (on_set _ _ _ _ _)

  dns-On : On s_moe_dns (shared_down m f n il)
  unfolding shared_down disp
  dns-On = if-On s_moe_dns (shared_coop_down m f n il) (on_set _ _ _ _ _) (on_set _ _ _ _ _)

  gate_up-ordered : ordered [] [] (gate_up m f n il ∷ []) ≡ true
  unfolding gate_up disp ordered
  gate_up-ordered = elim (Bool-cases (use_group_gu m f n il)) [
    | inl grouped ↦ elim (Bool-cases (moe_coop m f n il)) [
      | inl coop ↦ rw (gate_up, grouped, coop) refl
      | inr plain ↦ rw (gate_up, grouped, plain) refl
    ]
    | inr single ↦ rw (gate_up, single) refl
  ]

  down_group :
      {c1 c2 c3 : Command}
      → On s_moe_dn_group c1
      → On s_moe_dns c2
      → On s_add3_group c3
      → ordered [] [] (c1 ∷ c2 ∷ barrier ∷ c3 ∷ []) ≡ true
  unfolding ordered
  down_group (on_set _ _ _ _ _) (on_set _ _ _ _ _) (on_set _ _ _ _ _) = refl

  down_single :
      {c1 c2 c3 : Command}
      → On s_moe_dn c1
      → On s_moe_dns c2
      → On s_add3 c3
      → ordered [] [] (c1 ∷ c2 ∷ barrier ∷ c3 ∷ []) ≡ true
  unfolding ordered
  down_single (on_set _ _ _ _ _) (on_set _ _ _ _ _) (on_set _ _ _ _ _) = refl

  down-ordered : (q6 : Bool) → ordered [] [] (down_commands m f n il q6) ≡ true
  unfolding down_commands disp
  down-ordered q6 =
      if-ordered [] [] (use_group_down m f n il && moe_coop m f n il) _ _
        (down_group (on_set _ _ _ _ _) dns-On (on_set _ _ _ _ _))
        (if-ordered [] [] (use_group_down m f n il) _ _
          (down_group (on_set _ _ _ _ _) dns-On (on_set _ _ _ _ _))
          (down_single (on_set _ _ _ _ _) dns-On (on_set _ _ _ _ _)))

  select-ordered :
      (rest : List Command)
      → ordered [] [] rest ≡ true
      → ordered [] [] (select_commands m f n il ++ rest) ≡ true
  unfolding select_commands disp ordered
  select-ordered rest h = elim (Bool-cases (fuse_route m f n il)) [
    | inl fused ↦ rw (select_commands, fused) h
    | inr apart ↦ elim (Bool-cases (f.select256 || f.route_fused)) [
      | inl fast ↦ rw (select_commands, apart, fast) h
      | inr plain ↦ rw (select_commands, apart, plain) h
    ]
  ]

  pairs-ordered :
      (rest : List Command)
      → ordered [] [] rest ≡ true
      → ordered [] [] (pair_commands m f n il ++ rest) ≡ true
  unfolding pair_commands disp ordered
  pairs-ordered rest h = elim (Bool-cases (use_group_gu m f n il || use_group_down m f n il)) [
    | inl grouped ↦ rw (pair_commands, grouped) h
    | inr single ↦ rw (pair_commands, single) h
  ]

  router_list :
      {a b c : Command} (rest : List Command)
      → On s_add_n_route a ⊎ On s_add_n a
      → On s_moe_l b ⊎ On s_moe_rs b
      → On s_moe_gus c
      → ordered [] [] rest ≡ true
      → ordered [] [] (a ∷ barrier ∷ b ∷ c ∷ barrier ∷ rest) ≡ true
  unfolding ordered
  router_list rest (inl (on_set _ _ _ _ _)) (inl (on_set _ _ _ _ _)) (on_set _ _ _ _ _) h = h
  router_list rest (inl (on_set _ _ _ _ _)) (inr (on_set _ _ _ _ _)) (on_set _ _ _ _ _) h = h
  router_list rest (inr (on_set _ _ _ _ _)) (inl (on_set _ _ _ _ _)) (on_set _ _ _ _ _) h = h
  router_list rest (inr (on_set _ _ _ _ _)) (inr (on_set _ _ _ _ _)) (on_set _ _ _ _ _) h = h

  set_cases :
      (x : Bool) (s t : DescSet) (k : Kernel) (args : List ℕ) (gx gy gz : ℕ)
      → On s (dispatch_grid k (if x then s else t) args gx gy gz)
        ⊎ On t (dispatch_grid k (if x then s else t) args gx gy gz)
  set_cases true s t k args gx gy gz = inl (on_set k args gx gy gz)
  set_cases false s t k args gx gy gz = inr (on_set k args gx gy gz)

  swap : {c : Command} {s t : DescSet} → On s c ⊎ On t c → On t c ⊎ On s c
  swap (inl h) = inr h
  swap (inr h) = inl h

  if_either :
      (x : Bool) {s t : DescSet} {c d : Command}
      → On s c
      → On s d ⊎ On t d
      → On s (if x then c else d) ⊎ On t (if x then c else d)
  if_either true p q = inl p
  if_either false p q = q

  router-ordered :
      {c : Command} (rest : List Command)
      → On s_moe_gus c
      → ordered [] [] rest ≡ true
      → ordered [] [] (router_commands m f n il ++ c ∷ barrier ∷ rest) ≡ true
  unfolding router_commands disp
  router-ordered rest g h =
      router_list rest (set_cases (fuse_route m f n il) s_add_n_route s_add_n _ _ _ _ _)
        (if_either (use_logits_gemm m f n il) (on_set _ _ _ _ _)
          (swap (set_cases (fuse_route m f n il) s_moe_rs s_moe_l _ _ _ _ _)))
        g h

  expert-ordered :
      (q6 : Bool) (rest : List Command)
      → ordered [] [] rest ≡ true
      → ordered [] [] (expert_commands m f n il q6 ++ rest) ≡ true
  unfolding expert_commands
  expert-ordered q6 rest h =
      let tail = barrier ∷ [] in
      let routed = gate_up m f n il ∷ barrier ∷ (down_commands m f n il q6 ++ tail) in
      let pairs = pair_commands m f n il ++ routed in
      let chosen = select_commands m f n il ++ pairs in
      assoc-ordered (router_commands m f n il) (shared_gate_up m f n il ∷ barrier ∷ chosen) rest (
        router-ordered (chosen ++ rest) gus-On (
          assoc-ordered (select_commands m f n il) pairs rest (
            select-ordered (pairs ++ rest) (
              assoc-ordered (pair_commands m f n il) routed rest (
                pairs-ordered (routed ++ rest) (
                  ordered-barrier [] [] (gate_up m f n il ∷ [])
                    ((down_commands m f n il q6 ++ tail) ++ rest) gate_up-ordered
                    (assoc-ordered (down_commands m f n il q6) tail rest (
                      ordered-barrier [] [] (down_commands m f n il q6) rest (down-ordered q6)
                        h))))))))

-- A layer, and what follows it.
pub layer-ordered :
    (m : Model) (f : Flags) (n base il : ℕ) (l : LayerKind) (rest : List Command)
    → ordered [] [] rest ≡ true
    → ordered [] [] (layer_commands m f n base il l ++ rest) ≡ true
unfolding layer_commands
layer-ordered m f n base il l rest h =
    let core =
      if l.recurrent then delta_commands m f n il l else attention_commands m f n base il l in
    assoc-ordered core (barrier ∷ expert_commands m f n il l.down_q6) rest (
      ordered-barrier [] [] core (expert_commands m f n il l.down_q6 ++ rest)
        (if-ordered [] [] l.recurrent _ _ (delta-ordered m f n il l)
          (attention-ordered m f n base il l))
        (expert-ordered m f n il l.down_q6 rest h))

module _ (m : Model) (f : Flags) (n base : ℕ) where
  layers-ordered :
      (first il : ℕ) (ls : List LayerKind) (rest : List Command)
      → ordered [] [] rest ≡ true
      → ordered [] [] (layers_commands m f n base first il ls ++ rest) ≡ true
  unfolding layers_commands ordered
  layers-ordered first il [] rest h = h
  layers-ordered first il (l ∷ ls) rest h =
      let flush =
        if ((il + 1 - first) % f.flush_every == 0) && ltb 0 (length ls)
        then flush_commands
        else [] in
      let later = layers_commands m f n base first (il + 1) ls in
      let behind : ordered [] [] (later ++ rest) ≡ true = layers-ordered first (il + 1) ls rest h in
      assoc-ordered (layer_commands m f n base il l) (flush ++ later) rest (
        layer-ordered m f n base il l ((flush ++ later) ++ rest) (
          assoc-ordered flush later rest (
            flush-ordered ((il + 1 - first) % f.flush_every == 0 && ltb 0 (length ls))
              (later ++ rest) behind)))

  carry-ordered :
      (slot il : ℕ) (ls : List LayerKind) (ts ws : List Buffer) (rest : List Command)
      → ((ts ws : List Buffer) → ordered ts ws rest ≡ true)
      → ordered ts ws (carry_commands m f n base slot il ls ++ rest) ≡ true
  unfolding carry_commands ordered
  carry-ordered slot il [] ts ws rest h = h ts ws
  carry-ordered slot il (l ∷ ls) ts ws rest h = elim (Bool-cases l.recurrent) [
    | inl rec ↦
        rw (carry_commands, rec)
          (carry-ordered slot (il + 1) ls (b_conv_st ∷ b_carry ∷ ts) (b_carry ∷ ws) rest h)
    | inr att ↦ rw (carry_commands, att) (carry-ordered slot (il + 1) ls ts ws rest h)
  ]

  input-ordered :
      (hidden_in : Bool) (ts ws : List Buffer) (rest : List Command)
      → ordered [] [] rest ≡ true
      → ordered ts ws (input_commands m f n base hidden_in ++ rest) ≡ true
  unfolding input_commands disp ordered
  input-ordered true ts ws rest h = h
  input-ordered false ts ws rest h = h

  hidden-ordered :
      (hidden_out logits argmax : Bool)
      → ordered [] [] (
          (if hidden_out then copy_barrier ∷ copy_hidden_out (n * m.n_embd * 4) ∷ [] else [])
          ++ (head_commands m f n base logits argmax ++ submit ∷ []))
        ≡ true
  unfolding head_commands disp ordered
  hidden-ordered true true true = refl
  hidden-ordered true true false = refl
  hidden-ordered true false true = refl
  hidden-ordered true false false = refl
  hidden-ordered false true true = refl
  hidden-ordered false true false = refl
  hidden-ordered false false true = refl
  hidden-ordered false false false = refl

  -- In the command buffer of prefillBatchLast, for every model, setting of the switches, chunk,
  -- position, list of layers, input and output, no dispatch touches a buffer that an earlier
  -- dispatch or copy since the last barrier wrote, none writes a buffer that an earlier one since
  -- then touched, and every copy back stands behind a barrier from shaders to transfers with only
  -- copies back between them.
  pub pass_commands-ordered :
      (slot first : ℕ) (ls : List LayerKind) (hidden_in hidden_out logits argmax : Bool)
      → ordered [] [] (pass_commands m f n base slot first ls hidden_in hidden_out logits argmax)
        ≡ true
  unfolding pass_commands ordered
  pass_commands-ordered slot first ls hidden_in hidden_out logits argmax =
      let behind =
        (if hidden_out then copy_barrier ∷ copy_hidden_out (n * m.n_embd * 4) ∷ [] else [])
        ++ (head_commands m f n base logits argmax ++ submit ∷ []) in
      let body = layers_commands m f n base first first ls ++ behind in
      let ready : ordered [] [] body ≡ true =
        layers-ordered first first ls behind (hidden-ordered hidden_out logits argmax) in
      elim (Bool-cases (base == 0)) [
        | inl zero' ↦
            rw (pass_commands, zero')
              (input-ordered hidden_in (b_carry ∷ []) (b_carry ∷ []) body ready)
        | inr more ↦
            rw (pass_commands, more)
              (carry-ordered slot first ls [] [] (input_commands m f n base hidden_in ++ body)
                (λ ts ws. input-ordered hidden_in ts ws body ready))
      ]
