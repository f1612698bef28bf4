-- ===== src/Batch/Pass.antt =====
-- prefillBatchLast: the whole command buffer, from the carry of the convolutions to the head.
use qwen_kernel.Prelude.{
  ◌+◌, ◌-◌, ◌*◌, ◌%◌, ◌&&◌, ◌||◌, ◌∷◌, ◌++◌, ◌==◌, if◌then◌else◌, ℕ, Bool, Option, none, some, List,
  [], ltb, length,
}
use qwen_kernel.Batch.{
  Command, Flags, LayerKind, Model, barrier, copy_barrier, copy_carry, copy_hidden_in,
  copy_hidden_out, copy_ids, copy_logits, p_am1, p_am2, p_emb, p_head, p_rms, s_am1, s_am2, s_emb,
  s_head, s_rms, submit, zero_carry,
}
use qwen_kernel.Batch.Attention.{attention_commands}
use qwen_kernel.Batch.Delta.{delta_commands}
use qwen_kernel.Batch.Experts.{expert_commands}
use qwen_kernel.Batch.Project.{blocks, disp, w32}

-- QK_SUBMIT_LAYERS and QK_ATTN_BUDGET, as atol reads them; none when unset. atol's result may be
-- negative: it is then below the least value, as 0 is.
unfoldable pub flush_every_of : Option ℕ → ℕ
flush_every_of none = 8
flush_every_of (some x) = if ltb x 1 then 1 else w32 x

unfoldable pub attn_budget_of : Option ℕ → ℕ
attn_budget_of none = 2097152
attn_budget_of (some x) = if ltb x 4096 then 4096 else x

-- Where the hidden rows stand in the staging buffer.
abbrev pub hid_in_off : ℕ
hid_in_off = 1048576

unfoldable pub hid_out_off : ℕ → ℕ → ℕ
hid_out_off max_b n_embd = 1048576 + max_b * n_embd * 4

-- flushCB.
abbrev pub flush_commands : List Command
flush_commands = submit ∷ barrier ∷ []

module _ (m : Model) (f : Flags) (n base : ℕ) where
  unfoldable pub layer_commands : ℕ → LayerKind → List Command
  unfolding delta_commands attention_commands expert_commands
  layer_commands il l =
      (if l.recurrent then delta_commands m f n il l else attention_commands m f n base il l)
      ++ barrier ∷ expert_commands m f n il l.down_q6

  -- The layers from `il` on of a stage that starts at `first`; no submission after the last.
  unfoldable pub layers_commands : ℕ → ℕ → List LayerKind → List Command
  unfolding layer_commands
  layers_commands first il [] = []
  layers_commands first il (l ∷ ls) =
      layer_commands il l
      ++ ((if ((il + 1 - first) % f.flush_every == 0) && ltb 0 (length ls)
            then flush_commands
            else [])
          ++ layers_commands first (il + 1) ls)

  -- The carry of a recurrent layer's convolution, from the slot's window.
  unfoldable pub carry_commands : ℕ → ℕ → List LayerKind → List Command
  carry_commands slot il [] = []
  carry_commands slot il (l ∷ ls) =
      (if l.recurrent then copy_carry slot il ∷ [] else []) ++ carry_commands slot (il + 1) ls

  unfoldable pub input_commands : Bool → List Command
  unfolding disp
  input_commands hidden_in =
      (if hidden_in
        then copy_hidden_in (n * m.n_embd * 4) ∷ barrier ∷ []
        else barrier ∷ disp m n p_emb s_emb 1 (m.n_embd ∷ 0 ∷ 1 ∷ []) ∷ barrier ∷ [])
      ++ disp m n p_rms s_rms 1 (m.n_embd ∷ []) ∷ barrier ∷ []

  -- The head, with the argmax of every row and the copies back.
  unfoldable pub head_commands : Bool → Bool → List Command
  unfolding disp
  head_commands logits argmax =
      let wgs = blocks m.n_vocab 4096 in
      if logits || argmax
      then disp m n p_head s_head (blocks m.n_vocab 2) (m.n_vocab ∷ m.n_embd ∷ [])
          ∷ (if argmax
              then barrier
                ∷ disp m n p_am1 s_am1 wgs (m.n_vocab ∷ 4096 ∷ [])
                ∷ barrier
                ∷ disp m n p_am2 s_am2 1 (wgs ∷ [])
                ∷ []
              else [])
        ++ copy_barrier ∷ (if logits then copy_logits (n - 1) ∷ [] else [])
        ++ (if argmax then copy_ids n ∷ [] else [])
      else []

  -- The buffer: `first` is the stage's first layer, `ls` its layers.
  unfoldable pub pass_commands : ℕ → ℕ → List LayerKind → Bool → Bool → Bool → Bool → List Command
  unfolding layers_commands carry_commands input_commands head_commands
  pass_commands slot first ls hidden_in hidden_out logits argmax =
      (if base == 0
        then zero_carry (m.n_layer * m.ch_qkv * 3 * 4) ∷ []
        else carry_commands slot first ls)
      ++ (input_commands hidden_in
          ++ (layers_commands first first ls
              ++ ((if hidden_out
                    then copy_barrier ∷ copy_hidden_out (n * m.n_embd * 4) ∷ []
                    else [])
                  ++ (head_commands logits argmax ++ submit ∷ []))))
