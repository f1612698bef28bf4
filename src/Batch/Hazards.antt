-- ===== src/Batch/Hazards.antt =====
-- Barriers: no kernel of a pass touches what an earlier one wrote, or writes what an earlier one
-- read, without a barrier between them.
use qwen_kernel.Prelude.{
  ◌≡◌, ◌||◌, ◌∷◌, ◌++◌, ◌==◌, if◌then◌else◌, refl, Bool, true, false, List, [], arith,
}
use qwen_kernel.Batch.{
  Command, barrier, copy_barrier, copy_carry, copy_hidden_in, copy_hidden_out, copy_ids,
  copy_logits, dispatch_grid, submit, zero_carry,
}
use qwen_kernel.Batch.Buffers.{
  Buffer, b_carry, b_conv_st, b_logits, b_v_tok, b_xin, bindings, buffer_id, picked, write_slots,
  written,
}

unfoldable pub among : Buffer → List Buffer → Bool
unfolding buffer_id
among b [] = false
among b (c ∷ cs) = (buffer_id b == buffer_id c) || among b cs

unfoldable pub meets : List Buffer → List Buffer → Bool
unfolding among
meets [] cs = false
meets (b ∷ bs) cs = among b cs || meets bs cs

-- A scan of commands with the buffers touched and written since the last barrier. A copy back is
-- in order only behind a copy barrier, with no command but copies between them. The copies of the
-- carry write the layers' own parts of a buffer and are apart from each other.
unfoldable mutual
  unfolding meets buffer_id picked bindings write_slots

  pub ordered : List Buffer → List Buffer → List Command → Bool
  ordered ts ws [] = true
  ordered ts ws (barrier ∷ cs) = ordered [] [] cs
  ordered ts ws (copy_barrier ∷ cs) = copies_ordered ts ws cs
  ordered ts ws (submit ∷ cs) = ordered ts ws cs
  ordered ts ws (dispatch_grid k s args gx gy gz ∷ cs) =
      let rest = ordered (bindings s ++ ts) (written s ++ ws) cs in
      if meets (bindings s) ws || meets (written s) ts then false else rest
  ordered ts ws (zero_carry a ∷ cs) = ordered (b_carry ∷ ts) (b_carry ∷ ws) cs
  ordered ts ws (copy_carry a b ∷ cs) = ordered (b_conv_st ∷ b_carry ∷ ts) (b_carry ∷ ws) cs
  ordered ts ws (copy_hidden_in a ∷ cs) = ordered (b_xin ∷ ts) (b_xin ∷ ws) cs
  ordered ts ws (copy_hidden_out a ∷ cs) = false
  ordered ts ws (copy_logits a ∷ cs) = false
  ordered ts ws (copy_ids a ∷ cs) = false

  -- Behind a copy barrier. What shaders wrote is still not ordered before other shaders.
  pub copies_ordered : List Buffer → List Buffer → List Command → Bool
  copies_ordered ts ws [] = true
  copies_ordered ts ws (barrier ∷ cs) = ordered [] [] cs
  copies_ordered ts ws (copy_barrier ∷ cs) = copies_ordered ts ws cs
  copies_ordered ts ws (submit ∷ cs) = ordered ts ws cs
  copies_ordered ts ws (dispatch_grid k s args gx gy gz ∷ cs) =
      let rest = ordered (bindings s ++ ts) (written s ++ ws) cs in
      if meets (bindings s) ws || meets (written s) ts then false else rest
  copies_ordered ts ws (zero_carry a ∷ cs) = ordered (b_carry ∷ ts) (b_carry ∷ ws) cs
  copies_ordered ts ws (copy_carry a b ∷ cs) = ordered (b_conv_st ∷ b_carry ∷ ts) (b_carry ∷ ws) cs
  copies_ordered ts ws (copy_hidden_in a ∷ cs) = ordered (b_xin ∷ ts) (b_xin ∷ ws) cs
  copies_ordered ts ws (copy_hidden_out a ∷ cs) = copies_ordered (b_xin ∷ ts) ws cs
  copies_ordered ts ws (copy_logits a ∷ cs) = copies_ordered (b_logits ∷ ts) ws cs
  copies_ordered ts ws (copy_ids a ∷ cs) = copies_ordered (b_v_tok ∷ ts) ws cs

guard : (b : Bool) {x : Bool} → (if b then false else x) ≡ true → (b ≡ false) × (x ≡ true)
guard true h = absurd (ground arith)
guard false h = (refl, h)

pub guarded : {b x : Bool} → b ≡ false → x ≡ true → (if b then false else x) ≡ true
guarded e h = rw e h

-- A list up to a barrier and the list behind it are judged apart, in either state of the scan.
barrier_splits :
    (ts ws : List Buffer) (cs ds : List Command)
    → ordered [] [] ds ≡ true
    → (ordered ts ws cs ≡ true → ordered ts ws (cs ++ barrier ∷ ds) ≡ true)
      × (copies_ordered ts ws cs ≡ true → copies_ordered ts ws (cs ++ barrier ∷ ds) ≡ true)
unfolding ordered copies_ordered
barrier_splits ts ws [] ds b = (λ a. b, λ a. b)
barrier_splits ts ws (barrier ∷ cs) ds b =
    let rest = barrier_splits [] [] cs ds b in (rest.0, rest.0)
barrier_splits ts ws (copy_barrier ∷ cs) ds b =
    let rest = barrier_splits ts ws cs ds b in (rest.1, rest.1)
barrier_splits ts ws (submit ∷ cs) ds b =
    let rest = barrier_splits ts ws cs ds b in (rest.0, rest.0)
barrier_splits ts ws (dispatch_grid k s args gx gy gz ∷ cs) ds b =
    let rest = barrier_splits (bindings s ++ ts) (written s ++ ws) cs ds b in
    (
      λ a.
          let g = guard (meets (bindings s) ws || meets (written s) ts) a in
          guarded g.0 (rest.0 g.1),
      λ a.
          let g = guard (meets (bindings s) ws || meets (written s) ts) a in
          guarded g.0 (rest.0 g.1),
    )
barrier_splits ts ws (zero_carry x ∷ cs) ds b =
    let rest = barrier_splits (b_carry ∷ ts) (b_carry ∷ ws) cs ds b in (rest.0, rest.0)
barrier_splits ts ws (copy_carry x y ∷ cs) ds b =
    let rest = barrier_splits (b_conv_st ∷ b_carry ∷ ts) (b_carry ∷ ws) cs ds b in (rest.0, rest.0)
barrier_splits ts ws (copy_hidden_in x ∷ cs) ds b =
    let rest = barrier_splits (b_xin ∷ ts) (b_xin ∷ ws) cs ds b in (rest.0, rest.0)
barrier_splits ts ws (copy_hidden_out x ∷ cs) ds b =
    (λ a. a, (barrier_splits (b_xin ∷ ts) ws cs ds b).1)
barrier_splits ts ws (copy_logits x ∷ cs) ds b =
    (λ a. a, (barrier_splits (b_logits ∷ ts) ws cs ds b).1)
barrier_splits ts ws (copy_ids x ∷ cs) ds b = (λ a. a, (barrier_splits (b_v_tok ∷ ts) ws cs ds b).1)

pub ordered-barrier :
    (ts ws : List Buffer) (cs ds : List Command)
    → ordered ts ws cs ≡ true
    → ordered [] [] ds ≡ true
    → ordered ts ws (cs ++ barrier ∷ ds) ≡ true
ordered-barrier ts ws cs ds a b = (barrier_splits ts ws cs ds b).0 a
