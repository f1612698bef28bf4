-- ===== src/Batch/Buffers.antt =====
-- The buffers that the descriptor sets of prefillBatchLast bind (qk_engine::open in src/main.cpp), and
-- which of them the kernels write (the qualifiers of the buffers in shaders/*.comp).
use qwen_kernel.Prelude.{◌∷◌, ℕ, List, [], get_or}
use qwen_kernel.Batch.{
  DescSet, s_ab, s_add3, s_add3_group, s_add_n, s_add_n_route, s_am1, s_am2, s_attn, s_attn_r,
  s_attn_s, s_conv, s_emb, s_gate, s_head, s_moe_dn, s_moe_dn_group, s_moe_dns, s_moe_group_pairs,
  s_moe_gu, s_moe_gu_group, s_moe_gus, s_moe_l, s_moe_rs, s_moe_s, s_moe_s256, s_p1, s_p2, s_p2_kv,
  s_p3, s_prep, s_rms, s_step, s_step_gate, s_wo,
}

-- The activations and the slot's state; the weights, which are never written, are one.
pub data Buffer : Type 0 where
  b_weight : Buffer
  b_xin : Buffer
  b_xn : Buffer
  b_big : Buffer
  b_mid : Buffer
  b_gb : Buffer
  b_carry : Buffer
  b_conv_out : Buffer
  b_conv_st : Buffer
  b_state : Buffer
  b_o : Buffer
  b_att : Buffer
  b_attn_out : Buffer
  b_kin : Buffer
  b_vin : Buffer
  b_kc : Buffer
  b_vc : Buffer
  b_rope : Buffer
  b_att_scratch : Buffer
  b_pos : Buffer
  b_y : Buffer
  b_xn2 : Buffer
  b_ml : Buffer
  b_m_sel : Buffer
  b_mh : Buffer
  b_my : Buffer
  b_my2 : Buffer
  b_m_offsets : Buffer
  b_m_pairs : Buffer
  b_m_contrib : Buffer
  b_logits : Buffer
  b_v_av : Buffer
  b_v_ai : Buffer
  b_v_tok : Buffer
  b_in_ids : Buffer

unfoldable pub buffer_id : Buffer → ℕ
buffer_id b_weight = 0
buffer_id b_xin = 1
buffer_id b_xn = 2
buffer_id b_big = 3
buffer_id b_mid = 4
buffer_id b_gb = 5
buffer_id b_carry = 6
buffer_id b_conv_out = 7
buffer_id b_conv_st = 8
buffer_id b_state = 9
buffer_id b_o = 10
buffer_id b_att = 11
buffer_id b_attn_out = 12
buffer_id b_kin = 13
buffer_id b_vin = 14
buffer_id b_kc = 15
buffer_id b_vc = 16
buffer_id b_rope = 17
buffer_id b_att_scratch = 18
buffer_id b_pos = 19
buffer_id b_y = 20
buffer_id b_xn2 = 21
buffer_id b_ml = 22
buffer_id b_m_sel = 23
buffer_id b_mh = 24
buffer_id b_my = 25
buffer_id b_my2 = 26
buffer_id b_m_offsets = 27
buffer_id b_m_pairs = 28
buffer_id b_m_contrib = 29
buffer_id b_logits = 30
buffer_id b_v_av = 31
buffer_id b_v_ai = 32
buffer_id b_v_tok = 33
buffer_id b_in_ids = 34

-- The buffers in the order of their bindings: the sets of a recurrent layer, then those that an
-- attention layer has in addition, then those of the experts and the head.
unfoldable pub delta_bindings : DescSet → List Buffer
delta_bindings s_rms = b_xin ∷ b_weight ∷ b_xn ∷ []
delta_bindings s_p1 = b_weight ∷ b_xn ∷ b_big ∷ []
delta_bindings s_p2 = b_weight ∷ b_xn ∷ b_mid ∷ []
delta_bindings s_ab = b_xn ∷ b_weight ∷ b_weight ∷ b_weight ∷ b_weight ∷ b_gb ∷ []
delta_bindings s_conv = b_carry ∷ b_big ∷ b_weight ∷ b_conv_out ∷ b_conv_st ∷ []
delta_bindings s_step = b_conv_out ∷ b_gb ∷ b_o ∷ b_state ∷ []
delta_bindings s_step_gate = b_conv_out ∷ b_gb ∷ b_state ∷ b_weight ∷ b_mid ∷ b_att ∷ []
delta_bindings s_gate = b_o ∷ b_weight ∷ b_mid ∷ b_att ∷ []
delta_bindings s_wo = b_weight ∷ b_att ∷ b_attn_out ∷ []
delta_bindings s = []

unfoldable pub attention_bindings : DescSet → List Buffer
unfolding delta_bindings
attention_bindings s_p2_kv = b_weight ∷ b_xn ∷ b_kin ∷ []
attention_bindings s_p3 = b_weight ∷ b_xn ∷ b_vin ∷ []
attention_bindings s_prep =
    b_big ∷ b_kin ∷ b_vin ∷ b_weight ∷ b_weight ∷ b_mid ∷ b_kc ∷ b_vc ∷ b_rope ∷ []
attention_bindings s_attn = b_mid ∷ b_kc ∷ b_vc ∷ b_big ∷ b_att ∷ []
attention_bindings s_attn_s = b_mid ∷ b_kc ∷ b_vc ∷ b_att_scratch ∷ b_pos ∷ []
attention_bindings s_attn_r = b_att_scratch ∷ b_big ∷ b_att ∷ b_pos ∷ []
attention_bindings s = delta_bindings s

unfoldable pub bindings : DescSet → List Buffer
unfolding attention_bindings
bindings s_emb = b_weight ∷ b_in_ids ∷ b_xin ∷ []
bindings s_add_n = b_xin ∷ b_attn_out ∷ b_weight ∷ b_y ∷ b_xn2 ∷ []
bindings s_add_n_route = b_xin ∷ b_attn_out ∷ b_weight ∷ b_y ∷ b_xn2 ∷ b_m_sel ∷ []
bindings s_moe_l = b_weight ∷ b_xn2 ∷ b_ml ∷ []
bindings s_moe_rs = b_weight ∷ b_xn2 ∷ b_ml ∷ b_weight ∷ b_m_sel ∷ []
bindings s_moe_s = b_ml ∷ b_weight ∷ b_xn2 ∷ b_m_sel ∷ []
bindings s_moe_s256 = b_ml ∷ b_weight ∷ b_xn2 ∷ b_m_sel ∷ []
bindings s_moe_group_pairs = b_m_sel ∷ b_m_offsets ∷ b_m_pairs ∷ []
bindings s_moe_gus = b_weight ∷ b_weight ∷ b_xn2 ∷ b_mh ∷ []
bindings s_moe_gu = b_weight ∷ b_weight ∷ b_xn2 ∷ b_m_sel ∷ b_mh ∷ []
bindings s_moe_gu_group = b_weight ∷ b_weight ∷ b_xn2 ∷ b_m_offsets ∷ b_m_pairs ∷ b_mh ∷ []
bindings s_moe_dn = b_weight ∷ b_mh ∷ b_m_sel ∷ b_my ∷ []
bindings s_moe_dn_group = b_weight ∷ b_mh ∷ b_m_sel ∷ b_m_offsets ∷ b_m_pairs ∷ b_m_contrib ∷ []
bindings s_moe_dns = b_weight ∷ b_mh ∷ b_m_sel ∷ b_my2 ∷ []
bindings s_add3 = b_y ∷ b_my ∷ b_my2 ∷ b_weight ∷ b_xin ∷ b_xn ∷ []
bindings s_add3_group = b_y ∷ b_m_contrib ∷ b_my2 ∷ b_weight ∷ b_xin ∷ b_xn ∷ []
bindings s_head = b_weight ∷ b_xn ∷ b_logits ∷ []
bindings s_am1 = b_logits ∷ b_v_av ∷ b_v_ai ∷ []
bindings s_am2 = b_v_av ∷ b_v_ai ∷ b_v_tok ∷ []
bindings s = attention_bindings s

-- The bindings that the kernels on a set write.
unfoldable pub write_slots : DescSet → List ℕ
write_slots s_emb = 2 ∷ []
write_slots s_rms = 2 ∷ []
write_slots s_p1 = 2 ∷ []
write_slots s_p2 = 2 ∷ []
write_slots s_p2_kv = 2 ∷ []
write_slots s_p3 = 2 ∷ []
write_slots s_ab = 5 ∷ []
write_slots s_conv = 3 ∷ 4 ∷ []
write_slots s_step = 2 ∷ 3 ∷ []
write_slots s_step_gate = 2 ∷ 5 ∷ []
write_slots s_gate = 3 ∷ []
write_slots s_wo = 2 ∷ []
write_slots s_prep = 5 ∷ 6 ∷ 7 ∷ []
write_slots s_attn = 4 ∷ []
write_slots s_attn_s = 3 ∷ []
write_slots s_attn_r = 2 ∷ []
write_slots s_add_n = 3 ∷ 4 ∷ []
write_slots s_add_n_route = 3 ∷ 4 ∷ 5 ∷ []
write_slots s_moe_l = 2 ∷ []
write_slots s_moe_rs = 2 ∷ 4 ∷ []
write_slots s_moe_s = 3 ∷ []
write_slots s_moe_s256 = 3 ∷ []
write_slots s_moe_group_pairs = 1 ∷ 2 ∷ []
write_slots s_moe_gus = 3 ∷ []
write_slots s_moe_gu = 4 ∷ []
write_slots s_moe_gu_group = 5 ∷ []
write_slots s_moe_dn = 3 ∷ []
write_slots s_moe_dn_group = 5 ∷ []
write_slots s_moe_dns = 3 ∷ []
write_slots s_add3 = 4 ∷ 5 ∷ []
write_slots s_add3_group = 4 ∷ 5 ∷ []
write_slots s_head = 2 ∷ []
write_slots s_am1 = 1 ∷ 2 ∷ []
write_slots s_am2 = 2 ∷ []

unfoldable pub picked : List ℕ → List Buffer → List Buffer
picked [] bs = []
picked (i ∷ is) bs = get_or bs i b_weight ∷ picked is bs

abbrev pub written : DescSet → List Buffer
written s = picked (write_slots s) (bindings s)
