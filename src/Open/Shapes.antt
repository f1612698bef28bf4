-- ===== src/Open/Shapes.antt =====
-- What the checks of qk_engine::open leave.
use qwen_kernel.Prelude.{
  ◌%◌, ◌≤◌, ◌<◌, ◌≡◌, ◌⊎◌, ◌&&◌, ◌||◌, ◌++◌, ◌==◌, if◌then◌else◌, ℕ, refl, subst, inl, inr, Bool,
  true, false, not, Option, none, some, [], arith, ltb, leb, get_or,
}
use qwen_kernel.Gguf.Directory.{Directory, Tensor, find, kv_str_or}
use qwen_kernel.Open.{
  OpenError, Shape, arch_key, bad_block_count, bad_experts, bad_tensors, bad_used_count,
  block_count_key, check_experts, check_tensors, config_refused, embd_name, head_name, key_u32,
  keyed_shape, norm_name, open_experts, open_keys, open_owned, open_refuses, open_shape,
  open_tensors, owned_layers, used_count_key,
}
use qwen_kernel.Stub.{Config, LayersEnv, malformed, range, unset}

-- The ranges that the rest of the engine relies on.
pub record IsFit (s : Shape) : Type 0 where
  slots_low : 1 ≤ s.n_slots
  slots_high : s.n_slots ≤ 16
  ctx_low : 64 ≤ s.n_ctx
  ctx_high : s.n_ctx ≤ 65536
  chunk_low : 1 ≤ s.chunk
  chunk_high : s.chunk ≤ 32
  some_layer : s.l_first < s.l_end
  within : s.l_end ≤ s.n_layer
  layers_high : s.n_layer ≤ 256
  used_low : 1 ≤ s.n_used
  used_high : s.n_used ≤ 16
  experts_low : s.n_used ≤ s.n_exp
  experts_high : s.n_exp ≤ 512
  blocks : s.ff_e % 256 ≡ 0

-- The same before the experts' shape is read.
record Keyed (s : Shape) : Type 0 where
  slots_low : 1 ≤ s.n_slots
  slots_high : s.n_slots ≤ 16
  ctx_low : 64 ≤ s.n_ctx
  ctx_high : s.n_ctx ≤ 65536
  chunk_low : 1 ≤ s.chunk
  chunk_high : s.chunk ≤ 32
  some_layer : s.l_first < s.l_end
  within : s.l_end ≤ s.n_layer
  layers_high : s.n_layer ≤ 256
  used_low : 1 ≤ s.n_used
  used_high : s.n_used ≤ 16

abbrev shaped : Shape → OpenError ⊎ Shape
shaped s = inr s

shaped-injective : {a b : Shape} → shaped a ≡ shaped b → a ≡ b
shaped-injective h = cc

-- A check that was passed.
passed :
    (b : Bool) (e : OpenError) (x : OpenError ⊎ Shape) {s : Shape}
    → (if b then inl e else x) ≡ shaped s
    → (b ≡ false) × (x ≡ shaped s)
passed true e x h = absurd (ground arith)
passed false e x h = (refl, h)

some_passed :
    (b : Bool) (p r : ℕ × ℕ) → (if b then some p else none) ≡ some r → (b ≡ true) × (p ≡ r)
some_passed true p r h = (refl, some-injective h)
  where
    some-injective : {a b : ℕ × ℕ} → some a ≡ some b → a ≡ b
    some-injective h = cc
some_passed false p r h = absurd (ground arith)

check_experts-IsFit :
    (s s' : Shape) (gi ge : Option Tensor) → Keyed s → check_experts s gi ge ≡ inr s' → IsFit s'
unfolding check_experts
check_experts-IsFit s s' none ge k h = absurd (cc)
check_experts-IsFit s s' (some gi) none k h = absurd (cc)
check_experts-IsFit s s' (some gi) (some ge) k h =
    let n_exp = get_or gi.ne 1 0 % 4294967296 in
    let ff_e = get_or ge.ne 1 0 % 4294967296 in
    let p =
      passed (ltb n_exp s.n_used || ltb 512 n_exp || not (ff_e % 256 == 0)) bad_experts
        (inr (record s { n_exp = n_exp; ff_e = ff_e })) h in
    subst IsFit (shaped-injective p.1) (record {
      slots_low = k.slots_low;
      slots_high = k.slots_high;
      ctx_low = k.ctx_low;
      ctx_high = k.ctx_high;
      chunk_low = k.chunk_low;
      chunk_high = k.chunk_high;
      some_layer = k.some_layer;
      within = k.within;
      layers_high = k.layers_high;
      used_low = k.used_low;
      used_high = k.used_high;
      experts_low = ground (arith, p.0);
      experts_high = ground (arith, p.0);
      blocks = ground (arith, p.0);
    })

Keyed-tensors :
    (s : Shape) (q : Bool) (v : ℕ) → Keyed s → Keyed (record s { emb_q8 = q; vocab = v })
Keyed-tensors s q v k = record {
  slots_low = k.slots_low;
  slots_high = k.slots_high;
  ctx_low = k.ctx_low;
  ctx_high = k.ctx_high;
  chunk_low = k.chunk_low;
  chunk_high = k.chunk_high;
  some_layer = k.some_layer;
  within = k.within;
  layers_high = k.layers_high;
  used_low = k.used_low;
  used_high = k.used_high;
}

check_tensors-IsFit :
    (g : Directory) (s s' : Shape) (te tn th : Option Tensor)
    → Keyed s
    → check_tensors g s te tn th ≡ inr s'
    → IsFit s'
unfolding check_tensors open_experts
check_tensors-IsFit g s s' none tn th k h = absurd (cc)
check_tensors-IsFit g s s' (some te) none th k h = absurd (cc)
check_tensors-IsFit g s s' (some te) (some tn) none k h = absurd (cc)
check_tensors-IsFit g s s' (some te) (some tn) (some th) k h =
    let p =
      passed ((not (te.type == 14) && not (te.type == 8)) || not (th.type == 14)) bad_tensors
        (open_experts g (record s { emb_q8 = te.type == 8; vocab = get_or th.ne 1 0 % 4294967296 }))
        h in
    check_experts-IsFit _ s' _ _ (Keyed-tensors s (te.type == 8) (get_or th.ne 1 0 % 4294967296) k)
      p.1

owned_layers-within :
    (env : LayersEnv) (n : ℕ) (r : ℕ × ℕ)
    → 1 ≤ n
    → owned_layers env n ≡ some r
    → (r.0 < r.1) × (r.1 ≤ n)
unfolding owned_layers
owned_layers-within unset n r h e =
    let p = some_passed true (0, n) r e in subst (λ q. (q.0 < q.1) × (q.1 ≤ n)) p.1 (h, omega arith)
owned_layers-within (range a b) n r h e =
    let p = some_passed (ltb a b && leb b n) (a, b) r e in
    subst (λ q. (q.0 < q.1) × (q.1 ≤ n)) p.1 (ground (arith, p.0), ground (arith, p.0))
owned_layers-within malformed n r h e = absurd (ground arith)

open_owned-IsFit :
    (c : Config) (g : Directory) (env : LayersEnv) (o : Option (ℕ × ℕ)) (s : Shape)
    → open_refuses c ≡ false
    → owned_layers env (key_u32 g (kv_str_or g arch_key [] ++ block_count_key) 40) ≡ o
    → (ltb (key_u32 g (kv_str_or g arch_key [] ++ block_count_key) 40) 1
        || ltb 256 (key_u32 g (kv_str_or g arch_key [] ++ block_count_key) 40))
      ≡ false
    → (ltb (key_u32 g (kv_str_or g arch_key [] ++ used_count_key) 8) 1
        || ltb 16 (key_u32 g (kv_str_or g arch_key [] ++ used_count_key) 8))
      ≡ false
    → open_owned c g o ≡ inr s
    → IsFit s
unfolding open_owned open_tensors keyed_shape open_refuses
open_owned-IsFit c g env none s cr e nl nu h = absurd (ground arith)
open_owned-IsFit c g env (some r) s cr e nl nu h =
    let low : 1 ≤ key_u32 g (kv_str_or g arch_key [] ++ block_count_key) 40 = ground (arith, nl) in
    let w =
      owned_layers-within env (key_u32 g (kv_str_or g arch_key [] ++ block_count_key) 40) r low e in
    check_tensors-IsFit g (keyed_shape c g r) s (find embd_name g.tensors)
      (find norm_name g.tensors) (find head_name g.tensors)
      (record {
        slots_low = ground (arith, cr);
        slots_high = ground (arith, cr);
        ctx_low = ground (arith, cr);
        ctx_high = ground (arith, cr);
        chunk_low = ground (arith, cr);
        chunk_high = ground (arith, cr);
        some_layer = w.0;
        within = w.1;
        layers_high = ground (arith, nl);
        used_low = ground (arith, nu);
        used_high = ground (arith, nu);
      })
      h

-- When the checks of qk_engine::open pass, there are 1 to 16 slots, a context of 64 to 65536,
-- chunks of 1 to 32, at least one owned layer, at most 256 layers, 1 to 16 experts used of at most
-- 512, at least as many as used, and the experts' width is a multiple of 256.
pub open_shape-IsFit :
    (c : Config) (env : LayersEnv) (file : Option Directory) (s : Shape)
    → open_shape c env file ≡ inr s
    → IsFit s
unfolding open_shape open_keys
open_shape-IsFit c env none s h = absurd (ground arith)
open_shape-IsFit c env (some g) s h =
    let p = passed (open_refuses c) config_refused (open_keys c env g) h in
    let q = passed _ bad_block_count _ p.1 in
    let t = passed _ bad_used_count _ q.1 in
    open_owned-IsFit c g env
      (owned_layers env (key_u32 g (kv_str_or g arch_key [] ++ block_count_key) 40)) s p.0 refl q.0
      t.0 t.1
