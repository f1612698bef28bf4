-- ===== src/Gguf/Bytes.antt =====
-- Reading back what was written, one field at a time.
use native.Mathlib.Nat.{pow-succ'}
use qwen_kernel.Prelude.{
  ◌+◌, ◌*◌, ◌/◌, ◌%◌, ◌^◌, ◌<◌, ◌≡◌, ◌∙◌, ◌∷◌, ◌++◌, ℕ, zero, suc, refl, sym, ap, true, List, [],
  append_assoc, arith, leb, length, take, drop, length-append, take_all, take-append_left, drop_all,
  drop-append_left,
}
use qwen_kernel.Gguf.{Cursor, got, le, rd, rd_str}

-- The w low bytes of a number, the lowest first.
unfoldable pub le_bytes : ℕ → ℕ → List ℕ
le_bytes zero n = []
le_bytes (suc w) n = n % 256 ∷ le_bytes w (n / 256)

pub length-le_bytes : (w n : ℕ) → length (le_bytes w n) ≡ w
unfolding le_bytes
length-le_bytes zero n = refl
length-le_bytes (suc w) n = ap suc (length-le_bytes w (n / 256))

pub le-le_bytes : (w n : ℕ) → n < 256 ^ w → le (le_bytes w n) ≡ n
unfolding le le_bytes
le-le_bytes zero n h = let e : 256 ^ 0 ≡ 1 = refl in omega arith
le-le_bytes (suc w) n h =
    let more : 256 ^ suc w ≡ 256 * 256 ^ w = pow-succ' 256 w in
    let rest = le-le_bytes w (n / 256) (omega arith) in omega (arith, rest)

take_exact : (xs ys : List ℕ) (n : ℕ) → n ≡ length xs → take n (xs ++ ys) ≡ xs
take_exact xs ys n e =
    rw e (take-append_left (length xs) xs ys (omega arith) ∙ take_all (length xs) xs (omega arith))

drop_exact : (xs ys : List ℕ) (n : ℕ) → n ≡ length xs → drop n (xs ++ ys) ≡ ys
drop_exact xs ys n e = rw e (
    drop-append_left (length xs) xs ys (omega arith)
    ∙ ap (λ zs. zs ++ ys) (drop_all (length xs) xs (omega arith)))

-- The cursor behind the bytes.
abbrev pub behind : ℕ → List ℕ → List ℕ → Cursor
behind p bs rest = record { pos = p + length bs; rest = rest }

pub rd-le_bytes :
    (w n p : ℕ) (rest : List ℕ)
    → n < 256 ^ w
    → rd w (record { pos = p; rest = le_bytes w n ++ rest })
      ≡ got n (record { pos = p + w; rest = rest })
unfolding rd
rd-le_bytes w n p rest h =
    let size = length-le_bytes w n in
    let enough : leb w (length (le_bytes w n ++ rest)) ≡ true =
      ground (arith, length-append (le_bytes w n) rest, size) in
    rw (
      enough,
      take_exact (le_bytes w n) rest w (sym size),
      drop_exact (le_bytes w n) rest w (sym size),
      le-le_bytes w n h,
    )

abbrev pub str_bytes : List ℕ → List ℕ
str_bytes s = le_bytes 8 (length s) ++ s

pub rd_str-str_bytes :
    (s : List ℕ) (p : ℕ) (rest : List ℕ)
    → length s < 256 ^ 8
    → rd_str (record { pos = p; rest = str_bytes s ++ rest })
      ≡ got s (record { pos = p + 8 + length s; rest = rest })
unfolding rd_str
rd_str-str_bytes s p rest h =
    let enough : leb (length s) (length (s ++ rest)) ≡ true =
      ground (arith, length-append s rest) in
    rw (
      append_assoc (le_bytes 8 (length s)) s rest,
      rd-le_bytes 8 (length s) p (s ++ rest) h,
      enough,
      take_exact s rest (length s) refl,
      drop_exact s rest (length s) refl,
    )
