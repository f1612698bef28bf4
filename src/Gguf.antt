-- ===== src/Gguf.antt =====
-- The GGUF reader of src/gguf.h: the little-endian reads and the skipping of values.
pub mod Bytes
pub mod Skip
pub mod Ends
pub mod Directory
pub mod Write
pub mod RoundTrip
pub mod Lookups
pub mod Entries
pub mod Contents
use qwen_kernel.Prelude.{
  ◌+◌, ◌*◌, ◌/◌, ◌%◌, ◌||◌, ◌∷◌, ◌==◌, if◌then◌else◌, ℕ, zero, suc, Option, none, some, List, [],
  leb, length, take, drop,
}

-- Where the reader stands: pos_, and the bytes of the mapping from there on.
pub record Cursor : Type 0 where
  pub pos : ℕ
  pub rest : List ℕ

-- What a read yields: a value and the new position, a read past the end of the mapping (a string
-- so long may also fail to be allocated first), the exit on an unknown value type, a vector of
-- tensor infos that cannot be allocated, or fuel used up.
pub data Read (A : Type 0) : Type 0 where
  got : A → Cursor → Read A
  overrun : Read A
  bad_type : Read A
  no_memory : Read A
  no_fuel : Read A

infixl 5 ◌>=>◌
abbrev pub ◌>=>◌ : {A B : Type 0} → Read A → (A → Cursor → Read B) → Read B
got a c >=> f = f a c
overrun >=> f = overrun
bad_type >=> f = bad_type
no_memory >=> f = no_memory
no_fuel >=> f = no_fuel

abbrev pub advance_by : ℕ → Cursor → Cursor
advance_by n c = record { pos = c.pos + n; rest = drop n c.rest }

-- A little-endian number.
unfoldable pub le : List ℕ → ℕ
le [] = 0
le (b ∷ bs) = b + 256 * le bs

-- rd<T>, for a T of w bytes.
unfoldable pub rd : ℕ → Cursor → Read ℕ
unfolding le
rd w c = if leb w (length c.rest) then got (le (take w c.rest)) (advance_by w c) else overrun

unfoldable pub rd_str : Cursor → Read (List ℕ)
unfolding rd
rd_str c = rd 8 c >=> λ n c1.
    if leb n (length c1.rest) then got (take n c1.rest) (advance_by n c1) else overrun

-- sizeof of the scalar value types.
unfoldable pub scalar_width : ℕ → Option ℕ
scalar_width t =
    if (t == 0) || (t == 1) || (t == 7)
    then some 1
    else if (t == 2) || (t == 3)
    then some 2
    else if (t == 4) || (t == 5) || (t == 6)
    then some 4
    else if (t == 10) || (t == 11) || (t == 12)
    then some 8
    else none

unfoldable mutual
  unfolding rd rd_str scalar_width

  -- skipValue: the value of a scalar, else 0.
  pub skip_value : ℕ → ℕ → Cursor → Read ℕ
  skip_value zero t c = no_fuel
  skip_value (suc fuel) t c = elim (scalar_width t) [
    | some w ↦ rd w c
    | none ↦
        if t == 8
        then (rd_str c >=> λ s c1. got 0 c1)
        else if t == 9
        then (rd 4 c >=> λ et c1. rd 8 c1 >=> λ n c2. skip_items fuel et n c2)
        else bad_type
  ]

  -- The loop over an array's elements.
  pub skip_items : ℕ → ℕ → ℕ → Cursor → Read ℕ
  skip_items zero et n c = no_fuel
  skip_items (suc fuel) et zero c = got 0 c
  skip_items (suc fuel) et (suc n) c = skip_value fuel et c >=> λ v c1. skip_items fuel et n c1

-- ggmlRowBytes: the bytes of a row of ne0 elements, in uint64_t; 0 for an unknown type.
unfoldable pub row_bytes : ℕ → ℕ → ℕ
row_bytes t ne0 =
    if t == 0
    then ne0 * 4 % 18446744073709551616
    else if t == 1
    then ne0 * 2 % 18446744073709551616
    else if t == 8
    then ne0 / 32 * 34 % 18446744073709551616
    else if t == 14
    then ne0 / 256 * 210 % 18446744073709551616
    else if t == 23
    then ne0 / 256 * 136 % 18446744073709551616
    else if t == 18
    then ne0 / 256 * 98 % 18446744073709551616
    else 0
