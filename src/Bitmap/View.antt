-- ===== src/Bitmap/View.antt =====
-- What a bitmap stands for: a truth value for each index below `bit_cnt`.
use pintos_lab.Base.{
  ℕ, ◌*◌, ◌/◌, ◌%◌, ◌^◌, ◌≤◌, ◌<◌, bit_and, bit_or, bit_xor, ◌≡◌, Bool, true, false, not, none,
  some, arith, ltb, ◌==◌, if◌then◌else◌, set, length, get_or-set_self, get_or-set_ne, ℕ_discrete,
}
use pintos_lab.Base.Bits.{
  bit, bit-le-one, bit-bit_and, bit-bit_or, bit-bit_xor, bit-pow, bit-complement, bit_and-pow,
  complement,
}
use native.Mathlib.Nat.{one-le-pow, pow-le-pow_right}
use pintos_lab.Bitmap.{
  Bitmap, bit_mask, element, bitmap_mark, bitmap_reset, bitmap_flip, bitmap_test,
}

-- Enough elements for the bits, and a `size_t` number of bits.
pub record IsValid (b : Bitmap) : Type 0 where
  pub size : b.bit_cnt < 2 ^ 32
  pub room : b.bit_cnt ≤ 32 * length b.bits

-- The bit at an index.
unfoldable pub value_at : Bitmap → ℕ → Bool
value_at b i = bit (element b i) (i % 32) == 1

same_place : (i j : ℕ) → i / 32 ≡ j / 32 → (i % 32 == j % 32) ≡ (i == j)
same_place i j e = ground arith

-- A write of one element changes the view in that element alone, as the bits of the new word say.
value_at-set :
    (b : Bitmap) (i w j : ℕ)
    → i / 32 < length b.bits
    → value_at (record b { bits = set b.bits (i / 32) w }) j
      ≡ (if i / 32 == j / 32 then bit w (j % 32) == 1 else value_at b j)
unfolding value_at
value_at-set b i w j h = elim (ℕ_discrete (i / 32) (j / 32)) [
  | yes e ↦ ground (arith, get_or-set_self b.bits (i / 32) w 0 h)
  | no ne ↦ ground (arith, get_or-set_ne b.bits (i / 32) (j / 32) w 0 ne)
]

mask-lt : (i : ℕ) → 2 ^ (i % 32) < 2 ^ 32
mask-lt i =
    omega (arith, pow-le-pow_right {n = 2} (omega arith) {i = i % 32} {j = 31} (omega arith))

-- Each operation on one bit gives that bit its value and leaves every other bit.
module _ (b : Bitmap) (i j : ℕ) (h : i / 32 < length b.bits) where
  pub value_at-mark : value_at (bitmap_mark b i) j ≡ (if i == j then true else value_at b j)
  unfolding value_at bitmap_mark
  value_at-mark = ground (
    arith,
    value_at-set b i (bit_or (element b i) (bit_mask i)) j h,
    bit-bit_or (element b i) (bit_mask i) (j % 32),
    bit-pow (i % 32) (j % 32),
    bit-le-one (element b i) (j % 32),
    same_place i j,
  )

  pub value_at-reset : value_at (bitmap_reset b i) j ≡ (if i == j then false else value_at b j)
  unfolding value_at bitmap_reset
  value_at-reset = ground (
    arith,
    value_at-set b i (bit_and (element b i) (complement 32 (bit_mask i))) j h,
    bit-bit_and (element b i) (complement 32 (bit_mask i)) (j % 32),
    bit-complement 32 (bit_mask i) (j % 32) (mask-lt i) (omega arith),
    bit-pow (i % 32) (j % 32),
    bit-le-one (element b i) (j % 32),
    same_place i j,
  )

  pub value_at-flip :
      value_at (bitmap_flip b i) j ≡ (if i == j then not (value_at b j) else value_at b j)
  unfolding value_at bitmap_flip
  value_at-flip = ground (
    arith,
    value_at-set b i (bit_xor (element b i) (bit_mask i)) j h,
    bit-bit_xor (element b i) (bit_mask i) (j % 32),
    bit-pow (i % 32) (j % 32),
    bit-le-one (element b i) (j % 32),
    same_place i j,
  )

-- `bitmap_test` reads the bit of an index in range, and panics outside.
pub test-eq-value_at :
    (b : Bitmap) (i : ℕ) → bitmap_test b i ≡ (if ltb i b.bit_cnt then some (value_at b i) else none)
unfolding bitmap_test value_at
test-eq-value_at b i = ground (
  arith,
  bit_and-pow (element b i) (i % 32),
  one-le-pow (i % 32) 2,
  bit-le-one (element b i) (i % 32),
)
