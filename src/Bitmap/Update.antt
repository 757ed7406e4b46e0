-- ===== src/Bitmap/Update.antt =====
-- Setting one bit, a range and the whole bitmap: no panic in range, and exactly the range changes.
use pintos_lab.Base.{
  ℕ, zero, suc, ◌+◌, ◌-◌, ◌/◌, ◌%◌, ◌^◌, ◌≤◌, ◌<◌, ◌≡◌, ◌∙◌, refl, Bool, true, false, ◌&&◌, Option,
  some, List, arith, ltb, leb, if◌then◌else◌, length, length-set, bit_or, bit_and,
}
use pintos_lab.Base.Bits.{complement}
use pintos_lab.Bitmap.{
  Bitmap, element, bit_mask, bitmap_mark, bitmap_reset, bitmap_set, set_bits, bitmap_set_multiple,
  bitmap_set_all, bitmap_create, elem_cnt,
}
use pintos_lab.Bitmap.View.{IsValid, value_at, value_at-mark, value_at-reset}

-- `b'` is `b` with `value` at the `n` indices from `lo` on.
pub record IsWritten (b : Bitmap) (lo n : ℕ) (value : Bool) (b' : Bitmap) : Type 0 where
  pub same_cnt : b'.bit_cnt ≡ b.bit_cnt
  pub valid : IsValid b'
  pub values :
      (j : ℕ) → value_at b' j ≡ (if leb lo j && ltb j (lo + n) then value else value_at b j)

bitmap_set-IsWritten :
    (b : Bitmap) (i : ℕ) (value : Bool)
    → IsValid b
    → i < b.bit_cnt
    → (b' : Bitmap) × (bitmap_set b i value ≡ some b') × IsWritten b i 1 value b'
unfolding bitmap_set bitmap_mark bitmap_reset
bitmap_set-IsWritten b i true v h = (
  bitmap_mark b i,
  ground arith,
  record {
    same_cnt = refl;
    valid = ground (arith, length-set b.bits (i / 32) (bit_or (element b i) (bit_mask i)));
    values = λ j. ground (arith, value_at-mark b i j (omega arith));
  },
)
bitmap_set-IsWritten b i false v h = (
  bitmap_reset b i,
  ground arith,
  record {
    same_cnt = refl;
    valid =
        ground
          (arith, length-set b.bits (i / 32) (bit_and (element b i) (complement 32 (bit_mask i))));
    values = λ j. ground (arith, value_at-reset b i j (omega arith));
  },
)

IsWritten-join :
    (b b' b'' : Bitmap) (i n : ℕ) (value : Bool)
    → IsWritten b i 1 value b'
    → IsWritten b' (i + 1) n value b''
    → IsWritten b i (suc n) value b''
IsWritten-join b b' b'' i n value w w' = record {
  same_cnt = w'.same_cnt ∙ w.same_cnt;
  valid = w'.valid;
  values = λ j. ground (arith, w.values j, w'.values j);
}

set_bits-suc :
    (n : ℕ) (b b' : Bitmap) (i : ℕ) (value : Bool) (r : Option Bitmap)
    → i + 1 < 2 ^ 32
    → bitmap_set b i value ≡ some b'
    → set_bits n b' (i + 1) value ≡ r
    → set_bits (suc n) b i value ≡ r
unfolding set_bits
set_bits-suc n b b' i value r h e e' =
    let next : (i + 1) % 2 ^ 32 ≡ i + 1 = omega arith in rw e (rw (next, set_bits) e')

set_bits-IsWritten :
    (n : ℕ) (b : Bitmap) (i : ℕ) (value : Bool)
    → IsValid b
    → i + n ≤ b.bit_cnt
    → (b' : Bitmap) × (set_bits n b i value ≡ some b') × IsWritten b i n value b'
unfolding set_bits
set_bits-IsWritten zero b i value v h =
    (b, refl, record { same_cnt = refl; valid = v; values = λ j. ground arith })
set_bits-IsWritten (suc n) b i value v h =
    let (b', e, w) = bitmap_set-IsWritten b i value v (omega arith) in
    let (b'', e', w') = set_bits-IsWritten n b' (i + 1) value w.valid (omega (arith, w.same_cnt)) in
    (
      b'',
      set_bits-suc n b b' i value (some b'') (omega (arith, v.size)) e e',
      IsWritten-join b b' b'' i n value w w',
    )

-- `bitmap_set_multiple` on a range of the bitmap does not panic, and sets exactly that range.
pub set_multiple-IsWritten :
    (b : Bitmap) (start cnt : ℕ) (value : Bool)
    → IsValid b
    → start + cnt ≤ b.bit_cnt
    → (b' : Bitmap) × (bitmap_set_multiple b start cnt value ≡ some b')
      × IsWritten b start cnt value b'
unfolding bitmap_set_multiple
set_multiple-IsWritten b start cnt value v h =
    let (b', e, w) = set_bits-IsWritten cnt b start value v h in
    let (f, s) : (leb start b.bit_cnt ≡ true) × (leb ((start + cnt) % 2 ^ 32) b.bit_cnt ≡ true) =
      (ground arith, ground (arith, v.size)) in
    (b', rw (f, s) e, w)

-- `bitmap_set_all` gives every bit of the bitmap the value.
pub set_all-IsWritten :
    (b : Bitmap) (value : Bool)
    → IsValid b
    → (b' : Bitmap) × (bitmap_set_all b value ≡ some b') × IsWritten b 0 b.bit_cnt value b'
unfolding bitmap_set_all
set_all-IsWritten b value v = set_multiple-IsWritten b 0 b.bit_cnt value v (omega arith)

-- Given two blocks of memory, `bitmap_create` makes a valid bitmap of that many bits, all false,
-- whatever the blocks held; up to 2 ^ 32 - 32 bits the block of `byte_cnt` bytes is large enough.
pub create_lem :
    (bits : List ℕ) (n : ℕ)
    → length bits ≡ elem_cnt n
    → n ≤ 2 ^ 32 - 32
    → (b : Bitmap) × (bitmap_create true (some bits) n ≡ some (some b))
      × (b.bit_cnt ≡ n)
      × IsValid b
      × ((j : ℕ) → j < n → value_at b j ≡ false)
unfolding bitmap_create
create_lem bits n h k =
    let fresh : Bitmap = record { bit_cnt = n; bits = bits } in
    let (b, e, w) =
      set_all-IsWritten fresh false (record { size = omega arith; room = omega arith }) in
    (b, ground (arith, e), w.same_cnt, w.valid, λ j p. ground (arith, w.values j))
