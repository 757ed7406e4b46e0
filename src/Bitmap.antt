-- ===== src/Bitmap.antt =====
-- pintos/lib/kernel/bitmap.c: an array of bits in 32-bit elements (`unsigned long` on i386).
-- `none` is a failed ASSERT. A write outside the elements, undefined in C, changes nothing here;
-- `Bitmap.View.IsValid` rules it out. Sums of `size_t` wrap at 2 ^ 32.
pub mod View
pub mod Update
pub mod Contains
pub mod Scan
pub mod Tally
pub mod Restore
pub mod Examples
use pintos_lab.Base.{
  ℕ, zero, suc, ◌+◌, ◌-◌, ◌*◌, ◌/◌, ◌%◌, ◌^◌, bit_and, bit_or, bit_xor, Bool, true, false, not,
  ◌||◌, Option, none, some, List, [], ltb, leb, ◌==◌, if◌then◌else◌, same, get_or, set, length,
  assert, ◌>>=◌, ◌>>◌,
}
use pintos_lab.Base.Bits.{complement}

-- `struct bitmap`
pub record Bitmap : Type 0 where
  pub bit_cnt : ℕ
  pub bits : List ℕ

abbrev pub elem_bits : ℕ
elem_bits = 32

-- `BITMAP_ERROR`, that is `SIZE_MAX`
abbrev pub bitmap_error : ℕ
bitmap_error = 2 ^ 32 - 1

abbrev pub elem_idx : ℕ → ℕ
elem_idx bit_idx = bit_idx / elem_bits

abbrev pub bit_mask : ℕ → ℕ
bit_mask bit_idx = 2 ^ (bit_idx % elem_bits)

abbrev pub elem_cnt : ℕ → ℕ
elem_cnt bit_cnt = (bit_cnt + elem_bits - 1) % 2 ^ 32 / elem_bits

abbrev pub byte_cnt : ℕ → ℕ
byte_cnt bit_cnt = 4 * elem_cnt bit_cnt

-- `b->bits[elem_idx (bit_idx)]`
abbrev pub element : Bitmap → ℕ → ℕ
element b bit_idx = get_or b.bits (elem_idx bit_idx) 0

unfoldable pub last_mask : Bitmap → ℕ
last_mask b =
    let last_bits = b.bit_cnt % elem_bits in
    if last_bits == 0 then 2 ^ 32 - 1 else 2 ^ last_bits - 1

-- Setting and testing single bits.

unfoldable pub bitmap_mark : Bitmap → ℕ → Bitmap
bitmap_mark b bit_idx = record b {
  bits = set b.bits (elem_idx bit_idx) (bit_or (element b bit_idx) (bit_mask bit_idx));
}

unfoldable pub bitmap_reset : Bitmap → ℕ → Bitmap
bitmap_reset b bit_idx = record b {
  bits =
      set b.bits (elem_idx bit_idx)
        (bit_and (element b bit_idx) (complement elem_bits (bit_mask bit_idx)));
}

unfoldable pub bitmap_flip : Bitmap → ℕ → Bitmap
bitmap_flip b bit_idx = record b {
  bits = set b.bits (elem_idx bit_idx) (bit_xor (element b bit_idx) (bit_mask bit_idx));
}

unfoldable pub bitmap_set : Bitmap → ℕ → Bool → Option Bitmap
bitmap_set b idx value = do
  assert (ltb idx b.bit_cnt)
  some (if value then bitmap_mark b idx else bitmap_reset b idx)

unfoldable pub bitmap_test : Bitmap → ℕ → Option Bool
bitmap_test b idx = do
  assert (ltb idx b.bit_cnt)
  some (not (bit_and (element b idx) (bit_mask idx) == 0))

-- Setting and testing multiple bits. A loop `for (i = 0; i < cnt; i++)` recurs on the rounds left,
-- `at` being `start + i`.

set_bits : ℕ → Bitmap → ℕ → Bool → Option Bitmap
set_bits zero b at value = some b
set_bits (suc n) b at value = do b' ← bitmap_set b at value; set_bits n b' ((at + 1) % 2 ^ 32) value

unfoldable pub bitmap_set_multiple : Bitmap → ℕ → ℕ → Bool → Option Bitmap
unfolding set_bits
bitmap_set_multiple b start cnt value = do
  assert (leb start b.bit_cnt)
  assert (leb ((start + cnt) % 2 ^ 32) b.bit_cnt)
  set_bits cnt b start value

unfoldable pub bitmap_set_all : Bitmap → Bool → Option Bitmap
bitmap_set_all b value = bitmap_set_multiple b 0 b.bit_cnt value

count_bits : ℕ → Bitmap → ℕ → Bool → ℕ → Option ℕ
count_bits zero b at value value_cnt = some value_cnt
count_bits (suc n) b at value value_cnt = do
  bit ← bitmap_test b at
  count_bits n b ((at + 1) % 2 ^ 32) value (if same bit value then value_cnt + 1 else value_cnt)

unfoldable pub bitmap_count : Bitmap → ℕ → ℕ → Bool → Option ℕ
unfolding count_bits
bitmap_count b start cnt value = do
  assert (leb start b.bit_cnt)
  assert (leb ((start + cnt) % 2 ^ 32) b.bit_cnt)
  count_bits cnt b start value 0

find_bit : ℕ → Bitmap → ℕ → Bool → Option Bool
find_bit zero b at value = some false
find_bit (suc n) b at value = do
  bit ← bitmap_test b at
  elim (same bit value) [ true ↦ some true | false ↦ find_bit n b ((at + 1) % 2 ^ 32) value ]

unfoldable pub bitmap_contains : Bitmap → ℕ → ℕ → Bool → Option Bool
unfolding find_bit
bitmap_contains b start cnt value = do
  assert (leb start b.bit_cnt)
  assert (leb ((start + cnt) % 2 ^ 32) b.bit_cnt)
  find_bit cnt b start value

unfoldable pub bitmap_any : Bitmap → ℕ → ℕ → Option Bool
bitmap_any b start cnt = bitmap_contains b start cnt true

unfoldable pub bitmap_none : Bitmap → ℕ → ℕ → Option Bool
bitmap_none b start cnt = do found ← bitmap_contains b start cnt true; some (not found)

unfoldable pub bitmap_all : Bitmap → ℕ → ℕ → Option Bool
bitmap_all b start cnt = do found ← bitmap_contains b start cnt false; some (not found)

-- Finding set or unset bits. The loop runs while `i <= last`, `last + 1 - start` rounds at most.

scan_from : ℕ → Bitmap → ℕ → ℕ → Bool → Option ℕ
scan_from zero b i cnt value = some bitmap_error
scan_from (suc n) b i cnt value = do
  other ← bitmap_contains b i cnt (not value)
  elim other [ true ↦ scan_from n b (i + 1) cnt value | false ↦ some i ]

unfoldable pub bitmap_scan : Bitmap → ℕ → ℕ → Bool → Option ℕ
unfolding scan_from
bitmap_scan b start cnt value = do
  assert (leb start b.bit_cnt)
  if leb cnt b.bit_cnt
      then scan_from (b.bit_cnt - cnt + 1 - start) b start cnt value
      else some bitmap_error

unfoldable pub bitmap_scan_and_flip : Bitmap → ℕ → ℕ → Bool → Option (ℕ × Bitmap)
bitmap_scan_and_flip b start cnt value = do
  idx ← bitmap_scan b start cnt value
  if idx == bitmap_error
      then some (idx, b)
      else (do b' ← bitmap_set_multiple b idx cnt (not value); some (idx, b'))

-- `bitmap_create`, given what the two calls of `malloc` return: whether the first one succeeds, and
-- the elements of the second block, of any content.
unfoldable pub bitmap_create : Bool → Option (List ℕ) → ℕ → Option (Option Bitmap)
bitmap_create false block bit_cnt = some none
bitmap_create true (some bits) bit_cnt = do
  b ← bitmap_set_all (record { bit_cnt = bit_cnt; bits = bits }) false
  some (some b)
bitmap_create true none bit_cnt =
    if bit_cnt == 0
    then (do b ← bitmap_set_all (record { bit_cnt = bit_cnt; bits = [] }) false; some (some b))
    else some none
