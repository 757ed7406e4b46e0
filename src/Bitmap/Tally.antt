-- ===== src/Bitmap/Tally.antt =====
-- `bitmap_count` counts the bits of a value in a range, and `bitmap_all` asks whether all of its
-- bits are true.
use pintos_lab.Base.{
  ℕ, zero, suc, ◌+◌, ◌≤◌, ◌<◌, ◌≡◌, ◌⊎◌, inl, inr, Bool, true, false, some, arith, if◌then◌else◌,
  same,
}
use pintos_lab.Bitmap.{Bitmap, count_bits, bitmap_count, bitmap_all}
use pintos_lab.Bitmap.View.{IsValid, value_at}
use pintos_lab.Bitmap.Contains.{AllAre, test-value_at, contains-Search}

-- How many of the `n` bits from `lo` on are `value`.
unfoldable pub tally : ℕ → Bitmap → ℕ → Bool → ℕ
tally zero b lo value = 0
tally (suc n) b lo value = (if same (value_at b lo) value then 1 else 0) + tally n b (lo + 1) value

count_bits-tally :
    (n : ℕ) (b : Bitmap) (lo : ℕ) (value : Bool) (acc : ℕ)
    → IsValid b
    → lo + n ≤ b.bit_cnt
    → count_bits n b lo value acc ≡ some (acc + tally n b lo value)
unfolding count_bits tally
count_bits-tally zero b lo value acc v h = ground arith
count_bits-tally (suc n) b lo value acc v h = ground (
  arith,
  v.size,
  test-value_at b lo (omega arith),
  count_bits-tally n b (lo + 1) value (if same (value_at b lo) value then acc + 1 else acc) v
      (omega arith),
)

-- `bitmap_count` on a range of the bitmap does not panic and counts the bits equal to `value`.
pub count-tally :
    (b : Bitmap) (start cnt : ℕ) (value : Bool)
    → IsValid b
    → start + cnt ≤ b.bit_cnt
    → bitmap_count b start cnt value ≡ some (tally cnt b start value)
unfolding bitmap_count
count-tally b start cnt value v h = ground (arith, v.size, count_bits-tally cnt b start value 0 v h)

-- `bitmap_all` on a range of the bitmap says whether all of its bits are true.
pub all_lem :
    (b : Bitmap) (start cnt : ℕ)
    → IsValid b
    → start + cnt ≤ b.bit_cnt
    → ((bitmap_all b start cnt ≡ some true) × AllAre b start cnt true)
      ⊎ ((bitmap_all b start cnt ≡ some false)
          × ((j : ℕ) × (start ≤ j) × (j < start + cnt) × (value_at b j ≡ false)))
unfolding bitmap_all
all_lem b start cnt v h = elim (contains-Search b start cnt false v h) [
  | inl (e, all) ↦ inl (ground (arith, e), all)
  | inr (e, w) ↦ inr (ground (arith, e), w)
]
