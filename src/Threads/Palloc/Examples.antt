-- ===== src/Threads/Palloc/Examples.antt =====
-- A kernel pool of 8 pages, of which the first two are used, and a user pool of 8 pages behind it.
use pintos_lab.Base.{ℕ, ◌≡◌, refl, true, false, Option, none, some, [], ◌∷◌, arith}
use pintos_lab.Bitmap.{
  bitmap_test, bitmap_set, bitmap_mark, bitmap_set_multiple, bitmap_contains, bitmap_scan,
  bitmap_scan_and_flip,
}
use pintos_lab.Threads.Palloc.{PallocFlags, Pools, set_map, palloc_get_multiple}
use pintos_lab.Threads.Palloc.Pages.{IsValid, Gets, get-Gets}

abbrev pools : Pools
pools = record {
  kernel_pool = record { used_map = record { bit_cnt = 8; bits = 3 ∷ [] }; base = 0xc0101000 };
  user_pool = record { used_map = record { bit_cnt = 8; bits = 0 ∷ [] }; base = 0xc0109000 };
  memory = λ a. 7;
}

pools-IsValid : IsValid pools
pools-IsValid = omega arith

abbrev zeroed : PallocFlags
zeroed = record { pal_assert = false; pal_zero = true; pal_user = false }

address : Option (ℕ × Pools) → ℕ
address (some (a, s)) = a
address none = 1

third_page : address (palloc_get_multiple zeroed 2 pools) ≡ 0xc0103000
unfolding address palloc_get_multiple set_map bitmap_scan_and_flip bitmap_scan bitmap_contains
    bitmap_test bitmap_set_multiple bitmap_set bitmap_mark
third_page = refl

get-Gets_example : Gets zeroed 2 pools (palloc_get_multiple zeroed 2 pools)
get-Gets_example = get-Gets zeroed 2 pools pools-IsValid (omega arith)
