-- ===== src/Bitmap/Examples.antt =====
-- Runs of the bitmap code, and its theorems at concrete bitmaps.
use pintos_lab.Base.{◌≡◌, refl, false, some, [], ◌∷◌, arith}
use pintos_lab.Bitmap.{
  Bitmap, bitmap_test, bitmap_set, bitmap_mark, bitmap_set_multiple, bitmap_contains, bitmap_scan,
  bitmap_scan_and_flip,
}
use pintos_lab.Bitmap.View.{IsValid}
use pintos_lab.Bitmap.Scan.{FlipsFirst, scan_and_flip-FlipsFirst}

-- 40 bits, of which 0, 1, 2 and 32 are set
abbrev four_used : Bitmap
four_used = record { bit_cnt = 40; bits = 7 ∷ 1 ∷ [] }

four_used-IsValid : IsValid four_used
four_used-IsValid = omega arith

scan_runs : bitmap_scan four_used 0 2 false ≡ some 3
unfolding bitmap_scan bitmap_contains bitmap_test
scan_runs = refl

flip_runs :
    bitmap_scan_and_flip four_used 31 2 false
    ≡ some (33, record { bit_cnt = 40; bits = 7 ∷ 7 ∷ [] })
unfolding bitmap_scan_and_flip bitmap_scan bitmap_contains bitmap_test bitmap_set_multiple
    bitmap_set bitmap_mark
flip_runs = refl

scan_and_flip_example : FlipsFirst four_used 0 2 false (bitmap_scan_and_flip four_used 0 2 false)
scan_and_flip_example =
    scan_and_flip-FlipsFirst four_used 0 2 false four_used-IsValid (omega arith) (omega arith)
