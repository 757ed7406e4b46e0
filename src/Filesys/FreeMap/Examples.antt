-- ===== src/Filesys/FreeMap/Examples.antt =====
-- A device of 40 sectors, of which the first two and number 32 are used.
use pintos_lab.Base.{◌≡◌, refl, true, some, [], ◌∷◌, arith}
use pintos_lab.Bitmap.{
  Bitmap, bitmap_test, bitmap_set, bitmap_mark, bitmap_set_multiple, bitmap_contains, bitmap_scan,
  bitmap_scan_and_flip,
}
use pintos_lab.Bitmap.View.{IsValid}
use pintos_lab.Filesys.FreeMap.{free_map_allocate}
use pintos_lab.Filesys.FreeMap.RoundTrip.{Allocates, allocate-Allocates}

abbrev free_map : Bitmap
free_map = record { bit_cnt = 40; bits = 3 ∷ 1 ∷ [] }

free_map-IsValid : IsValid free_map
free_map-IsValid = omega arith

three_sectors :
    free_map_allocate true true 3 free_map
    ≡ some (some 2, record { bit_cnt = 40; bits = 31 ∷ 1 ∷ [] })
unfolding free_map_allocate bitmap_scan_and_flip bitmap_scan bitmap_contains bitmap_test
    bitmap_set_multiple bitmap_set bitmap_mark
three_sectors = refl

allocate-Allocates_example : Allocates free_map 3 true true (free_map_allocate true true 3 free_map)
allocate-Allocates_example = allocate-Allocates free_map 3 true true free_map-IsValid (omega arith)
