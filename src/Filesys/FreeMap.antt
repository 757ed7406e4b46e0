-- ===== src/Filesys/FreeMap.antt =====
-- pintos/filesys/free-map.c: the map of the sectors in use, a bitmap that is also kept in a file.
pub mod RoundTrip
pub mod Examples
use pintos_lab.Base.{
  ℕ, Bool, true, false, not, ◌&&◌, Option, none, some, ◌==◌, if◌then◌else◌, assert, ◌>>=◌, ◌>>◌,
}
use pintos_lab.Bitmap.{Bitmap, bitmap_error, bitmap_all, bitmap_set_multiple, bitmap_scan_and_flip}

-- The first of the sectors allocated, if any, and the map after; `has_file` says whether the file
-- of the map is open, `write_ok` whether it can be written.
unfoldable pub free_map_allocate : Bool → Bool → ℕ → Bitmap → Option (Option ℕ × Bitmap)
free_map_allocate has_file write_ok cnt free_map = do
  (sector, free_map') ← bitmap_scan_and_flip free_map 0 cnt false
  if sector == bitmap_error
      then some (none, free_map')
      else (if has_file && not write_ok
          then (do
            free_map'' ← bitmap_set_multiple free_map' sector cnt false
            some (none, free_map''))
          else some (some sector, free_map'))

-- The map is written to its file, through a null pointer where that is not open; whether it could
-- be written is not looked at.
unfoldable pub free_map_release : Bool → ℕ → ℕ → Bitmap → Option Bitmap
free_map_release has_file sector cnt free_map = do
  all_used ← bitmap_all free_map sector cnt
  assert all_used
  free_map' ← bitmap_set_multiple free_map sector cnt false
  assert has_file
  some free_map'
