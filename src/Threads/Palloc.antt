-- ===== src/Threads/Palloc.antt =====
-- pintos/threads/palloc.c: the allocator of pages, with a pool for the kernel and one for users. A
-- lock surrounds each search of a pool.
pub mod Pages
pub mod Examples
use pintos_lab.Base.{
  ℕ, ◌+◌, ◌-◌, ◌*◌, ◌/◌, ◌%◌, ◌^◌, Bool, true, false, not, ◌&&◌, ◌||◌, Option, none, some, ltb, leb,
  ◌==◌, if◌then◌else◌, assert, ◌>>=◌, ◌>>◌,
}
use pintos_lab.Bitmap.{Bitmap, bitmap_error, bitmap_all, bitmap_set_multiple, bitmap_scan_and_flip}

-- `struct pool`, less its lock
pub record Pool : Type 0 where
  pub used_map : Bitmap
  pub base : ℕ

-- `enum palloc_flags`
pub record PallocFlags : Type 0 where
  pub pal_assert : Bool
  pub pal_zero : Bool
  pub pal_user : Bool

-- The two pools, and the bytes of memory.
pub record Pools : Type 0 where
  pub kernel_pool : Pool
  pub user_pool : Pool
  pub memory : ℕ → ℕ

abbrev pub memset : ℕ → ℕ → ℕ → (ℕ → ℕ) → ℕ → ℕ
memset at value n memory = λ a. if leb at a && ltb a (at + n) then value else memory a

abbrev pub pool_of : PallocFlags → Pools → Pool
pool_of flags s = if flags.pal_user then s.user_pool else s.kernel_pool

unfoldable pub set_map : Bool → Bitmap → Pools → Pools
set_map true map s = record s { user_pool = record (s.user_pool) { used_map = map } }
set_map false map s = record s { kernel_pool = record (s.kernel_pool) { used_map = map } }

-- The address of the pages, or 0 for NULL.
unfoldable pub palloc_get_multiple : PallocFlags → ℕ → Pools → Option (ℕ × Pools)
palloc_get_multiple flags page_cnt s = if page_cnt == 0 then some (0, s) else (do
  (page_idx, map) ← bitmap_scan_and_flip (pool_of flags s).used_map 0 page_cnt false
  let s' = set_map flags.pal_user map s
  let pages = (pool_of flags s).base + 4096 * page_idx
  if page_idx == bitmap_error
      then (if flags.pal_assert then none else some (0, s'))
      else (if flags.pal_zero
          then some (pages, record s' { memory = memset pages 0 (4096 * page_cnt) s'.memory })
          else some (pages, s')))

unfoldable pub page_from_pool : Pool → ℕ → Bool
page_from_pool pool page =
    leb (pool.base / 4096) (page / 4096)
    && ltb (page / 4096) (pool.base / 4096 + pool.used_map.bit_cnt)

unfoldable pub palloc_free_multiple : ℕ → ℕ → Pools → Option Pools
palloc_free_multiple pages page_cnt s = do
  assert (pages % 4096 == 0)
  if (pages == 0) || (page_cnt == 0) then some s else (do
    let from_kernel = page_from_pool s.kernel_pool pages
    assert (from_kernel || page_from_pool s.user_pool pages)
    let pool = if from_kernel then s.kernel_pool else s.user_pool
    let page_idx = pages / 4096 - pool.base / 4096
    all_used ← bitmap_all pool.used_map page_idx page_cnt
    assert all_used
    map ← bitmap_set_multiple pool.used_map page_idx page_cnt false
    some (
        set_map (not from_kernel) map
          (record s { memory = memset pages 0xcc (4096 * page_cnt) s.memory })))

unfoldable pub palloc_get_page : PallocFlags → Pools → Option (ℕ × Pools)
palloc_get_page flags s = palloc_get_multiple flags 1 s

unfoldable pub palloc_free_page : ℕ → Pools → Option Pools
palloc_free_page page s = palloc_free_multiple page 1 s
