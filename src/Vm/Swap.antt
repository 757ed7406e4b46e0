-- ===== src/Vm/Swap.antt =====
-- pintos/vm/swap.c: slots of eight sectors on a swap device, or in memory where there is none.
-- `none` is a failed ASSERT, a PANIC or a fault. A result of `malloc` that the code tests is an
-- argument. Locks and the interrupt level, which each path restores, are not part of the model.
pub mod Slots
pub mod Store
pub mod RoundTrip
pub mod Polarity
pub mod Examples
use pintos_lab.Base.{
  ℕ, zero, suc, ◌+◌, ◌*◌, ◌/◌, Bool, true, false, not, Option, none, some, List, [], ltb, ◌==◌,
  if◌then◌else◌, set, get_or, replicate, assert, ◌>>=◌, ◌>>◌,
}
use pintos_lab.Bitmap.{
  Bitmap, bitmap_error, bitmap_create, bitmap_set_all, bitmap_scan_and_flip, bitmap_reset,
  bitmap_set, bitmap_test,
}
use pintos_lab.Vm.State.{Frame, SuppPage, PageData, Swap, Vm, frame_at, update, set_page}
use pintos_lab.Vm.Frame.{vm_frame_pin, vm_frame_unpin}

-- `PGSIZE / BLOCK_SECTOR_SIZE`
abbrev pub sectors_per_page : ℕ
sectors_per_page = 8

abbrev pub default_swap_size : ℕ
default_swap_size = 1024

-- `vm_swap_init`, given the number of sectors of the swap device, if there is one, and what the
-- calls of `malloc` return: whether the map of slots is allocated, and the two blocks of the
-- bitmap.
unfoldable pub vm_swap_init : Option ℕ → Bool → Bool → Option (List ℕ) → (ℕ → ℕ) → Option Swap
vm_swap_init none map_ok block bits disk = do
  assert map_ok
  created ← bitmap_create block bits default_swap_size
  available ← created
  all_set ← bitmap_set_all available true
  some (record {
    size = default_swap_size;
    in_memory = true;
    available = all_set;
    memory_map = replicate default_swap_size none;
    disk = disk;
  })
vm_swap_init (some block_size) map_ok block bits disk = do
  created ← bitmap_create block bits (block_size / sectors_per_page)
  available ← created
  all_set ← bitmap_set_all available true
  some (record {
    size = block_size / sectors_per_page;
    in_memory = false;
    available = all_set;
    memory_map = [];
    disk = disk;
  })

abbrev pub set_available : Vm → Bitmap → Vm
set_available vm b = record vm { swap = record vm.swap { available = b } }

-- The loop of `block_write`, and that of `block_read`, from sector `i` of the slot on.
unfoldable pub write_sectors : ℕ → ℕ → ℕ → PageData → (ℕ → ℕ) → ℕ → ℕ
write_sectors zero slot i content disk = disk
write_sectors (suc n) slot i content disk =
    write_sectors n slot (i + 1) content (update disk (slot * sectors_per_page + i) (content i))

unfoldable pub read_sectors : ℕ → ℕ → ℕ → (ℕ → ℕ) → PageData → PageData
read_sectors zero slot i disk content = content
read_sectors (suc n) slot i disk content =
    read_sectors n slot (i + 1) disk (update content i (disk (slot * sectors_per_page + i)))

-- The copy to the slot; the result is false if there is no memory for it.
unfoldable pub store_slot : Bool → ℕ → PageData → Swap → Bool × Swap
store_slot malloc_ok slot content s =
    if s.in_memory
    then (if malloc_ok
        then (true, record s { memory_map = set s.memory_map slot (some content) })
        else (false, record s { memory_map = set s.memory_map slot none }))
    else (true, record s { disk = write_sectors sectors_per_page slot 0 content s.disk })

-- What follows once a slot has been taken.
unfoldable pub swap_out_to : Bool → ℕ → ℕ → ℕ → Vm → Bool × Vm
swap_out_to malloc_ok p kva slot vm =
    let pinned = vm_frame_pin kva vm in
    let (ok, s) = store_slot malloc_ok slot (vm.memory kva) vm.swap in
    let unpinned = vm_frame_unpin kva (record pinned { swap = s }) in
    if ok
    then (true, set_page unpinned p (record (vm.pages p) { in_swap = true; swap_slot = slot }))
    else (false, set_available unpinned (bitmap_reset s.available slot))

-- `swap_out (page)`; a page pointer that is null is `none`.
unfoldable pub swap_out : Bool → Option ℕ → Vm → Option (Bool × Vm)
swap_out malloc_ok none vm = some (false, vm)
swap_out malloc_ok (some p) vm = elim ((vm.pages p).frame) [
  | none ↦ some (false, vm)
  | some a ↦ (do
    (slot, available) ← bitmap_scan_and_flip vm.swap.available 0 1 false
    if slot == bitmap_error then some (false, set_available vm available) else (do
      fr ← frame_at vm.frames a
      some (swap_out_to malloc_ok p fr.kva slot (set_available vm available))))
]

-- The copy from the slot; `none` if no memory holds the slot's content.
unfoldable pub load_slot : ℕ → PageData → Swap → Option (PageData × Swap)
load_slot slot content s =
    if s.in_memory
    then (elim (get_or s.memory_map slot none) [
      | none ↦ none
      | some stored ↦ some (stored, record s { memory_map = set s.memory_map slot none })
    ])
    else some (read_sectors sectors_per_page slot 0 s.disk content, s)

-- What follows once the slot has been read.
unfoldable pub swap_in_from : ℕ → ℕ → ℕ → PageData → Swap → Vm → Vm
swap_in_from p kva slot content s vm =
    let unpinned =
      vm_frame_unpin kva (record vm { memory = update vm.memory kva content; swap = s }) in
    set_page (set_available unpinned (bitmap_reset s.available slot)) p
      (record (vm.pages p) { in_swap = false })

-- `swap_in (page, kva)`
unfoldable pub swap_in : ℕ → ℕ → Vm → Bool × Vm
swap_in p kva vm =
    let slot = (vm.pages p).swap_slot in
    if not (vm.pages p).in_swap
    then (false, vm)
    else (if not (ltb slot vm.swap.size)
        then (false, vm)
        else (let pinned = vm_frame_pin kva vm in
            elim (load_slot slot (vm.memory kva) vm.swap) [
              | none ↦ (false, vm_frame_unpin kva pinned)
              | some (content, s) ↦ (true, swap_in_from p kva slot content s pinned)
            ]))

unfoldable pub release_memory : ℕ → Swap → Swap
release_memory slot s =
    if s.in_memory then record s { memory_map = set s.memory_map slot none } else s

-- `vm_swap_free (swap_index)`
unfoldable pub vm_swap_free : ℕ → Vm → Option Vm
vm_swap_free slot vm = do
  assert (ltb slot vm.swap.size)
  free ← bitmap_test vm.swap.available slot
  assert (not free)
  available ← bitmap_set vm.swap.available slot true
  some (record vm { swap = record (release_memory slot vm.swap) { available = available } })
