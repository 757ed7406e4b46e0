-- ===== src/Vm/Claim.antt =====
-- pintos/vm/page.c, `vm_do_claim_page` and `lazy_load_segment`: a page gets a frame, its content
-- and an entry in the page table. Interrupts are not part of the model. The reads of files and the
-- fill with zeroes are an interface.
pub mod Pinned
pub mod Mapping
pub mod Loaded
pub mod Content
pub mod Evicted
pub mod Examples
use pintos_lab.Base.{
  ℕ, Bool, true, false, Option, none, some, List, [], ◌∷◌, ◌==◌, if◌then◌else◌, ◌>>=◌,
}
use pintos_lab.Vm.State.{
  VmType, vm_anon, vm_file, vm_stack, Frame, FilePage, SuppPage, PageData, Vm, update, set_page,
  frame_at,
}
use pintos_lab.Vm.Frame.{vm_frame_pin, vm_frame_unpin, vm_frame_free}
use pintos_lab.Vm.Swap.{swap_in}
use pintos_lab.Vm.Pagedir.{pagedir_set_page, pagedir_set_dirty}
use pintos_lab.Vm.Evict.{Supply, vm_frame_allocate}

-- `file_read_at` of `size` bytes from an offset of a file to the start of a page: how many were
-- read, and the page after; `memset` of `size` bytes of a page from an offset on to zero.
pub record Loader : Type 0 where
  pub file_read_at : ℕ → ℕ → ℕ → PageData → ℕ × PageData
  pub clear_bytes : ℕ → ℕ → PageData → PageData

-- `frame->page` and `frame->owner` of the frame at an address
unfoldable pub set_owner : ℕ → ℕ → ℕ → List Frame → List Frame
set_owner a p thread [] = []
set_owner a p thread (f ∷ fs) =
    if f.addr == a
    then record f { page = some p; owner = thread } ∷ fs
    else f ∷ set_owner a p thread fs

-- The end of each failure after a frame was taken.
unfoldable pub give_back : ℕ → ℕ → Vm → Vm
give_back p kva vm =
    let unpinned = vm_frame_unpin kva vm in
    let freed =
      vm_frame_free kva (set_page unpinned p (record (unpinned.pages p) { pinned = false })) in
    set_page freed p (record (freed.pages p) { frame = none })

unfoldable pub load_swapped : ℕ → ℕ → Vm → Bool × Vm
load_swapped p kva vm =
    if (vm.pages p).in_swap
    then (let (ok, vm') = swap_in p kva vm in
        if ok
        then (true, set_page vm' p (record (vm'.pages p) { in_swap = false }))
        else (false, vm'))
    else (true, vm)

unfoldable pub clear_dirty : VmType → ℕ → ℕ → Vm → Vm
clear_dirty vm_file thread va vm = pagedir_set_dirty thread va false vm
clear_dirty vm_anon thread va vm = vm
clear_dirty vm_stack thread va vm = vm

-- The entry in the page table, once the content is there.
unfoldable pub install : ℕ → ℕ → ℕ → Bool → Vm → Option (Bool × Vm)
install p kva thread table_ok vm = do
  (ok, vm') ← pagedir_set_page thread (vm.pages p).va kva (vm.pages p).writable table_ok vm
  let page = vm'.pages p
  let unpinned = vm_frame_unpin kva (clear_dirty page.kind thread page.va vm')
  some (
      if ok
      then (true, set_page unpinned p (record (unpinned.pages p) { pinned = false }))
      else (false, give_back p kva vm'))

-- The frame at `a` is the page's, and both are pinned.
unfoldable pub attach : ℕ → ℕ → ℕ → ℕ → Vm → Vm
attach p a kva thread vm =
    let owned = record (set_page vm p (record (vm.pages p) { frame = some a })) {
      frames = set_owner a p thread vm.frames;
    } in
    let pinned = vm_frame_pin kva owned in
    set_page pinned p (record (pinned.pages p) { pinned = true })

module _ (loader : Loader) where
  open loader use {file_read_at, clear_bytes}

  -- The read of a part of a file, and the zeroes after it.
  unfoldable pub read_file : FilePage → ℕ → Vm → Bool × Vm
  read_file b kva vm =
      let (n, content) = file_read_at b.file b.ofs b.read_bytes (vm.memory kva) in
      if n == b.read_bytes
      then (
        true,
        record vm { memory = update vm.memory kva (clear_bytes b.read_bytes b.zero_bytes content) },
      )
      else (false, record vm { memory = update vm.memory kva content })

  -- `lazy_load_segment` reads to the frame of the page.
  unfoldable pub lazy_load_segment : ℕ → FilePage → Vm → Bool × Vm
  lazy_load_segment p aux vm = elim (vm.pages p).frame [
    | none ↦ (false, vm)
    | some a ↦ elim (frame_at vm.frames a) [
      | none ↦ (false, vm)
      | some fr ↦ if fr.kva == 0 then (false, vm) else read_file aux fr.kva vm
    ]
  ]

  -- The switch on the page's type.
  unfoldable pub load_eager : VmType → ℕ → ℕ → Vm → Bool × Vm
  load_eager vm_anon p kva vm = load_swapped p kva vm
  load_eager vm_stack p kva vm = load_swapped p kva vm
  load_eager vm_file p kva vm = read_file (vm.pages p).backing kva vm

  unfoldable pub load_content : Option FilePage → ℕ → ℕ → Vm → Bool × Vm
  load_content none p kva vm = load_eager (vm.pages p).kind p kva vm
  load_content (some aux) p kva vm =
      let (ok, vm') = lazy_load_segment p aux vm in
      if ok
      then (true, set_page vm' p (record (vm'.pages p) { initializer = none }))
      else (false, vm')

  -- What follows once the page has the frame at `a`.
  unfoldable pub fill : ℕ → ℕ → ℕ → ℕ → Bool → Vm → Option (Bool × Vm)
  fill p a kva thread table_ok vm =
      let attached = attach p a kva thread vm in
      let (ok, vm') = load_content (attached.pages p).initializer p kva attached in
      if ok then install p kva thread table_ok vm' else some (false, give_back p kva vm')

  -- `vm_do_claim_page` by a thread; the null pointer is `none`.
  unfoldable pub vm_do_claim_page : ℕ → Supply → Option ℕ → Vm → Option (Bool × Vm)
  vm_do_claim_page thread supply none vm = some (false, vm)
  vm_do_claim_page thread supply (some p) vm = if (vm.pages p).pinned then some (false, vm) else (do
    (frame, vm') ← vm_frame_allocate true thread supply vm
    elim frame [
      | none ↦ some (false, vm')
      | some a ↦ (do fr ← frame_at vm'.frames a; fill p a fr.kva thread supply.table_ok vm')
    ])
