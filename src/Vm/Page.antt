-- ===== src/Vm/Page.antt =====
-- pintos/vm/page.c: the supplemental page table of a thread. The hash table of its pages, whose
-- keys are their addresses, is a list of pages in which the first of an address is found. A page's
-- memory is what `malloc` left there until it is written.
pub mod Find
pub mod Alloc
pub mod Pin
pub mod Release
pub mod Examples
use pintos_lab.Base.{
  ℕ, Bool, true, false, Option, none, some, List, [], ◌∷◌, ◌++◌, ◌==◌, ◌&&◌, ◌-◌, ◌^◌,
  if◌then◌else◌, ◌>>=◌,
}
use pintos_lab.Vm.State.{
  VmType, vm_anon, vm_file, vm_stack, Frame, FilePage, SuppPage, PageData, Vm, set_page, frame_at,
}
use pintos_lab.Vm.Frame.{vm_frame_pin, vm_frame_unpin, vm_frame_free}
use pintos_lab.Vm.Swap.{vm_swap_free}
use pintos_lab.Vm.Pagedir.{pagedir_set_dirty, pagedir_is_dirty, pagedir_clear_page}
use pintos_lab.Vm.Evict.{Supply}
use pintos_lab.Vm.Claim.{Loader, vm_do_claim_page}
use pintos_lab.Process.Fault.{pg_round_down}

-- The current thread, the pages of its table, and the memory. A process that runs has a table.
pub record Space : Type 0 where
  pub thread : ℕ
  pub spt : List ℕ
  pub vm : Vm

abbrev pub set_supp : ℕ → SuppPage → Space → Space
set_supp p page s = record s { vm = set_page s.vm p page }

unfoldable pub find_va : ℕ → List ℕ → Vm → Option ℕ
find_va va [] vm = none
find_va va (p ∷ ps) vm = if (vm.pages p).va == va then some p else find_va va ps vm

unfoldable pub spt_find_page : ℕ → Space → Option ℕ
unfolding find_va
spt_find_page va s = find_va (pg_round_down va) s.spt s.vm

-- `spt_insert_page`: false if the address is there already
unfoldable pub spt_insert_page : ℕ → Space → Bool × Space
spt_insert_page p s = elim (find_va (s.vm.pages p).va s.spt s.vm) [
  | none ↦ (true, record s { spt = p ∷ s.spt })
  | some q ↦ (false, s)
]

unfoldable pub remove_va : ℕ → List ℕ → Vm → List ℕ
remove_va va [] vm = []
remove_va va (p ∷ ps) vm = if (vm.pages p).va == va then ps else p ∷ remove_va va ps vm

unfoldable pub spt_remove_page : ℕ → Space → Space
spt_remove_page p s = record s { spt = remove_va (s.vm.pages p).va s.spt s.vm }

-- The fields that `vm_alloc_page` writes; the others keep what the memory held.
abbrev pub fresh_page : SuppPage → VmType → ℕ → Bool → SuppPage
fresh_page old kind va writable = record old {
  va = va;
  writable = writable;
  frame = none;
  kind = kind;
  pinned = false;
  in_swap = false;
  swap_slot = 2 ^ 32 - 1;
}

-- The check, the page that `malloc` returns and its insertion, with what is written to the page.
unfoldable pub alloc_with : (SuppPage → SuppPage) → Option ℕ → ℕ → Space → Bool × Space
alloc_with write malloc va s = elim (spt_find_page va s) [
  | some q ↦ (false, s)
  | none ↦ elim malloc [
    | none ↦ (false, s)
    | some p ↦ spt_insert_page p (set_supp p (write (s.vm.pages p)) s)
  ]
]

-- `vm_alloc_page`, where `malloc` is what `malloc` returns
unfoldable pub vm_alloc_page : Option ℕ → VmType → ℕ → Bool → Space → Bool × Space
vm_alloc_page malloc kind upage writable s =
    alloc_with (λ old. fresh_page old kind (pg_round_down upage) writable) malloc
      (pg_round_down upage) s

abbrev pub no_file : FilePage
no_file = record { file = 0; ofs = 0; read_bytes = 0; zero_bytes = 0 }

-- `vm_alloc_page_with_initializer`
unfoldable pub vm_alloc_page_with_initializer :
    Option ℕ → VmType → ℕ → Bool → Option FilePage → Space → Bool × Space
vm_alloc_page_with_initializer malloc kind upage writable init s =
    alloc_with
      (λ old. record (fresh_page old kind (pg_round_down upage) writable) {
        initializer = init;
        backing = no_file;
      })
      malloc (pg_round_down upage) s

-- `vm_supt_install_frame` and `vm_supt_install_zeropage`
unfoldable pub vm_supt_install_zeropage : Option ℕ → ℕ → Space → Bool × Space
vm_supt_install_zeropage malloc upage s = vm_alloc_page malloc vm_anon upage true s

-- `vm_supt_install_filesys`; `aux_ok` says whether there was memory for the `struct file_page`.
unfoldable pub vm_supt_install_filesys :
    Bool → Option ℕ → ℕ → FilePage → Bool → Space → Bool × Space
vm_supt_install_filesys aux_ok malloc upage b writable s =
    if aux_ok
    then vm_alloc_page_with_initializer malloc vm_file upage writable (some b) s
    else (false, s)

-- `enum page_status`
pub data PageStatus : Type 0 where
  all_zero on_frame on_swap from_filesys : PageStatus

-- `struct supplemental_page_table_entry`, less the list element
pub record Entry : Type 0 where
  pub upage : ℕ
  pub kpage : Option ℕ
  pub status : PageStatus
  pub dirty : Bool
  pub swap_index : ℕ
  pub backing : FilePage
  pub writable : Bool

-- The kernel address of a frame; a frame that has left the table counts as none.
abbrev pub kva_of : Vm → Option ℕ → Option ℕ
kva_of vm none = none
kva_of vm (some a) = elim (frame_at vm.frames a) [ none ↦ none | some f ↦ some f.kva ]

unfoldable pub page_status : SuppPage → PageStatus
page_status page = if page.in_swap then on_swap else (elim page.frame [
  | some a ↦ on_frame
  | none ↦ if page.backing.file == 0 then all_zero else from_filesys
])

-- `vm_supt_lookup`
unfoldable pub vm_supt_lookup : ℕ → Space → Option Entry
vm_supt_lookup va s = do
  p ← spt_find_page va s
  let page = s.vm.pages p
  some (record {
    upage = page.va;
    kpage = kva_of s.vm page.frame;
    status = page_status page;
    dirty = false;
    swap_index = page.swap_slot;
    backing = page.backing;
    writable = page.writable;
  })

unfoldable pub vm_supt_has_entry : ℕ → Space → Bool
vm_supt_has_entry va s = elim (spt_find_page va s) [ none ↦ false | some p ↦ true ]

-- `vm_supt_set_dirty`: the entry is that of `va` itself
unfoldable pub vm_supt_set_dirty : ℕ → Bool → Space → Bool × Space
vm_supt_set_dirty va value s = elim (spt_find_page va s) [
  | none ↦ (false, s)
  | some p ↦ elim (s.vm.pages p).frame [
    | none ↦ (true, s)
    | some a ↦ (true, record s { vm = pagedir_set_dirty s.thread va value s.vm })
  ]
]

-- `vm_supt_set_swap`
unfoldable pub vm_supt_set_swap : ℕ → ℕ → Space → Bool × Space
vm_supt_set_swap va slot s = elim (spt_find_page va s) [
  | none ↦ (false, s)
  | some p ↦ (true, set_supp p (record (s.vm.pages p) { in_swap = true; swap_slot = slot }) s)
]

-- `page_destroy`: it passes the address of the `struct frame`.
unfoldable pub page_destroy : ℕ → Vm → Vm
page_destroy p vm = elim (vm.pages p).frame [ none ↦ vm | some a ↦ vm_frame_free a vm ]

-- `supplemental_page_table_destroy` and `vm_supt_destroy`, which free the pages and the table
unfoldable pub destroy_pages : List ℕ → Vm → Vm
destroy_pages [] vm = vm
destroy_pages (p ∷ ps) vm = destroy_pages ps (page_destroy p vm)

unfoldable pub vm_supt_destroy : Space → Space
vm_supt_destroy s = record s { spt = []; vm = destroy_pages s.spt s.vm }

abbrev pub not_null : Option ℕ → Option ℕ
not_null none = none
not_null (some kva) = if kva == 0 then none else some kva

-- `p->frame != NULL && p->frame->kva != NULL`, with that address
abbrev pub frame_kva : Vm → ℕ → Option ℕ
frame_kva vm p = not_null (kva_of vm (vm.pages p).frame)

module _ (loader : Loader) where
  abbrev pub claim_in : Supply → ℕ → Space → Option (Bool × Space)
  claim_in supply p s = do
    (ok, vm) ← vm_do_claim_page loader s.thread supply (some p) s.vm
    some (ok, record s { vm = vm })

  unfoldable pub vm_load_page : Supply → ℕ → Space → Option (Bool × Space)
  vm_load_page supply upage s = elim (spt_find_page upage s) [
    | none ↦ some (false, s)
    | some p ↦ claim_in supply p s
  ]

  -- `vm_pin_page`; the result of the claim is not used
  unfoldable pub vm_pin_page : Supply → ℕ → Space → Option Space
  vm_pin_page supply page s = if page == 0 then some s else (elim (spt_find_page page s) [
    | none ↦ some s
    | some p ↦
        let pinned = set_supp p (record (s.vm.pages p) { pinned = true }) s in
        elim (frame_kva s.vm p) [
          | some kva ↦ some (record pinned { vm = vm_frame_pin kva pinned.vm })
          | none ↦
              if (s.vm.pages p).in_swap
              then some pinned
              else (do (ok, claimed) ← claim_in supply p pinned; some claimed)
        ]
  ])

unfoldable pub vm_unpin_page : ℕ → Space → Space
vm_unpin_page page s = if page == 0 then s else (elim (spt_find_page page s) [
  | none ↦ s
  | some p ↦
      let unpinned = set_supp p (record (s.vm.pages p) { pinned = false }) s in
      elim (frame_kva s.vm p) [
        | some kva ↦ record unpinned { vm = vm_frame_unpin kva unpinned.vm }
        | none ↦ unpinned
      ]
])

unfoldable pub is_file : VmType → Bool
is_file vm_file = true
is_file vm_anon = false
is_file vm_stack = false

-- `vm_supt_mm_unmap`; the frame's address, not that of its memory, is passed to `vm_frame_free`.
-- Beside the space it says whether the page is written back to a file.
unfoldable pub unmap_memory : Option ℕ → ℕ → Bool → Space → Option (Bool × Vm)
unmap_memory (some a) p has_file s =
    let page = s.vm.pages p in
    let written = pagedir_is_dirty s.thread page.va s.vm && is_file page.kind && has_file in
    do cleared ← pagedir_clear_page s.thread page.va s.vm; some (written, vm_frame_free a cleared)
unmap_memory none p has_file s =
    if (s.vm.pages p).in_swap
    then (do vm ← vm_swap_free (s.vm.pages p).swap_slot s.vm; some (false, vm))
    else some (false, s.vm)

unfoldable pub vm_supt_mm_unmap : ℕ → Bool → Space → Option (Bool × Bool × Space)
vm_supt_mm_unmap va has_file s = elim (spt_find_page va s) [
  | none ↦ some (false, false, s)
  | some p ↦ (do
    (written, vm) ← unmap_memory (s.vm.pages p).frame p has_file s
    some (true, written, spt_remove_page p (record s { vm = vm })))
]
