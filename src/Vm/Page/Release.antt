-- ===== src/Vm/Page/Release.antt =====
-- What the end of a supplemental page table leaves in the frame table.
use pintos_lab.Base.{ℕ, ◌≡◌, refl, Option, none, some, List, [], ◌∷◌, arith}
use pintos_lab.Vm.State.{Vm}
use pintos_lab.Vm.Frame.{vm_frame_free, remove_frame, find_kva}
use pintos_lab.Vm.Page.{Space, page_destroy, destroy_pages, vm_supt_destroy}

-- A `struct frame` lies at no address of a page of memory in the table: `malloc` and the page
-- allocator never give one address.
abbrev pub IsApart : Option ℕ → Vm → Type 0
IsApart none vm = Unit
IsApart (some a) vm = find_kva vm.frames a ≡ none

-- The frames of the pages of a list.
unfoldable pub AreApart : List ℕ → Vm → Type 0
AreApart [] vm = Unit
AreApart (p ∷ ps) vm = IsApart (vm.pages p).frame vm × AreApart ps vm

free_nothing : (a : ℕ) (vm : Vm) → find_kva vm.frames a ≡ none → vm_frame_free a vm ≡ vm
unfolding vm_frame_free remove_frame
free_nothing a vm h = ground (arith, h)

destroy_frame :
    (frame : Option ℕ) (vm : Vm)
    → IsApart frame vm
    → elim frame as (λ x. Vm) [ none ↦ vm | some a ↦ vm_frame_free a vm ] ≡ vm
destroy_frame none vm h = refl
destroy_frame (some a) vm h = free_nothing a vm h

destroy_nothing : (p : ℕ) (vm : Vm) → IsApart (vm.pages p).frame vm → page_destroy p vm ≡ vm
unfolding page_destroy
destroy_nothing p vm h = destroy_frame (vm.pages p).frame vm h

destroy_pages_lem : (ps : List ℕ) (vm : Vm) → AreApart ps vm → destroy_pages ps vm ≡ vm
unfolding destroy_pages AreApart
destroy_pages_lem [] vm h = refl
destroy_pages_lem (p ∷ ps) vm (h, hs) = rw (destroy_nothing p vm h) (destroy_pages_lem ps vm hs)

-- The end of a process frees none of its frames: where no `struct frame` of its pages lies at the
-- address of a page of memory, `vm_supt_destroy` leaves the frame table, and all other state than
-- the list of pages, as it was.
pub supt_destroy-no_free :
    (s : Space) → AreApart s.spt s.vm → vm_supt_destroy s ≡ record s { spt = [] }
unfolding vm_supt_destroy
supt_destroy-no_free s h = rw (destroy_pages_lem s.spt s.vm h)
