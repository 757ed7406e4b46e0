-- ===== src/Vm/Claim/Mapping.antt =====
-- The entry that `pagedir_set_page` writes for a page that is not mapped.
use pintos_lab.Base.{ℕ, ◌≡◌, refl, Bool, true, false, none, some, arith, Option-cases, inl, inr}
use pintos_lab.Vm.State.{VmType, vm_anon, vm_file, vm_stack, Vm, update}
use pintos_lab.Vm.Claim.{clear_dirty}
use pintos_lab.Vm.Pagedir.{
  is_upage, is_kpage, pagedir_set_page, pagedir_get_page, pagedir_set_dirty,
}

-- `vm'` is `vm` with the page at `va` of a thread mapped to `kva`.
pub record IsMapped (vm : Vm) (owner va kva : ℕ) (vm' : Vm) : Type 0 where
  pub mapped : pagedir_get_page owner va vm' ≡ some kva
  pub frames : vm'.frames ≡ vm.frames
  pub pages : vm'.pages ≡ vm.pages
  pub memory : vm'.memory ≡ vm.memory

pub set_page_unmapped :
    (owner va kva : ℕ) (writable : Bool) (vm : Vm)
    → is_upage va ≡ true
    → is_kpage kva vm.init_ram_pages ≡ true
    → pagedir_get_page owner va vm ≡ none
    → (vm' : Vm) × (pagedir_set_page owner va kva writable true vm ≡ some (true, vm'))
      × IsMapped vm owner va kva vm'
unfolding pagedir_set_page pagedir_get_page
set_page_unmapped owner va kva writable vm up kp h =
    let vm' = record vm {
      ptes = update vm.ptes owner (
          update (vm.ptes owner) va (
            some (record {
              present = true;
              kva = kva;
              writable = writable;
              accessed = false;
              dirty = false;
            })));
    } in
    elim (Option-cases (vm.ptes owner va)) [
      | inl e ↦ (
        vm',
        rw (up, kp) (ground (arith, e)),
        record { mapped = ground arith; frames = refl; pages = refl; memory = refl },
      )
      | inr (pte, e) ↦ (
        vm',
        rw (up, kp) (ground (arith, e, h)),
        record { mapped = ground arith; frames = refl; pages = refl; memory = refl },
      )
    ]

-- Clearing the dirty bit of a page of a file keeps the mapping.
pub clear_dirty-IsMapped :
    (kind : VmType) (owner va kva : ℕ) (vm vm' : Vm)
    → IsMapped vm owner va kva vm'
    → IsMapped vm owner va kva (clear_dirty kind owner va vm')
unfolding clear_dirty pagedir_set_dirty pagedir_get_page
clear_dirty-IsMapped vm_anon owner va kva vm vm' m = m
clear_dirty-IsMapped vm_stack owner va kva vm vm' m = m
clear_dirty-IsMapped vm_file owner va kva vm vm' m =
    let h = m.mapped in
    elim (Option-cases (vm'.ptes owner va)) [
      | inl e ↦ absurd (ground (arith, e, h))
      | inr (pte, e) ↦ record {
        mapped = ground (arith, e, h);
        frames = m.frames;
        pages = m.pages;
        memory = m.memory;
      }
    ]
