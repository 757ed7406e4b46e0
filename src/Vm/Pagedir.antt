-- ===== src/Vm/Pagedir.antt =====
-- pintos/userprog/pagedir.c: the page table entries of a thread. `none` for an entry is a page
-- table that does not exist, or an entry that was never written.
use pintos_lab.Base.{
  ℕ, ◌-◌, ◌/◌, ◌%◌, ◌==◌, ◌&&◌, leb, ltb, Bool, true, false, not, Option, none, some, if◌then◌else◌,
  assert, ◌>>=◌, ◌>>◌,
}
use pintos_lab.Process.Fault.{phys_base, is_user_vaddr}
use pintos_lab.Vm.State.{Pte, Vm, update}

abbrev set_pte : Vm → ℕ → ℕ → Option Pte → Vm
set_pte vm owner va e = record vm { ptes = update vm.ptes owner (update (vm.ptes owner) va e) }

new_pte : ℕ → Bool → Pte
new_pte kva writable = record {
  present = true;
  kva = kva;
  writable = writable;
  accessed = false;
  dirty = false;
}

-- The entry that is written, if its page table exists or can be made.
pte_to_set : Option Pte → Bool → Option Bool
pte_to_set none table_ok = some table_ok
pte_to_set (some e) table_ok = do assert (not e.present); some true

-- The assertions on the addresses of a user page and of the page of memory that it is mapped to:
-- `vtop` has one of them.
abbrev pub is_upage : ℕ → Bool
is_upage va = (va % 4096 == 0) && is_user_vaddr va

abbrev pub is_kpage : ℕ → ℕ → Bool
is_kpage kva ram_pages =
    (kva % 4096 == 0) && leb phys_base kva && ltb ((kva - phys_base) / 4096) ram_pages

-- `pagedir_set_page`; `table_ok` says whether there is memory for a page table, if one is wanted.
-- It panics where the page is mapped. The page directory of a thread is not that of the kernel.
unfoldable pub pagedir_set_page : ℕ → ℕ → ℕ → Bool → Bool → Vm → Option (Bool × Vm)
unfolding pte_to_set new_pte
pagedir_set_page owner va kva writable table_ok vm = do
  assert (is_upage va)
  assert (is_kpage kva vm.init_ram_pages)
  ok ← pte_to_set (vm.ptes owner va) table_ok
  some (ok, (if ok then set_pte vm owner va (some (new_pte kva writable)) else vm))

clear_present : Option Pte → Option Pte
clear_present none = none
clear_present (some e) = some (record e { present = false })

unfoldable pub clear_entry : ℕ → ℕ → Vm → Vm
unfolding clear_present
clear_entry owner va vm = set_pte vm owner va (clear_present (vm.ptes owner va))

unfoldable pub pagedir_clear_page : ℕ → ℕ → Vm → Option Vm
pagedir_clear_page owner va vm = do assert (is_upage va); some (clear_entry owner va vm)

set_pte_dirty : Bool → Option Pte → Option Pte
set_pte_dirty b none = none
set_pte_dirty b (some e) = some (record e { dirty = b })

unfoldable pub pagedir_set_dirty : ℕ → ℕ → Bool → Vm → Vm
unfolding set_pte_dirty
pagedir_set_dirty owner va b vm = set_pte vm owner va (set_pte_dirty b (vm.ptes owner va))

pte_dirty : Option Pte → Bool
pte_dirty none = false
pte_dirty (some e) = e.dirty

unfoldable pub pagedir_is_dirty : ℕ → ℕ → Vm → Bool
unfolding pte_dirty
pagedir_is_dirty owner va vm = pte_dirty (vm.ptes owner va)

pte_kva : Option Pte → Option ℕ
pte_kva none = none
pte_kva (some e) = if e.present then some e.kva else none

-- The kernel address of the page that a user page is mapped to.
unfoldable pub pagedir_get_page : ℕ → ℕ → Vm → Option ℕ
unfolding pte_kva
pagedir_get_page owner va vm = pte_kva (vm.ptes owner va)
