-- ===== src/Vm/Evict.antt =====
-- pintos/vm/frame.c, `evict_frame` and `vm_frame_allocate`. The lock of the frame table, which is
-- given up while a page is written out, is not part of the model: an eviction is one step.
pub mod Frames
pub mod Content
pub mod Examples
use pintos_lab.Base.{
  ℕ, Bool, true, false, Option, none, some, [], ◌∷◌, ◌++◌, if◌then◌else◌, get_elem?, ◌>>=◌,
}
use pintos_lab.Vm.State.{
  VmType, vm_anon, vm_file, vm_stack, Frame, Vm, update, set_page, freed_page,
}
use pintos_lab.Vm.Frame.{remove_at, hand_after_remove}
use pintos_lab.Vm.Clock.{select_victim}
use pintos_lab.Vm.Swap.{swap_out}
use pintos_lab.Vm.Pagedir.{pagedir_clear_page}

-- What the allocators answer during one call: `palloc_get_page`, `malloc` of a `struct frame`,
-- `malloc` of a slot in memory, and the page for a page table.
pub record Supply : Type 0 where
  pub page : Option ℕ
  pub frame : Option ℕ
  pub swap_ok : Bool
  pub table_ok : Bool

-- The switch on the page's type. Nothing is written back for a page of a file.
unfoldable pub write_out : VmType → Bool → ℕ → Vm → Option (Bool × Vm)
write_out vm_anon malloc_ok p vm = swap_out malloc_ok (some p) vm
write_out vm_stack malloc_ok p vm = swap_out malloc_ok (some p) vm
write_out vm_file malloc_ok p vm =
    some (true, set_page vm p (record (vm.pages p) { in_swap = false }))

unfoldable pub evict_frame : Bool → Frame → Vm → Option (Bool × Vm)
evict_frame malloc_ok victim vm = do
  p ← victim.page
  cleared ← pagedir_clear_page victim.owner (vm.pages p).va vm
  (ok, vm') ← write_out (vm.pages p).kind malloc_ok p cleared
  some (ok, (if ok then set_page vm' p (record (vm'.pages p) { frame = none }) else vm'))

-- `list_remove` of the victim, which is freed
abbrev pub drop_frame : ℕ → Vm → Vm
drop_frame i vm = record vm { frames = remove_at vm.frames i; hand = hand_after_remove vm.hand i }

-- The page of the victim at `i`, if it can be evicted.
unfoldable pub reclaim_at : Bool → ℕ → Vm → Option (Option ℕ × Vm)
reclaim_at malloc_ok i vm = do
  victim ← get_elem? vm.frames i
  (ok, vm') ← evict_frame malloc_ok victim vm
  some (if ok then (some victim.kva, drop_frame i vm') else (none, vm'))

unfoldable pub reclaim : Bool → Vm → Option (Option ℕ × Vm)
reclaim malloc_ok vm = do
  (victim, vm') ← select_victim vm
  elim victim [ none ↦ some (none, vm') | some i ↦ reclaim_at malloc_ok i vm' ]

-- A page of memory: from the allocator, which fills it with zeroes if `zero` is set, or a victim's.
unfoldable pub obtain : Bool → Supply → Vm → Option (Option ℕ × Vm)
obtain zero supply vm = elim supply.page [
  | some kva ↦
      some (some kva, (if zero then record vm { memory = update vm.memory kva (λ k. 0) } else vm))
  | none ↦ reclaim supply.swap_ok vm
]

-- The new frame at the end of the table; without memory for it the page goes back to the
-- allocator, which fills it.
unfoldable pub new_frame : Option ℕ → ℕ → ℕ → Vm → Option ℕ × Vm
new_frame none thread kva vm = (none, record vm { memory = update vm.memory kva freed_page })
new_frame (some a) thread kva vm = (
  some a,
  record vm {
    frames =
        vm.frames
        ++ (record { addr = a; kva = kva; page = none; owner = thread; pinned = false } ∷ []);
  },
)

-- `vm_frame_allocate`, whose other argument is not used: the address of the new `struct frame`.
unfoldable pub vm_frame_allocate : Bool → ℕ → Supply → Vm → Option (Option ℕ × Vm)
vm_frame_allocate zero thread supply vm = do
  (kva, vm') ← obtain zero supply vm
  some (elim kva [ none ↦ (none, vm') | some k ↦ new_frame supply.frame thread k vm' ])
