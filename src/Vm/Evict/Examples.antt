-- ===== src/Vm/Evict/Examples.antt =====
-- An allocation while no page is free: the clock finds the frame of page 11.
use pintos_lab.Base.{ℕ, ◌≡◌, refl, true, Option, none, some}
use pintos_lab.Bitmap.{
  bitmap_scan_and_flip, bitmap_scan, bitmap_contains, bitmap_test, bitmap_set_multiple, bitmap_set,
  bitmap_mark,
}
use pintos_lab.Vm.State.{Vm, frame_at}
use pintos_lab.Vm.Clock.{select_victim}
use pintos_lab.Vm.Swap.{swap_out, swap_out_to, store_slot}
use pintos_lab.Vm.Pagedir.{clear_entry, pagedir_clear_page}
use pintos_lab.Vm.Evict.{
  Supply, write_out, evict_frame, reclaim_at, reclaim, obtain, new_frame, vm_frame_allocate,
}
use pintos_lab.Vm.Evict.Content.{vm_frame_allocate-memory, Allocated}
use pintos_lab.Vm.Examples.{machine, half_full}

abbrev no_page : Supply
no_page = record { page = none; frame = some 105; swap_ok = true; table_ok = true }

-- The result, and the state after it, by evaluation.
abbrev after : Option (Option ℕ × Vm)
after = vm_frame_allocate true 1 no_page (machine (half_full true))

given : Option (Option ℕ × Vm) → Option ℕ
given none = none
given (some (r, vm)) = r

state : Option (Option ℕ × Vm) → Vm
state none = machine (half_full true)
state (some (r, vm)) = vm

runs : after ≡ some (given after, state after)
unfolding given state vm_frame_allocate obtain reclaim reclaim_at evict_frame write_out new_frame
    select_victim pagedir_clear_page clear_entry swap_out swap_out_to store_slot frame_at
    bitmap_scan_and_flip bitmap_scan bitmap_contains bitmap_test bitmap_set_multiple bitmap_set
    bitmap_mark
runs = refl

gives : given after ≡ some 105
unfolding given vm_frame_allocate obtain reclaim reclaim_at evict_frame write_out new_frame
    select_victim pagedir_clear_page clear_entry swap_out swap_out_to store_slot frame_at
    bitmap_scan_and_flip bitmap_scan bitmap_contains bitmap_test bitmap_set_multiple bitmap_set
    bitmap_mark
gives = refl

vm_frame_allocate-memory_example :
    Allocated (given after) none (machine (half_full true)).memory (state after).memory
vm_frame_allocate-memory_example =
    vm_frame_allocate-memory 1 no_page (machine (half_full true)) (state after) (given after) runs
