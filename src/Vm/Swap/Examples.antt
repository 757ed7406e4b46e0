-- ===== src/Vm/Swap/Examples.antt =====
-- Runs of the swap area, and its theorems at concrete states.
use pintos_lab.Base.{ℕ, ◌<◌, ◌≡◌, ◌⊎◌, refl, Bool, true, false, none, some, [], ◌∷◌, arith}
use pintos_lab.Bitmap.{
  bitmap_create, bitmap_set_all, bitmap_set_multiple, bitmap_set, bitmap_mark, bitmap_reset,
  bitmap_scan_and_flip, bitmap_scan, bitmap_contains, bitmap_test,
}
use pintos_lab.Bitmap.View.{value_at}
use pintos_lab.Vm.State.{Swap, Vm, frame_at}
use pintos_lab.Vm.Swap.{vm_swap_init, swap_out, swap_out_to, store_slot, swap_in, vm_swap_free}
use pintos_lab.Vm.Swap.Polarity.{init-swap_out}
use pintos_lab.Vm.Swap.RoundTrip.{IsUsable, IsFull, swap_out-swap_in, swap_free_panics}
use pintos_lab.Vm.Examples.{machine, half_full, frame_of}

-- a swap device of 24 sectors, that is of three slots
abbrev new_area : Swap
new_area = record {
  size = 3;
  in_memory = false;
  available = record { bit_cnt = 3; bits = 7 ∷ [] };
  memory_map = [];
  disk = λ _. 0;
}

init_runs : vm_swap_init (some 24) true true (some (0 ∷ [])) (λ _. 0) ≡ some new_area
unfolding vm_swap_init bitmap_create bitmap_set_all bitmap_set_multiple bitmap_set bitmap_mark
    bitmap_reset
init_runs = refl

init-swap_out_example : swap_out true (some 11) (machine new_area) ≡ some (false, machine new_area)
init-swap_out_example =
    init-swap_out (some 24) (0 ∷ []) (λ _. 0) (machine new_area) true (some 11) refl (omega arith)
      init_runs

area-IsUsable : (m : Bool) → IsUsable (half_full m)
area-IsUsable m = record { valid = omega arith; cnt = refl; mapped = λ _. refl }

swap_out-swap_in_example :
    let vm = machine (half_full true) in
    ((swap_out true (some 11) vm ≡ some (false, vm)) × IsFull vm.swap.available)
    ⊎ ((vm' : Vm) × (swap_out true (some 11) vm ≡ some (true, vm'))
        × (vm'' : Vm) × (swap_in 11 300 (record vm' { memory = λ _ _. 0; frames = [] })
            ≡ (true, vm''))
        × ((k : ℕ) → k < 8 → vm''.memory 300 k ≡ vm.memory 201 k)
        × ((vm''.pages 11).in_swap ≡ false)
        × ((j : ℕ) → value_at vm''.swap.available j ≡ value_at vm.swap.available j))
unfolding frame_at
swap_out-swap_in_example =
    swap_out-swap_in (machine (half_full true)) 11 101 300 (frame_of 1 false) (λ _ _. 0) []
      (area-IsUsable true) refl refl

-- the state after `swap_out` of page 11, which takes slot 1
abbrev slot_taken : Vm
slot_taken = machine (record (half_full true) { available = record { bit_cnt = 3; bits = 3 ∷ [] } })

abbrev swapped : Vm
swapped = (swap_out_to true 11 201 1 slot_taken).1

swap_runs : swap_out true (some 11) (machine (half_full true)) ≡ some (true, swapped)
unfolding swap_out swap_out_to store_slot frame_at bitmap_scan_and_flip bitmap_scan bitmap_contains
    bitmap_test bitmap_set_multiple bitmap_set bitmap_mark
swap_runs = refl

swap_free_panics_example : vm_swap_free (swapped.pages 11).swap_slot swapped ≡ none
unfolding frame_at
swap_free_panics_example =
    swap_free_panics (machine (half_full true)) 11 101 (frame_of 1 false) swapped
      (area-IsUsable true) refl refl swap_runs
