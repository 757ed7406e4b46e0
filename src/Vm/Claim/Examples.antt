-- ===== src/Vm/Claim/Examples.antt =====
-- Claims of page 11, with and without an eviction before.
use pintos_lab.Base.{ℕ, ◌*◌, ◌≡◌, refl, ◌<◌, inl, Bool, true, false, Option, none, some, [], arith}
use pintos_lab.Bitmap.{
  bitmap_scan_and_flip, bitmap_scan, bitmap_contains, bitmap_test, bitmap_set_multiple, bitmap_set,
  bitmap_mark,
}
use pintos_lab.Vm.State.{Vm, frame_at}
use pintos_lab.Vm.Frame.{find_kva, vm_frame_unpin, vm_frame_pin}
use pintos_lab.Vm.Swap.{swap_out, swap_out_to, store_slot}
use pintos_lab.Vm.Swap.RoundTrip.{IsUsable}
use pintos_lab.Vm.Pagedir.{clear_entry, pagedir_clear_page, pagedir_get_page}
use pintos_lab.Vm.Evict.{Supply, write_out, evict_frame}
use pintos_lab.Vm.Claim.{Loader, vm_do_claim_page}
use pintos_lab.Vm.Claim.Loaded.{Gives, IsResident}
use pintos_lab.Vm.Claim.Content.{IsWanted}
use pintos_lab.Vm.Claim.Evicted.{IsHeld, evict-claim}
use pintos_lab.Vm.Examples.{machine, half_full, frame_of, page_of}

-- Files without content.
abbrev empty_files : Loader
empty_files = record {
  file_read_at = λ file ofs size page. (0, page);
  clear_bytes = λ ofs size page. page;
}

abbrev one_page : Supply
one_page = record { page = some 0xc012c000; frame = some 105; swap_ok = true; table_ok = true }

area-IsUsable : IsUsable (machine (half_full true)).swap
area-IsUsable = record { valid = omega arith; cnt = refl; mapped = λ _. refl }

held : IsHeld (machine (half_full true)) 11 101 (frame_of 1 false)
unfolding frame_at
held = record {
  frame = refl;
  in_table = refl;
  page = refl;
  kind = inl refl;
  unpinned = refl;
  initializer = refl;
  upage = refl;
}

state : Option (Bool × Vm) → Vm
state none = machine (half_full true)
state (some (ok, vm)) = vm

abbrev evicted : Vm
evicted = state (evict_frame true (frame_of 1 false) (machine (half_full true)))

evict_runs : evict_frame true (frame_of 1 false) (machine (half_full true)) ≡ some (true, evicted)
unfolding state evict_frame write_out pagedir_clear_page clear_entry swap_out swap_out_to store_slot
    frame_at bitmap_scan_and_flip bitmap_scan bitmap_contains bitmap_test bitmap_set_multiple
    bitmap_set bitmap_mark
evict_runs = refl

evicted-Gives : Gives one_page (record evicted { memory = λ _ _. 7; frames = [] }) 0xc012c000 105
unfolding find_kva state evict_frame write_out pagedir_clear_page clear_entry swap_out swap_out_to
    store_slot frame_at bitmap_scan_and_flip bitmap_scan bitmap_contains bitmap_test
    bitmap_set_multiple bitmap_set bitmap_mark vm_frame_unpin vm_frame_pin
evicted-Gives = record {
  page = refl;
  frame = refl;
  table_ok = refl;
  kva_ne_0 = omega arith;
  new_addr = refl;
  new_kva = refl;
  kpage = refl;
}

evict-claim_example :
    (vm : Vm) × (vm_do_claim_page empty_files 1 one_page
        (some 11)
        (record evicted { memory = λ _ _. 7; frames = [] })
      ≡ some (true, vm))
    × IsResident vm 11 105 0xc012c000 1 (1011 * 4096)
    × ((vm.pages 11).in_swap ≡ false)
    × ((k : ℕ) → k < 8 → vm.memory 0xc012c000 k ≡ (machine (half_full true)).memory 201 k)
evict-claim_example =
    evict-claim (machine (half_full true)) 11 101 (frame_of 1 false) area-IsUsable held empty_files
      one_page evicted 0xc012c000 105 (λ _ _. 7) [] evict_runs evicted-Gives

-- Page 20 has been allocated and never loaded.
abbrev one_new : Vm
one_new = record (machine (half_full true)) {
  pages = λ p. record (page_of p) { frame = none };
  ptes = λ o va. none;
}

new-Gives : Gives one_page one_new 0xc012c000 105
unfolding frame_at find_kva
new-Gives = record {
  page = refl;
  frame = refl;
  table_ok = refl;
  kva_ne_0 = omega arith;
  new_addr = refl;
  new_kva = refl;
  kpage = refl;
}

new-IsWanted : IsWanted one_new 20 1
unfolding pagedir_get_page
new-IsWanted = record {
  unpinned = refl;
  kind = inl refl;
  initializer = refl;
  unmapped = refl;
  upage = refl;
}
