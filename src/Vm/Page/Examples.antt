-- ===== src/Vm/Page/Examples.antt =====
-- A table with pages 10 and 11, which lie at 1000 * 4096 and 1001 * 4096.
use pintos_lab.Base.{
  ℕ, ◌+◌, ◌*◌, ◌≡◌, refl, true, false, Option, none, some, [], ◌∷◌, arith, ◌==◌, if◌then◌else◌,
}
use pintos_lab.Process.Fault.{pg_round_down}
use pintos_lab.Vm.State.{vm_stack}
use pintos_lab.Vm.Frame.{find_kva}
use pintos_lab.Vm.Evict.{Supply}
use pintos_lab.Vm.Claim.{Loader}
use pintos_lab.Vm.Page.{
  Space, find_va, spt_find_page, spt_remove_page, vm_alloc_page, vm_pin_page, vm_load_page,
  vm_supt_destroy,
}
use pintos_lab.Vm.Page.Find.{Distinct, find_page-remove_page}
use pintos_lab.Vm.Page.Alloc.{vm_alloc_page-find}
use pintos_lab.Vm.Page.Pin.{marked, pin_page-no_load}
use pintos_lab.Vm.Page.Release.{AreApart, supt_destroy-no_free}
use pintos_lab.Vm.Examples.{machine, half_full, page_of}

abbrev table_of : (ℕ → Option ℕ) → Space
table_of frame = record {
  thread = 1;
  spt = 10 ∷ 11 ∷ [];
  vm = record (machine (half_full true)) {
    pages = λ p. record (page_of p) { va = (990 + p) * 4096; frame = frame p };
  };
}

-- Page 10 is in frame 100, and page 11 in none.
abbrev two_pages : Space
two_pages = table_of (λ p. if p == 10 then some 100 else none)

two_pages-Distinct : Distinct two_pages.vm two_pages.spt
unfolding Distinct find_va
two_pages-Distinct = (refl, (refl, tt))

new_address : spt_find_page 5000 two_pages ≡ none
unfolding spt_find_page
new_address = refl

vm_alloc_page-find_example :
    (s : Space) × (vm_alloc_page (some 12) vm_stack 5000 true two_pages ≡ (true, s))
    × (spt_find_page 4100 s ≡ (
        if pg_round_down 4100 == pg_round_down 5000 then some 12 else spt_find_page 4100 two_pages))
    × ((s.vm.pages 12).frame ≡ none)
    × ((s.vm.pages 12).in_swap ≡ false)
    × ((s.vm.pages 12).pinned ≡ false)
    × Distinct s.vm s.spt
vm_alloc_page-find_example =
    vm_alloc_page-find 12 vm_stack 5000 4100 true two_pages (refl, (refl, tt)) two_pages-Distinct
      new_address

find_page-remove_page_example : spt_find_page 5000 (spt_remove_page 10 two_pages) ≡ (
    if pg_round_down 5000 == (two_pages.vm.pages 10).va then none else spt_find_page 5000 two_pages)
find_page-remove_page_example = find_page-remove_page 5000 10 two_pages two_pages-Distinct

absent_found : spt_find_page (1001 * 4096) two_pages ≡ some 11
unfolding spt_find_page
absent_found = refl

abbrev no_files : Loader
no_files = record {
  file_read_at = λ file ofs size page. (0, page);
  clear_bytes = λ ofs size page. page;
}

abbrev plenty : Supply
plenty = record { page = some 300; frame = some 105; swap_ok = true; table_ok = true }

pin_page-no_load_example :
    (vm_pin_page no_files plenty (1001 * 4096) two_pages ≡ some (marked 11 two_pages))
    × (vm_load_page no_files plenty (1001 * 4096) (marked 11 two_pages)
        ≡ some (false, marked 11 two_pages))
pin_page-no_load_example =
    pin_page-no_load no_files plenty (1001 * 4096) 11 two_pages (omega arith) absent_found refl

apart : AreApart two_pages.spt two_pages.vm
unfolding AreApart find_kva
apart = (refl, (tt, tt))

supt_destroy-no_free_example : vm_supt_destroy two_pages ≡ record two_pages { spt = [] }
supt_destroy-no_free_example = supt_destroy-no_free two_pages apart
