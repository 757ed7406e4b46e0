-- ===== src/Vm/Page/Alloc.antt =====
-- What the allocation of a page adds to the supplemental page table.
use pintos_lab.Base.{
  ℕ, ◌≡◌, ◌∙◌, ap, Bool, true, false, Option, none, some, ◌∷◌, ◌==◌, if◌then◌else◌, arith,
}
use pintos_lab.Process.Fault.{pg_round_down}
use pintos_lab.Vm.State.{VmType, SuppPage, set_page}
use pintos_lab.Vm.Page.{
  Space, set_supp, fresh_page, find_va, spt_find_page, spt_insert_page, alloc_with, vm_alloc_page,
}
use pintos_lab.Vm.Page.Find.{Absent, Distinct, find_va-set_page, Distinct-set_page}

-- The table and the memory after the insertion of a page.
abbrev added : ℕ → SuppPage → Space → Space
added p page s = record s { spt = p ∷ s.spt; vm = set_page s.vm p page }

insert_new :
    (p : ℕ) (page : SuppPage) (s : Space)
    → Absent p s.spt
    → find_va page.va s.spt s.vm ≡ none
    → spt_insert_page p (set_supp p page s) ≡ (true, added p page s)
unfolding spt_insert_page
insert_new p page s h n =
    let same = find_va-set_page page.va p page s.spt s.vm h in ground (arith, n, same)

find_rounded :
    (upage : ℕ) (s : Space) → spt_find_page (pg_round_down upage) s ≡ spt_find_page upage s
unfolding spt_find_page
find_rounded upage s =
    let again : pg_round_down (pg_round_down upage) ≡ pg_round_down upage = omega arith in
    ap (λ v. find_va v s.spt s.vm) again

with_new :
    (write : SuppPage → SuppPage) (p va : ℕ) (s : Space)
    → spt_find_page va s ≡ none
    → alloc_with write (some p) va s ≡ spt_insert_page p (set_supp p (write (s.vm.pages p)) s)
unfolding alloc_with
with_new write p va s n = rw (n, alloc_with)

with_old :
    (write : SuppPage → SuppPage) (malloc : Option ℕ) (q va : ℕ) (s : Space)
    → spt_find_page va s ≡ some q
    → alloc_with write malloc va s ≡ (false, s)
unfolding alloc_with
with_old write malloc q va s n = rw (n, alloc_with)

alloc_new :
    (p : ℕ) (kind : VmType) (upage : ℕ) (writable : Bool) (s : Space)
    → Absent p s.spt
    → spt_find_page upage s ≡ none
    → vm_alloc_page (some p) kind upage writable s
      ≡ (true, added p (fresh_page (s.vm.pages p) kind (pg_round_down upage) writable) s)
unfolding vm_alloc_page spt_find_page
alloc_new p kind upage writable s h n =
    with_new (λ old. fresh_page old kind (pg_round_down upage) writable) p (pg_round_down upage) s
      (find_rounded upage s ∙ n)
    ∙ insert_new p (fresh_page (s.vm.pages p) kind (pg_round_down upage) writable) s h n

find_added :
    (va p : ℕ) (page : SuppPage) (s : Space)
    → Absent p s.spt
    → spt_find_page va (added p page s)
      ≡ (if pg_round_down va == page.va then some p else spt_find_page va s)
unfolding spt_find_page find_va
find_added va p page s h =
    let rest = find_va-set_page (pg_round_down va) p page s.spt s.vm h in ground arith

added-Distinct :
    (p : ℕ) (page : SuppPage) (s : Space)
    → Absent p s.spt
    → find_va page.va s.spt s.vm ≡ none
    → Distinct s.vm s.spt
    → Distinct (added p page s).vm (added p page s).spt
unfolding Distinct
added-Distinct p page s h n d =
    let same = find_va-set_page page.va p page s.spt s.vm h in
    (ground (arith, n), Distinct-set_page p page s.spt s.vm h d)

-- `vm_alloc_page` of an address that is not in a table without an address twice, with memory from
-- `malloc` in no use: it succeeds; from then on the page of that address is the new one, which is
-- not in a frame, not in the swap area and not pinned, every other address is found as before, and
-- the table still has no address twice.
pub vm_alloc_page-find :
    (p : ℕ) (kind : VmType) (upage va : ℕ) (writable : Bool) (s : Space)
    → Absent p s.spt
    → Distinct s.vm s.spt
    → spt_find_page upage s ≡ none
    → (s' : Space) × (vm_alloc_page (some p) kind upage writable s ≡ (true, s'))
      × (spt_find_page va s'
          ≡ (if pg_round_down va == pg_round_down upage then some p else spt_find_page va s))
      × ((s'.vm.pages p).frame ≡ none)
      × ((s'.vm.pages p).in_swap ≡ false)
      × ((s'.vm.pages p).pinned ≡ false)
      × Distinct s'.vm s'.spt
unfolding spt_find_page
vm_alloc_page-find p kind upage va writable s h d n =
    let page = fresh_page (s.vm.pages p) kind (pg_round_down upage) writable in
    (
      added p page s,
      alloc_new p kind upage writable s h n,
      find_added va p page s h,
      ground arith,
      ground arith,
      ground arith,
      added-Distinct p page s h n d,
    )

-- An address that is in the table is refused, whatever `malloc` returns, and nothing changes.
pub alloc_again :
    (malloc : Option ℕ) (kind : VmType) (upage q : ℕ) (writable : Bool) (s : Space)
    → spt_find_page upage s ≡ some q
    → vm_alloc_page malloc kind upage writable s ≡ (false, s)
unfolding vm_alloc_page
alloc_again malloc kind upage q writable s n =
    with_old (λ old. fresh_page old kind (pg_round_down upage) writable) malloc q
      (pg_round_down upage) s (find_rounded upage s ∙ n)
