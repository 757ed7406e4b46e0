-- ===== src/Vm/Page/Find.antt =====
-- Search, insertion and removal in the supplemental page table.
use pintos_lab.Base.{ℕ, ◌≡◌, refl, false, none, List, [], ◌∷◌, ◌==◌, if◌then◌else◌, arith}
use pintos_lab.Process.Fault.{pg_round_down}
use pintos_lab.Vm.State.{SuppPage, Vm, set_page}
use pintos_lab.Vm.Page.{Space, find_va, spt_find_page, remove_va, spt_remove_page}

-- The page is none of a list.
abbrev pub Absent : ℕ → List ℕ → Type 0
Absent p [] = Unit
Absent p (q ∷ qs) = ((q == p) ≡ false) × Absent p qs

-- No address is in the list twice.
unfoldable pub Distinct : Vm → List ℕ → Type 0
Distinct vm [] = Unit
Distinct vm (p ∷ ps) = (find_va (vm.pages p).va ps vm ≡ none) × Distinct vm ps

pub find_va-set_page :
    (va p : ℕ) (page : SuppPage) (ps : List ℕ) (vm : Vm)
    → Absent p ps
    → find_va va ps (set_page vm p page) ≡ find_va va ps vm
unfolding find_va
find_va-set_page va p page [] vm h = refl
find_va-set_page va p page (q ∷ qs) vm (n, h) =
    let rest = find_va-set_page va p page qs vm h in ground (arith, n)

pub Distinct-set_page :
    (p : ℕ) (page : SuppPage) (ps : List ℕ) (vm : Vm)
    → Absent p ps
    → Distinct vm ps
    → Distinct (set_page vm p page) ps
unfolding Distinct
Distinct-set_page p page [] vm h d = tt
Distinct-set_page p page (q ∷ qs) vm (n, h) (new, d) =
    let rest = find_va-set_page (vm.pages q).va p page qs vm h in
    (ground (arith, n), Distinct-set_page p page qs vm h d)

find_va-remove_va :
    (va other : ℕ) (ps : List ℕ) (vm : Vm)
    → Distinct vm ps
    → find_va other (remove_va va ps vm) vm ≡ (if other == va then none else find_va other ps vm)
unfolding find_va remove_va Distinct
find_va-remove_va va other [] vm d = ground arith
find_va-remove_va va other (p ∷ ps) vm (new, d) =
    let rest = find_va-remove_va va other ps vm d in ground arith

-- `spt_remove_page` of a page from a table without two pages of one address: its address is then
-- found no more, and every other address is found as before.
pub find_page-remove_page :
    (va p : ℕ) (s : Space)
    → Distinct s.vm s.spt
    → spt_find_page va (spt_remove_page p s)
      ≡ (if pg_round_down va == (s.vm.pages p).va then none else spt_find_page va s)
unfolding spt_find_page spt_remove_page
find_page-remove_page va p s d = find_va-remove_va (s.vm.pages p).va (pg_round_down va) s.spt s.vm d
