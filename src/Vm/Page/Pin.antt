-- ===== src/Vm/Page/Pin.antt =====
-- `vm_pin_page` marks a page as pinned before it claims it.
use pintos_lab.Base.{
  ℕ, ◌≡◌, refl, ◌≢◌, true, false, none, some, List, [], ◌∷◌, arith, Bool-cases, inl, inr,
}
use pintos_lab.Process.Fault.{pg_round_down}
use pintos_lab.Vm.Evict.{Supply}
use pintos_lab.Vm.Claim.{Loader}
use pintos_lab.Vm.Claim.Pinned.{claim_pinned}
use pintos_lab.Vm.Page.{
  Space, set_supp, claim_in, find_va, spt_find_page, vm_pin_page, vm_load_page,
}

-- The space with page `p` marked.
abbrev pub marked : ℕ → Space → Space
marked p s = set_supp p (record (s.vm.pages p) { pinned = true }) s

module _ (loader : Loader) (supply : Supply) where
  claim_marked :
      (p : ℕ) (s : Space) → claim_in loader supply p (marked p s) ≡ some (false, marked p s)
  claim_marked p s =
      let h = claim_pinned loader s.thread supply p (marked p s).vm (ground arith) in rw h

  pin_absent :
      (page p : ℕ) (s : Space)
      → page ≢ 0
      → spt_find_page page s ≡ some p
      → (s.vm.pages p).frame ≡ none
      → vm_pin_page loader supply page s ≡ some (marked p s)
  unfolding vm_pin_page
  pin_absent page p s z f n = elim (Bool-cases (s.vm.pages p).in_swap) [
    | inl sw ↦ ground (arith, z, f, n, sw)
    | inr sw ↦ ground (arith, z, f, n, sw, claim_marked p s)
  ]

  find_va-marked :
      (va p : ℕ) (ps : List ℕ) (s : Space) → find_va va ps (marked p s).vm ≡ find_va va ps s.vm
  unfolding find_va
  find_va-marked va p [] s = refl
  find_va-marked va p (q ∷ qs) s = let rest = find_va-marked va p qs s in ground arith

  load_marked :
      (page p : ℕ) (s : Space)
      → spt_find_page page s ≡ some p
      → vm_load_page loader supply page (marked p s) ≡ some (false, marked p s)
  unfolding vm_load_page spt_find_page
  load_marked page p s f =
      let same = find_va-marked (pg_round_down page) p s.spt s in
      let c = claim_marked p s in ground (arith, f, same, c)

  -- `vm_pin_page` of a page of the table that has no frame does nothing but mark it as pinned,
  -- whatever the allocators and the files could give: the page is not loaded. After that
  -- `vm_load_page` of the address fails as well and changes nothing.
  pub pin_page-no_load :
      (page p : ℕ) (s : Space)
      → page ≢ 0
      → spt_find_page page s ≡ some p
      → (s.vm.pages p).frame ≡ none
      → (vm_pin_page loader supply page s ≡ some (marked p s))
        × (vm_load_page loader supply page (marked p s) ≡ some (false, marked p s))
  pin_page-no_load page p s z f n = (pin_absent page p s z f n, load_marked page p s f)
