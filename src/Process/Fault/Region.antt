-- ===== src/Process/Fault/Region.antt =====
-- Where the stack grows.
use pintos_lab.Base.{
  ℕ, ◌-◌, ◌%◌, ◌≤◌, ◌<◌, ◌≡◌, ◌⊎◌, Bool, true, false, not, ◌&&◌, ◌||◌, Option, none, some, ◌==◌,
  if◌then◌else◌, arith, Bool-cases, inl, inr,
}
use pintos_lab.Process.Fault.{
  phys_base, max_stack_size, in_limit, pg_round_down, is_user_vaddr, Pager, Fault, handled,
  near_stack, is_stack_access, claim_found, grow_stack, verdict, kernel_fault, load_page,
  user_fault, page_fault,
}

-- The pages that pass the limit of the stack: eight megabytes below `PHYS_BASE`, and all pages up
-- to 0x40000000.
pub record IsStackPage (va : ℕ) : Type 0 where
  pub aligned : va % 4096 ≡ 0
  pub inside : (phys_base - max_stack_size ≤ va) ⊎ (va ≤ 0x40000000)
  pub below : va < phys_base

-- What is known of the page table operations: they keep `P`, allocation for the pages that pass
-- the limit only.
pub record Keeps {S : Type 0} (pager : Pager S) (P : S → Type 0) : Type 0 where
  pub alloc : (va : ℕ) (s : S) → IsStackPage va → P s → P (pager.alloc_stack va s).1
  pub claim : (p : ℕ) (s : S) → P s → P (pager.claim p s).1

module _ {S : Type 0} (pager : Pager S) (P : S → Type 0) (keeps : Keeps pager P) where
  claim_found-keeps : (o : Option ℕ) (s : S) → P s → P (claim_found pager o s).1
  unfolding claim_found
  claim_found-keeps none s h = h
  claim_found-keeps (some p) s h = keeps.claim p s h

  verdict-keeps : (r : Bool × S) → P r.1 → P (verdict pager r).1
  unfolding verdict
  verdict-keeps (true, s) h = h
  verdict-keeps (false, s) h = h

  grow_stack-keeps :
      (a : ℕ) (s : S) → a < phys_base → P s → P (grow_stack pager (pg_round_down a) s).1
  unfolding grow_stack
  grow_stack-keeps a s lt h = elim (Bool-cases (in_limit (pg_round_down a))) [
    | inl fits ↦
        let page : IsStackPage (pg_round_down a) = record {
          aligned = omega arith;
          inside = ground (arith, fits, lt);
          below = omega arith;
        } in
        rw fits (
          allocated (pager.alloc_stack (pg_round_down a) s)
            (keeps.alloc (pg_round_down a) s page h))
    | inr big ↦ rw big h
  ]
    where
      allocated :
          (r : Bool × S)
          → P r.1
          → P
              (if r.0
                then claim_found pager (pager.find (pg_round_down a) r.1) r.1
                else (false, r.1)).1
      allocated (true, s') k = claim_found-keeps (pager.find (pg_round_down a) s') s' k
      allocated (false, s') k = k

  load_page-keeps : (va : ℕ) (s : S) → P s → P (load_page pager va s).1
  unfolding load_page
  load_page-keeps va s h = verdict-keeps _ (claim_found-keeps (pager.find va s) s h)

  kernel_fault-keeps :
      (f : Fault) (s : S) → f.fault_addr < phys_base → P s → P (kernel_fault pager f s).1
  unfolding kernel_fault
  kernel_fault-keeps f s lt h =
      elim (Bool-cases
        (near_stack (if f.current_esp == 0 then f.esp else f.current_esp) f.fault_addr)) [
          | inl near ↦ rw near (verdict-keeps _ (grow_stack-keeps f.fault_addr s lt h))
          | inr far ↦ rw far h
        ]

  user_fault-keeps :
      (f : Fault) (s : S) → f.fault_addr < phys_base → P s → P (user_fault pager f s).1
  unfolding user_fault
  user_fault-keeps f s lt h = elim (Bool-cases (is_stack_access f)) [
    | inl stack ↦ rw stack (
        grown (grow_stack pager (pg_round_down f.fault_addr) s)
          (grow_stack-keeps f.fault_addr s lt h))
    | inr other ↦ rw other (load_page-keeps va s h)
  ]
    where
      va : ℕ
      va = pg_round_down f.fault_addr

      grown : (r : Bool × S) → P r.1 → P (if r.0 then (handled, r.1) else load_page pager va r.1).1
      grown (true, s') k = k
      grown (false, s') k = load_page-keeps va s' k

  -- If the page table operations keep a property, with allocation needed to keep it only for
  -- aligned pages in the eight megabytes below `PHYS_BASE` and up to 0x40000000, then the handler
  -- keeps it: it never asks for a stack page anywhere else.
  pub page_fault-keeps : (f : Fault) (s : S) → P s → P (page_fault pager f s).1
  unfolding page_fault
  page_fault-keeps f s h = elim (Bool-cases (not f.user && is_user_vaddr f.fault_addr)) [
    | inl kernel ↦ rw kernel (kernel_fault-keeps f s (ground (arith, kernel)) h)
    | inr user ↦ elim (Bool-cases (not (is_user_vaddr f.fault_addr) || not f.not_present)) [
      | inl forbidden ↦ rw user (rw forbidden h)
      | inr allowed ↦ rw user (rw allowed (user_fault-keeps f s (ground (arith, allowed)) h))
    ]
  ]
