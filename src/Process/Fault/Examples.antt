-- ===== src/Process/Fault/Examples.antt =====
-- The theorems on page faults at concrete faults, over a pager that keeps the list of pages.
use pintos_lab.Base.{ℕ, ◌≡◌, refl, Bool, true, false, none, some, List, [], ◌∷◌}
use pintos_lab.Process.Fault.{
  Pager, Fault, handled, killed, page_fault, verdict, claim_found, user_fault, kernel_fault,
  is_stack_access, grow_stack,
}
use pintos_lab.Process.Fault.Region.{IsStackPage, Keeps, page_fault-keeps}

abbrev listing : Pager (List ℕ)
listing = record {
  alloc_stack = λ va pages. (true, va ∷ pages);
  find = λ va pages. some va;
  claim = λ p pages. (true, pages);
}

abbrev InRegion : List ℕ → Type 0
InRegion [] = Unit {0}
InRegion (va ∷ pages) = IsStackPage va × InRegion pages

listing-keeps : Keeps listing InRegion
listing-keeps = record { alloc = λ va s page h. (page, h); claim = λ p s h. h }

-- a push just below the stack pointer
abbrev push : Fault
push = record {
  fault_addr = 0xbfffeffc;
  not_present = true;
  user = true;
  esp = 0xbffff000;
  current_esp = 0;
  opcode = none;
}

-- a read far from the stack
abbrev far_read : Bool → Fault
far_read user = record {
  fault_addr = 0x8048000;
  not_present = true;
  user = user;
  esp = 0xbffff000;
  current_esp = 0xbffff000;
  opcode = some 0x89;
}

push_grows : page_fault listing push [] ≡ (handled, 0xbfffe000 ∷ [])
unfolding page_fault user_fault is_stack_access grow_stack claim_found verdict
push_grows = refl

page_fault-keeps_example : InRegion (page_fault listing push []).1
page_fault-keeps_example = page_fault-keeps listing InRegion listing-keeps push [] tt

-- a push where the stack pointer was set to 0x8100000, far below the region of the stack
low_push_grows :
    page_fault listing (record push { fault_addr = 0x80ffffc; esp = 0x8100000 }) []
    ≡ (handled, 0x80ff000 ∷ [])
unfolding page_fault user_fault is_stack_access grow_stack claim_found verdict
low_push_grows = refl

-- A user's fault at a kernel address ends the process.
kernel_address_killed :
    page_fault listing (record push { fault_addr = 0xc0000010 }) [] ≡ (killed, [])
unfolding page_fault
kernel_address_killed = refl

-- A fault of the kernel away from the stack pointer ends the process, also where the supplemental
-- table has the page.
far_kernel_read : page_fault listing (far_read false) [] ≡ (killed, [])
unfolding page_fault kernel_fault
far_kernel_read = refl
