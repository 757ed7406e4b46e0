-- ===== src/Process/Fault.antt =====
-- pintos/userprog/exception.c, `page_fault`: whether a fault loads a page, grows the stack or ends
-- the process. The page table operations of pintos/vm/page.c are an interface.
pub mod Region
pub mod Examples
use pintos_lab.Base.{
  ℕ, ◌+◌, ◌-◌, ◌*◌, ◌/◌, ◌%◌, ◌^◌, Bool, true, false, not, ◌&&◌, ◌||◌, Option, none, some, ltb, leb,
  ◌==◌, if◌then◌else◌,
}

-- `PHYS_BASE`: user addresses lie below it.
abbrev pub phys_base : ℕ
phys_base = 0xc0000000

abbrev pub max_stack_size : ℕ
max_stack_size = 8 * 1024 * 1024

abbrev pub pg_round_down : ℕ → ℕ
pg_round_down va = va / 4096 * 4096

abbrev pub is_user_vaddr : ℕ → Bool
is_user_vaddr va = ltb va phys_base

-- The calls of page.c that the handler makes, on a state `S` of the machine: `vm_alloc_page` of a
-- writable stack page, `spt_find_page`, `vm_do_claim_page` of the page found.
pub record Pager (S : Type 0) : Type 0 where
  pub alloc_stack : ℕ → S → Bool × S
  pub find : ℕ → S → Option ℕ
  pub claim : ℕ → S → Bool × S

-- What the processor and the current thread say about a fault. Where the handler reads the byte at
-- `eip`, `opcode` is that byte, and `none` if the address is null, not a user's or not mapped.
pub record Fault : Type 0 where
  pub fault_addr : ℕ
  pub not_present : Bool
  pub user : Bool
  pub esp : ℕ  -- of the interrupt frame
  pub current_esp : ℕ  -- of the thread; 0 is the null pointer
  pub opcode : Option ℕ

-- `handled` is a return to the faulting instruction, `killed` is `sys_exit (-1)`.
pub data Verdict : Type 0 where
  handled killed : Verdict

-- `fault_addr >= esp - 32 && fault_addr < PHYS_BASE`; the difference wraps.
abbrev pub near_stack : ℕ → ℕ → Bool
near_stack esp fault_addr =
    leb ((esp + 2 ^ 32 - 32) % 2 ^ 32) fault_addr && ltb fault_addr phys_base

-- pusha, the pushes of one register, and the two forms of mov
unfoldable pub is_stack_opcode : ℕ → Bool
is_stack_opcode op = op == 0x60 || (leb 0x50 op && leb op 0x57) || op == 0x89 || op == 0x8b

opcode_says : Option ℕ → Bool
unfolding is_stack_opcode
opcode_says none = false
opcode_says (some op) = is_stack_opcode op

unfoldable pub is_stack_access : Fault → Bool
unfolding opcode_says
is_stack_access f =
    let esp = if f.user then f.esp else f.current_esp in
    if not (esp == 0) && near_stack esp f.fault_addr
    then true
    else (if leb (phys_base - max_stack_size) f.fault_addr && ltb f.fault_addr phys_base
        then f.user && opcode_says f.opcode
        else false)

-- `PHYS_BASE - va <= MAX_STACK_SIZE` for a user page: the difference of the pointers is a number
-- of 32 bits with sign, which is negative from 2 ^ 31 on.
abbrev pub in_limit : ℕ → Bool
in_limit va = leb (2 ^ 31) (phys_base - va) || leb (phys_base - va) max_stack_size

module _ {S : Type 0} (pager : Pager S) where
  open pager use {alloc_stack, find, claim}

  -- `page && vm_do_claim_page (page)`
  unfoldable pub claim_found : Option ℕ → S → Bool × S
  claim_found none s = (false, s)
  claim_found (some p) s = claim p s

  -- The growth of the stack by one page, if the limit of its size allows it; false where the
  -- handler goes on.
  unfoldable pub grow_stack : ℕ → S → Bool × S
  grow_stack va s =
      if in_limit va
      then (let (ok, s') = alloc_stack va s in
          if ok then claim_found (find va s') s' else (false, s'))
      else (false, s)

  unfoldable pub verdict : Bool × S → Verdict × S
  verdict (true, s) = (handled, s)
  verdict (false, s) = (killed, s)

  unfoldable pub kernel_fault : Fault → S → Verdict × S
  kernel_fault f s =
      let esp = if f.current_esp == 0 then f.esp else f.current_esp in
      if near_stack esp f.fault_addr
      then verdict (grow_stack (pg_round_down f.fault_addr) s)
      else (killed, s)

  unfoldable pub load_page : ℕ → S → Verdict × S
  load_page va s = verdict (claim_found (find va s) s)

  unfoldable pub user_fault : Fault → S → Verdict × S
  user_fault f s =
      let va = pg_round_down f.fault_addr in
      if is_stack_access f
      then (let (grown, s') = grow_stack va s in if grown then (handled, s') else load_page va s')
      else load_page va s

  unfoldable pub page_fault : Fault → S → Verdict × S
  page_fault f s =
      if not f.user && is_user_vaddr f.fault_addr
      then kernel_fault f s
      else (if not (is_user_vaddr f.fault_addr) || not f.not_present
          then (killed, s)
          else user_fault f s)
