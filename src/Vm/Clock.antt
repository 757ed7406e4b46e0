-- ===== src/Vm/Clock.antt =====
-- pintos/vm/frame.c, `select_victim`: the clock over the frame table. The loop of at most twice the
-- table's size recurs on the rounds left. `none` is a read through a null or dangling pointer.
pub mod Step
pub mod Victim
pub mod Live
pub mod Examples
use pintos_lab.Base.{
  ℕ, zero, suc, ◌+◌, ◌*◌, Bool, true, false, Option, none, some, List, [], ◌∷◌, ◌==◌, if◌then◌else◌,
  length, get_elem?, ◌>>=◌,
}
use pintos_lab.Vm.State.{Frame, SuppPage, Pte, Hand, at_end, at, dangling, Vm, update}

-- `pagedir_is_accessed`: false where there is no entry
pte_accessed : Option Pte → Bool
pte_accessed none = false
pte_accessed (some e) = e.accessed

unfoldable pub is_accessed : Vm → ℕ → ℕ → Bool
unfolding pte_accessed
is_accessed vm owner va = pte_accessed (vm.ptes owner va)

-- `pagedir_set_accessed`
pte_set_accessed : Bool → Option Pte → Option Pte
pte_set_accessed b none = none
pte_set_accessed b (some e) = some (record e { accessed = b })

unfoldable pub set_accessed : Vm → ℕ → ℕ → Bool → Vm
unfolding pte_set_accessed
set_accessed vm owner va b = record vm {
  ptes = update vm.ptes owner (update (vm.ptes owner) va (pte_set_accessed b (vm.ptes owner va)));
}

-- `if (clock_hand == list_end) clock_hand = list_begin`, and the element there
abbrev pub hand_index : Hand → Option ℕ
hand_index at_end = some 0
hand_index (at i) = some i
hand_index dangling = none

-- `list_next` from the element at `i` of a list of `n`
abbrev pub hand_next : ℕ → ℕ → Hand
hand_next n i = if i + 1 == n then at_end else at (i + 1)

-- The body of the loop: the victim's index if it is found, and the new state.
unfoldable pub examine : Vm → ℕ → Frame → Option (Option ℕ × Vm)
examine vm i fr = if fr.pinned then some (none, vm) else (do
  p ← fr.page
  if is_accessed vm fr.owner (vm.pages p).va
      then some (none, set_accessed vm fr.owner (vm.pages p).va false)
      else some (some i, vm))

unfoldable pub clock_step : Vm → Option (Option ℕ × Vm)
clock_step vm = do
  i ← hand_index vm.hand
  fr ← get_elem? vm.frames i
  examine (record vm { hand = hand_next (length vm.frames) i }) i fr

unfoldable pub clock_loop : ℕ → Vm → Option (Option ℕ × Vm)
clock_loop zero vm = some (none, vm)
clock_loop (suc n) vm = do
  (r, vm') ← clock_step vm
  elim r [ none ↦ clock_loop n vm' | some i ↦ some (some i, vm') ]

unfoldable pub select_victim : Vm → Option (Option ℕ × Vm)
unfolding clock_loop clock_step examine is_accessed set_accessed
select_victim vm =
    if length vm.frames == 0 then some (none, vm) else clock_loop (length vm.frames * 2) vm
