-- ===== src/Vm/Frame.antt =====
-- pintos/vm/frame.c, the operations that search the frame table: pin, unpin and free. The lock that
-- each of them takes is not part of the model: a call is one step.
use pintos_lab.Base.{
  ℕ, zero, suc, ◌-◌, Bool, true, false, Option, none, some, List, [], ◌∷◌, ltb, ◌==◌, if◌then◌else◌,
}
use mathlib.Core.Option
use pintos_lab.Vm.State.{Frame, Hand, at_end, at, dangling, Vm, update, freed_page}

-- The loop of `vm_frame_pin` and `vm_frame_unpin`: the first frame of that page.
unfoldable pub set_pinned : Bool → List Frame → ℕ → List Frame
set_pinned b [] kva = []
set_pinned b (f ∷ fs) kva =
    if f.kva == kva then record f { pinned = b } ∷ fs else f ∷ set_pinned b fs kva

unfoldable pub vm_frame_pin : ℕ → Vm → Vm
unfolding set_pinned
vm_frame_pin kva vm = if kva == 0 then vm else record vm { frames = set_pinned true vm.frames kva }

unfoldable pub vm_frame_unpin : ℕ → Vm → Vm
unfolding set_pinned
vm_frame_unpin kva vm =
    if kva == 0 then vm else record vm { frames = set_pinned false vm.frames kva }

-- The index of the first frame of a page.
unfoldable pub find_kva : List Frame → ℕ → Option ℕ
find_kva [] kva = none
find_kva (f ∷ fs) kva = if f.kva == kva then some 0 else Option.map suc (find_kva fs kva)

abbrev pub remove_at {ℓ} : {A : Type ℓ} → List A → ℕ → List A
remove_at [] i = []
remove_at (x ∷ xs) zero = xs
remove_at (x ∷ xs) (suc i) = x ∷ remove_at xs i

-- What `list_remove` of the element at `i` makes of a pointer into the list. The element's memory
-- is freed right after.
unfoldable pub hand_after_remove : Hand → ℕ → Hand
hand_after_remove at_end i = at_end
hand_after_remove dangling i = dangling
hand_after_remove (at h) i = if h == i then dangling else (if ltb i h then at (h - 1) else at h)

unfoldable pub remove_frame : ℕ → Option ℕ → Vm → Vm
remove_frame kva none vm = vm
remove_frame kva (some i) vm = record vm {
  memory = update vm.memory kva freed_page;
  frames = remove_at vm.frames i;
  hand = hand_after_remove vm.hand i;
}

-- The page itself goes back to the allocator of palloc.c, which fills it.
unfoldable pub vm_frame_free : ℕ → Vm → Vm
unfolding remove_frame find_kva
vm_frame_free kva vm = if kva == 0 then vm else remove_frame kva (find_kva vm.frames kva) vm

-- `vm_frame_init`, on the statics of frame.c
unfoldable pub vm_frame_init : Vm → Vm
vm_frame_init vm = record vm { frames = []; hand = at_end }
