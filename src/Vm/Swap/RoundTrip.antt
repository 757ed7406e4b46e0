-- ===== src/Vm/Swap/RoundTrip.antt =====
-- A page that `swap_out` writes to a slot comes back from it by `swap_in`.
use pintos_lab.Base.{
  ℕ, ◌+◌, ◌-◌, ◌≤◌, ◌<◌, ◌≡◌, ◌∙◌, Bool, true, false, none, some, List, arith, length, ◌⊎◌, inl,
  inr, Bool-cases, ap, subst,
}
use pintos_lab.Bitmap.{Bitmap, bitmap_error, bitmap_reset, bitmap_scan_and_flip}
use pintos_lab.Bitmap.View.{IsValid, value_at, value_at-reset, test-eq-value_at}
use pintos_lab.Bitmap.Update.{IsWritten}
use pintos_lab.Bitmap.Contains.{AllAre}
use pintos_lab.Bitmap.Scan.{scan_and_flip-FlipsFirst}
use pintos_lab.Vm.State.{Frame, PageData, Swap, Vm, frame_at}
use pintos_lab.Vm.Swap.{swap_out_to, swap_out, swap_in, vm_swap_free, set_available}
use pintos_lab.Vm.Swap.Store.{IsSwappedOut, swap_out_to-IsSwappedOut, swap_in-Holds}

-- One bit for each slot, and one entry of the map where the slots are in memory.
pub record IsUsable (s : Swap) : Type 0 where
  pub valid : IsValid s.available
  pub cnt : s.available.bit_cnt ≡ s.size
  pub mapped : s.in_memory ≡ true → length s.memory_map ≡ s.size

-- A usable slot was free for `swap_out`, or there was none.
swap_out-taken :
    (vm : Vm) (malloc_ok : Bool) (p a slot : ℕ) (fr : Frame) (b : Bitmap)
    → (vm.pages p).frame ≡ some a
    → frame_at vm.frames a ≡ some fr
    → slot < bitmap_error
    → bitmap_scan_and_flip vm.swap.available 0 1 false ≡ some (slot, b)
    → swap_out malloc_ok (some p) vm
      ≡ some (swap_out_to malloc_ok p fr.kva slot (set_available vm b))
unfolding swap_out
swap_out-taken vm malloc_ok p a slot fr b h k l e = ground (arith, h, k, e)

-- No slot's bit is false.
abbrev pub IsFull : Bitmap → Type 0
IsFull b = (j : ℕ) → j < b.bit_cnt → value_at b j ≡ true

scan-IsFull :
    (b : Bitmap) → ((k : ℕ) → 0 ≤ k → k < b.bit_cnt + 1 - 1 → ¬ AllAre b k 1 false) → IsFull b
scan-IsFull b h j p = elim (Bool-cases (value_at b j)) [
  | inl t ↦ t
  | inr f ↦ absurd (h j (omega arith) (omega arith) (only f))
]
  where
    only : value_at b j ≡ false → AllAre b j 1 false
    only f k q r = let e : j ≡ k = omega arith in subst (λ i. value_at b i ≡ false) e f

-- How a call of `swap_out` on a page in a frame ends.
unfoldable pub Outcome : Vm → ℕ → Frame → Type 0
Outcome vm p fr =
    ((swap_out true (some p) vm ≡ some (false, vm)) × IsFull vm.swap.available)
    ⊎ ((slot : ℕ) × (b : Bitmap) × (vm' : Vm) × (swap_out true (some p) vm ≡ some (true, vm'))
        × (slot < vm.swap.size)
        × IsWritten vm.swap.available slot 1 true b
        × AllAre vm.swap.available slot 1 false
        × IsSwappedOut (set_available vm b) p slot (vm.memory fr.kva) vm')

swap_out-full :
    (vm : Vm) (p a : ℕ)
    → (vm.pages p).frame ≡ some a
    → bitmap_scan_and_flip vm.swap.available 0 1 false ≡ some (bitmap_error, vm.swap.available)
    → swap_out true (some p) vm ≡ some (false, vm)
unfolding swap_out
swap_out-full vm p a h e = ground (arith, h, e)

module _ (vm : Vm) (p a : ℕ) (fr : Frame) (usable : IsUsable vm.swap) where
  pub swap_out-Outcome :
      (vm.pages p).frame ≡ some a → frame_at vm.frames a ≡ some fr → Outcome vm p fr
  unfolding Outcome
  swap_out-Outcome h k =
      elim (scan_and_flip-FlipsFirst vm.swap.available 0 1 false usable.valid (omega arith)
        (omega arith)) [
          | inl (slot, b, e, lo, hi, all, first, w) ↦
              let (vm', f, out) =
                swap_out_to-IsSwappedOut p fr.kva slot (set_available vm b)
                  (λ m. omega (arith, usable.mapped m, usable.cnt)) in
              inr (
                slot,
                b,
                vm',
                swap_out-taken vm true p a slot fr b h k (omega (arith, usable.valid.size)) e
                    ∙ ap some f,
                omega (arith, usable.cnt),
                w,
                all,
                out,
              )
          | inr (e, full) ↦ inl (swap_out-full vm p a h e, scan-IsFull vm.swap.available full)
        ]

restored :
    (b b' : Bitmap) (slot j : ℕ)
    → IsWritten b slot 1 true b'
    → AllAre b slot 1 false
    → slot < b.bit_cnt
    → value_at (bitmap_reset b' slot) j ≡ value_at b j
restored b b' slot j w all h = ground (
  arith,
  value_at-reset b' slot j (omega (arith, w.valid.room, w.same_cnt)),
  w.values j,
  all slot (omega arith) (omega arith),
)

-- A page in a frame, in a usable swap area with memory to spare: `swap_out` fails and changes
-- nothing, and then no bit of the map is false; or it succeeds, and whatever memory and the frame
-- table become afterwards, `swap_in` to any page of memory succeeds, brings back all eight sectors
-- that the frame held, ends the page's stay in the swap area, and leaves the map as it was before.
pub swap_out-swap_in :
    (vm : Vm) (p a kva : ℕ) (fr : Frame) (memory : ℕ → PageData) (frames : List Frame)
    → IsUsable vm.swap
    → (vm.pages p).frame ≡ some a
    → frame_at vm.frames a ≡ some fr
    → ((swap_out true (some p) vm ≡ some (false, vm)) × IsFull vm.swap.available)
      ⊎ ((vm' : Vm) × (swap_out true (some p) vm ≡ some (true, vm'))
          × (vm'' : Vm) × (swap_in p kva (record vm' { memory = memory; frames = frames })
              ≡ (true, vm''))
          × ((k : ℕ) → k < 8 → vm''.memory kva k ≡ vm.memory fr.kva k)
          × ((vm''.pages p).in_swap ≡ false)
          × ((j : ℕ) → value_at vm''.swap.available j ≡ value_at vm.swap.available j))
unfolding Outcome
swap_out-swap_in vm p a kva fr memory frames usable h k =
    elim (swap_out-Outcome vm p a fr usable h k) [
      | inl full ↦ inl full
      | inr (slot, b, vm', e, lt, w, all, out) ↦
          let (vm'', f, c, n, m) =
            swap_in-Holds p kva slot (vm.memory fr.kva)
              (record vm' { memory = memory; frames = frames }) out.in_swap out.at_slot
              (omega (arith, out.size)) out.holds in
          inr (
            vm',
            e,
            vm'',
            f,
            c,
            n,
            λ j.
                ap (λ x. value_at x j) (m ∙ ap (λ x. bitmap_reset x slot) out.available)
                ∙ restored vm.swap.available b slot j w all (omega (arith, usable.cnt)),
          )
    ]

free_of_taken :
    (vm : Vm) (slot : ℕ)
    → slot < vm.swap.available.bit_cnt
    → value_at vm.swap.available slot ≡ true
    → vm_swap_free slot vm ≡ none
unfolding vm_swap_free
free_of_taken vm slot h t = ground (arith, test-eq-value_at vm.swap.available slot)

-- `vm_swap_free` panics on the slot of every page that `swap_out` has put in a usable swap area.
pub swap_free_panics :
    (vm : Vm) (p a : ℕ) (fr : Frame) (vm' : Vm)
    → IsUsable vm.swap
    → (vm.pages p).frame ≡ some a
    → frame_at vm.frames a ≡ some fr
    → swap_out true (some p) vm ≡ some (true, vm')
    → vm_swap_free (vm'.pages p).swap_slot vm' ≡ none
unfolding Outcome
swap_free_panics vm p a fr vm' usable h k e = elim (swap_out-Outcome vm p a fr usable h k) [
  | inl (f, _) ↦ cc
  | inr (slot, b, v, f, lt, w, all, out) ↦
      let same : v ≡ vm' = ground (arith, f, e) in
      rw (← same, out.at_slot)
        (free_of_taken v slot
          (omega (arith, ap (λ (x : Bitmap). x.bit_cnt) out.available, w.same_cnt, usable.cnt))
          (ap (λ x. value_at x slot) out.available ∙ ground (arith, w.values slot)))
]
