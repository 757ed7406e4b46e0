-- ===== src/Vm/Evict/Content.antt =====
-- What an allocation does to the content of memory.
use pintos_lab.Base.{
  ℕ, zero, suc, ◌*◌, ◌≡◌, ◌⊎◌, ap, subst, refl, ◌∙◌, sym, Bool, true, false, Option, none, some,
  if◌then◌else◌, arith, get_elem?, length, Bool-cases, Option-cases, inl, inr,
}
use pintos_lab.Bitmap.{bitmap_scan_and_flip}
use pintos_lab.Vm.State.{
  VmType, vm_anon, vm_file, vm_stack, Frame, PageData, Vm, update, set_page, frame_at, freed_page,
}
use pintos_lab.Vm.Frame.{vm_frame_pin, vm_frame_unpin}
use pintos_lab.Vm.Clock.{select_victim, clock_step, clock_loop, examine, set_accessed}
use pintos_lab.Vm.Clock.Victim.{loop_next}
use pintos_lab.Vm.Swap.{swap_out, swap_out_to, store_slot, set_available}
use pintos_lab.Vm.Pagedir.{is_upage, clear_entry, pagedir_clear_page}
use pintos_lab.Vm.Evict.{
  Supply, write_out, evict_frame, reclaim_at, reclaim, obtain, new_frame, vm_frame_allocate,
}

-- A frame is pinned and unpinned, and the content goes to the swap area.
swap_out_to-memory :
    (malloc_ok : Bool) (p kva slot : ℕ) (vm : Vm)
    → (swap_out_to malloc_ok p kva slot vm).1.memory ≡ vm.memory
unfolding swap_out_to vm_frame_pin vm_frame_unpin store_slot
swap_out_to-memory malloc_ok p kva slot vm = ground arith

swap_out-memory :
    (malloc_ok ok : Bool) (p : ℕ) (vm vm' : Vm)
    → swap_out malloc_ok (some p) vm ≡ some (ok, vm')
    → vm'.memory ≡ vm.memory
unfolding swap_out
swap_out-memory malloc_ok ok p vm vm' e = elim (Option-cases (vm.pages p).frame) [
  | inl h ↦ ground (arith, h, e)
  | inr (a, h) ↦ elim (Option-cases (bitmap_scan_and_flip vm.swap.available 0 1 false)) [
    | inl n ↦ ground (arith, h, n, e)
    | inr ((slot, b), n) ↦ elim (Option-cases (frame_at vm.frames a)) [
      | inl k ↦ ground (arith, h, n, k, e)
      | inr (fr, k) ↦
          ground
            (arith, h, n, k, e, swap_out_to-memory malloc_ok p fr.kva slot (set_available vm b))
    ]
  ]
]

write_out-memory :
    (kind : VmType) (malloc_ok ok : Bool) (p : ℕ) (vm vm' : Vm)
    → write_out kind malloc_ok p vm ≡ some (ok, vm')
    → vm'.memory ≡ vm.memory
unfolding write_out
write_out-memory vm_anon malloc_ok ok p vm vm' e = swap_out-memory malloc_ok ok p vm vm' e
write_out-memory vm_stack malloc_ok ok p vm vm' e = swap_out-memory malloc_ok ok p vm vm' e
write_out-memory vm_file malloc_ok ok p vm vm' e = ground arith

-- The page is written out of a memory that the cleared entry leaves alone.
clear-memory : (owner va : ℕ) (vm : Vm) → (clear_entry owner va vm).memory ≡ vm.memory
unfolding clear_entry
clear-memory owner va vm = refl

detached :
    (ok : Bool) (p : ℕ) (vm : Vm)
    → (if ok then set_page vm p (record (vm.pages p) { frame = none }) else vm).memory ≡ vm.memory
detached ok p vm = ground arith

evict_frame-memory :
    (malloc_ok ok : Bool) (victim : Frame) (vm vm' : Vm)
    → evict_frame malloc_ok victim vm ≡ some (ok, vm')
    → vm'.memory ≡ vm.memory
unfolding evict_frame pagedir_clear_page
evict_frame-memory malloc_ok ok victim vm vm' e = elim (Option-cases victim.page) [
  | inl h ↦ ground (arith, h, e)
  | inr (p, h) ↦
      let cleared = clear_entry victim.owner (vm.pages p).va vm in
      elim (Bool-cases (is_upage (vm.pages p).va)) [
        | inr u ↦ ground (arith, h, u, e)
        | inl u ↦ elim (Option-cases (write_out (vm.pages p).kind malloc_ok p cleared)) [
          | inl w ↦ ground (arith, h, u, w, e)
          | inr ((b, out), w) ↦ ground (
            arith,
            h,
            u,
            w,
            e,
            detached b p out,
            clear-memory victim.owner (vm.pages p).va vm,
            write_out-memory (vm.pages p).kind malloc_ok b p cleared out w,
          )
        ]
      ]
]

clock_step-memory :
    (r : Option ℕ) (vm vm' : Vm) → clock_step vm ≡ some (r, vm') → vm'.memory ≡ vm.memory
unfolding clock_step examine set_accessed
clock_step-memory r vm vm' e = ground arith

clock_loop-memory :
    (n : ℕ) (r : Option ℕ) (vm vm' : Vm) → clock_loop n vm ≡ some (r, vm') → vm'.memory ≡ vm.memory
unfolding clock_loop
clock_loop-memory zero r vm vm' e = ground arith
clock_loop-memory (suc n) r vm vm' e = elim (Option-cases (clock_step vm)) [
  | inl h ↦ ground (arith, h, e)
  | inr ((some i, mid), h) ↦ ground (arith, h, e, clock_step-memory (some i) vm mid h)
  | inr ((none, mid), h) ↦
      clock_loop-memory n r mid vm' (sym (loop_next n vm mid h) ∙ e)
      ∙ clock_step-memory none vm mid h
]

select_victim-memory :
    (r : Option ℕ) (vm vm' : Vm) → select_victim vm ≡ some (r, vm') → vm'.memory ≡ vm.memory
unfolding select_victim
select_victim-memory r vm vm' e = ground (arith, clock_loop-memory (length vm.frames * 2) r vm vm')

reclaim_at-memory :
    (malloc_ok : Bool) (i : ℕ) (r : Option ℕ) (vm vm' : Vm)
    → reclaim_at malloc_ok i vm ≡ some (r, vm')
    → vm'.memory ≡ vm.memory
unfolding reclaim_at
reclaim_at-memory malloc_ok i r vm vm' e = elim (Option-cases (get_elem? vm.frames i)) [
  | inl h ↦ ground (arith, h, e)
  | inr (victim, h) ↦ elim (Option-cases (evict_frame malloc_ok victim vm)) [
    | inl k ↦ ground (arith, h, k, e)
    | inr ((ok, out), k) ↦ ground (arith, h, k, e, evict_frame-memory malloc_ok ok victim vm out k)
  ]
]

reclaim-memory :
    (malloc_ok : Bool) (r : Option ℕ) (vm vm' : Vm)
    → reclaim malloc_ok vm ≡ some (r, vm')
    → vm'.memory ≡ vm.memory
unfolding reclaim
reclaim-memory malloc_ok r vm vm' e = elim (Option-cases (select_victim vm)) [
  | inl h ↦ ground (arith, h, e)
  | inr ((none, mid), h) ↦ ground (arith, h, e, select_victim-memory none vm mid h)
  | inr ((some i, mid), h) ↦
      reclaim_at-memory malloc_ok i r mid vm' (ground (arith, h, e))
      ∙ select_victim-memory (some i) vm mid h
]

-- The memory once `vm_frame_allocate` with `PAL_ZERO` has a page: a page of the allocator is
-- filled with zeroes, and a page that is taken from a victim keeps the victim's content.
abbrev pub obtained_memory : Option ℕ → (ℕ → PageData) → ℕ → PageData
obtained_memory none memory = memory
obtained_memory (some kva) memory = update memory kva (λ k. 0)

-- The memory after a call with the result `r`: without a frame, either there was no page, and
-- nothing has changed, or the page has gone back to the allocator.
abbrev pub Allocated : Option ℕ → Option ℕ → (ℕ → PageData) → (ℕ → PageData) → Type 0
Allocated (some a) page old new = new ≡ obtained_memory page old
Allocated none page old new =
    ((page ≡ none) × (new ≡ old))
    ⊎ ((kva : ℕ) × ((page ≡ none) ⊎ (page ≡ some kva))
        × (new ≡ update (obtained_memory page old) kva freed_page))

new_frame-Allocated :
    (a : Option ℕ) (thread kva : ℕ) (page : Option ℕ) (old : ℕ → PageData) (vm : Vm)
    → (page ≡ none) ⊎ (page ≡ some kva)
    → vm.memory ≡ obtained_memory page old
    → Allocated (new_frame a thread kva vm).0 page old (new_frame a thread kva vm).1.memory
unfolding new_frame
new_frame-Allocated none thread kva page old vm from e =
    inr (kva, from, ap (λ (m : ℕ → PageData). update m kva freed_page) e)
new_frame-Allocated (some a) thread kva page old vm from e = e

-- Where `vm_frame_allocate` with `PAL_ZERO` returns a frame, it has filled the page that the page
-- allocator gave with zeroes and changed no other; where the allocator gave none, it has changed
-- nothing in memory, so that the page of a victim still holds what its last owner wrote. Where it
-- returns no frame without a panic, there was no page and nothing in memory has changed, or it has
-- given the page back to the allocator, which has filled it.
pub vm_frame_allocate-memory :
    (thread : ℕ) (supply : Supply) (vm vm' : Vm) (r : Option ℕ)
    → vm_frame_allocate true thread supply vm ≡ some (r, vm')
    → Allocated r supply.page vm.memory vm'.memory
unfolding vm_frame_allocate obtain
vm_frame_allocate-memory thread supply vm vm' r e = elim (Option-cases supply.page) [
  | inr (kva, h) ↦
      (let grown = record vm { memory = update vm.memory kva (λ k. 0) } in
        let out = new_frame supply.frame thread kva grown in
        let same : out ≡ (r, vm') = ground (arith, h, e) in
        subst (λ (x : Option ℕ × Vm). Allocated x.0 supply.page vm.memory x.1.memory) same
          (new_frame-Allocated supply.frame thread kva supply.page vm.memory grown (inr h)
            (ap (λ page. obtained_memory page vm.memory) (sym h))))
  | inl h ↦ elim (Option-cases (reclaim supply.swap_ok vm)) [
    | inl k ↦ absurd (ground (arith, h, k, e))
    | inr ((none, mid), k) ↦
        (let same : (none, mid) ≡ (r, vm') = ground (arith, h, k, e) in
          subst (λ (x : Option ℕ × Vm). Allocated x.0 supply.page vm.memory x.1.memory) same
            (inl (h, reclaim-memory supply.swap_ok none vm mid k)))
    | inr ((some kva, mid), k) ↦
        (let same : new_frame supply.frame thread kva mid ≡ (r, vm') = ground (arith, h, k, e) in
          subst (λ (x : Option ℕ × Vm). Allocated x.0 supply.page vm.memory x.1.memory) same
            (new_frame-Allocated supply.frame thread kva supply.page vm.memory mid (inl h) (
              reclaim-memory supply.swap_ok (some kva) vm mid k
              ∙ ap (λ page. obtained_memory page vm.memory) (sym h))))
  ]
]
