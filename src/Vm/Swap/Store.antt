-- ===== src/Vm/Swap/Store.antt =====
-- What `swap_out` leaves in a slot, and what `swap_in` makes of it.
use pintos_lab.Base.{
  ℕ, ◌<◌, ◌≡◌, refl, ◌∙◌, true, false, none, some, arith, length, set, get_or-set_self, inl, inr,
  Bool-cases, ap, subst, sym,
}
use pintos_lab.Bitmap.{bitmap_reset}
use pintos_lab.Vm.State.{PageData, Swap, Vm, update, set_page}
use pintos_lab.Vm.Frame.{vm_frame_pin, vm_frame_unpin}
use pintos_lab.Vm.Swap.{
  write_sectors, read_sectors, store_slot, swap_out_to, load_slot, swap_in_from, swap_in,
}
use pintos_lab.Vm.Swap.Slots.{read-write}

-- The content of the slot, as `load_slot` reads it over `old`.
unfoldable pub Holds : Swap → ℕ → PageData → Type 0
Holds s slot content =
    (old : PageData)
    → (got : PageData) × (s' : Swap) × (load_slot slot old s ≡ some (got, s'))
      × (s'.available ≡ s.available)
      × ((k : ℕ) → k < 8 → got k ≡ content k)

pub store_slot-Holds :
    (slot : ℕ) (content : PageData) (s : Swap)
    → (s.in_memory ≡ true → slot < length s.memory_map)
    → (s' : Swap) × (store_slot true slot content s ≡ (true, s'))
      × (s'.size ≡ s.size)
      × (s'.available ≡ s.available)
      × Holds s' slot content
unfolding store_slot load_slot Holds
store_slot-Holds slot content s h = elim (Bool-cases s.in_memory) [
  | inl m ↦ (
    record s { memory_map = set s.memory_map slot (some content) },
    ground arith,
    refl,
    refl,
    λ old. (
      content,
      record s { memory_map = set (set s.memory_map slot (some content)) slot none },
      ground (arith, get_or-set_self s.memory_map slot (some content) none (h m)),
      refl,
      λ k p. refl,
    ),
  )
  | inr d ↦ (
    record s { disk = write_sectors 8 slot 0 content s.disk },
    ground arith,
    refl,
    refl,
    λ old. (
      read_sectors 8 slot 0 (write_sectors 8 slot 0 content s.disk) old,
      record s { disk = write_sectors 8 slot 0 content s.disk },
      ground arith,
      refl,
      λ k p. read-write slot s.disk content old k p,
    ),
  )
]

-- Pinning and unpinning touch the frame table alone.
abbrev pub OnlyFrames : Vm → Vm → Type 0
OnlyFrames vm vm' = (vm'.swap ≡ vm.swap) × (vm'.pages ≡ vm.pages) × (vm'.memory ≡ vm.memory)

pin-OnlyFrames : (kva : ℕ) (vm : Vm) → OnlyFrames vm (vm_frame_pin kva vm)
unfolding vm_frame_pin
pin-OnlyFrames kva vm = ground arith

unpin-OnlyFrames : (kva : ℕ) (vm : Vm) → OnlyFrames vm (vm_frame_unpin kva vm)
unfolding vm_frame_unpin
unpin-OnlyFrames kva vm = ground arith

pin_ptes : (kva : ℕ) (vm : Vm) → (vm_frame_pin kva vm).ptes ≡ vm.ptes
unfolding vm_frame_pin
pin_ptes kva vm = ground arith

unpin_ptes : (kva : ℕ) (vm : Vm) → (vm_frame_unpin kva vm).ptes ≡ vm.ptes
unfolding vm_frame_unpin
unpin_ptes kva vm = ground arith

-- What a successful `swap_out` leaves: the page says where it is, and its slot holds the content.
pub record IsSwappedOut (vm : Vm) (p slot : ℕ) (content : PageData) (vm' : Vm) : Type 0 where
  pub in_swap : (vm'.pages p).in_swap ≡ true
  pub at_slot : (vm'.pages p).swap_slot ≡ slot
  pub size : vm'.swap.size ≡ vm.swap.size
  pub available : vm'.swap.available ≡ vm.swap.available
  pub holds : Holds vm'.swap slot content
  pub page : vm'.pages p ≡ record (vm.pages p) { in_swap = true; swap_slot = slot }
  pub ptes : vm'.ptes ≡ vm.ptes

pub swap_out_to-IsSwappedOut :
    (p kva slot : ℕ) (vm : Vm)
    → (vm.swap.in_memory ≡ true → slot < length vm.swap.memory_map)
    → (vm' : Vm) × (swap_out_to true p kva slot vm ≡ (true, vm'))
      × IsSwappedOut vm p slot (vm.memory kva) vm'
unfolding swap_out_to Holds
swap_out_to-IsSwappedOut p kva slot vm h =
    let (s, e, z, v, hold) = store_slot-Holds slot (vm.memory kva) vm.swap h in
    let unpinned = vm_frame_unpin kva (record (vm_frame_pin kva vm) { swap = s }) in
    let (k, l, m) = unpin-OnlyFrames kva (record (vm_frame_pin kva vm) { swap = s }) in
    (
      set_page unpinned p (record (vm.pages p) { in_swap = true; swap_slot = slot }),
      ground (arith, e),
      record {
        in_swap = ground arith;
        at_slot = ground arith;
        size = ap (λ (x : Swap). x.size) k ∙ z;
        available = ap (λ (x : Swap). x.available) k ∙ v;
        holds = subst (λ x. Holds x slot (vm.memory kva)) (sym k) hold;
        page = ground arith;
        ptes = unpin_ptes kva (record (vm_frame_pin kva vm) { swap = s }) ∙ pin_ptes kva vm;
      },
    )

swap_in_from-facts :
    (p kva slot : ℕ) (content : PageData) (s : Swap) (vm : Vm)
    → let vm' = swap_in_from p kva slot content s vm in
      (vm'.memory kva ≡ content)
      × ((vm'.pages p).in_swap ≡ false)
      × (vm'.swap.available ≡ bitmap_reset s.available slot)
unfolding swap_in_from
swap_in_from-facts p kva slot content s vm =
    let (k, l, m) =
      unpin-OnlyFrames kva (record vm { memory = update vm.memory kva content; swap = s }) in
    (ap (λ (f : ℕ → PageData). f kva) m ∙ ground arith, ground arith, refl)

pub swap_in-step :
    (p kva slot : ℕ) (vm : Vm) (got : PageData) (s : Swap)
    → (vm.pages p).in_swap ≡ true
    → (vm.pages p).swap_slot ≡ slot
    → slot < vm.swap.size
    → load_slot slot (vm.memory kva) vm.swap ≡ some (got, s)
    → swap_in p kva vm ≡ (true, swap_in_from p kva slot got s (vm_frame_pin kva vm))
unfolding swap_in
swap_in-step p kva slot vm got s h q l e = ground (arith, e, q)

-- `swap_in` of a page whose slot holds a content.
pub swap_in-Holds :
    (p kva slot : ℕ) (content : PageData) (vm : Vm)
    → (vm.pages p).in_swap ≡ true
    → (vm.pages p).swap_slot ≡ slot
    → slot < vm.swap.size
    → Holds vm.swap slot content
    → (vm' : Vm) × (swap_in p kva vm ≡ (true, vm'))
      × ((k : ℕ) → k < 8 → vm'.memory kva k ≡ content k)
      × ((vm'.pages p).in_swap ≡ false)
      × (vm'.swap.available ≡ bitmap_reset vm.swap.available slot)
unfolding Holds
swap_in-Holds p kva slot content vm h q l hold =
    let (got, s, e, v, c) = hold (vm.memory kva) in
    let (m, f, a) = swap_in_from-facts p kva slot got s (vm_frame_pin kva vm) in
    (
      swap_in_from p kva slot got s (vm_frame_pin kva vm),
      swap_in-step p kva slot vm got s h q l e,
      λ k r. ap (λ (g : PageData). g k) m ∙ c k r,
      f,
      a ∙ ap (λ b. bitmap_reset b slot) v,
    )
