-- ===== src/Vm/Claim/Content.antt =====
-- The content of a page of memory that is claimed: zeroes, or what its slot holds.
use pintos_lab.Base.{
  ℕ, ◌≡◌, refl, ◌∙◌, sym, ap, subst, ◌<◌, ◌⊎◌, true, false, Option, none, some, [], ◌∷◌, ◌++◌,
  arith, inl, inr,
}
use pintos_lab.Bitmap.{bitmap_reset}
use pintos_lab.Vm.State.{
  VmType, vm_anon, vm_stack, FilePage, SuppPage, PageData, Swap, Vm, update, set_page,
}
use pintos_lab.Vm.Frame.{vm_frame_pin}
use pintos_lab.Vm.Pagedir.{is_upage, pagedir_get_page}
use pintos_lab.Vm.Swap.{swap_in, swap_in_from}
use pintos_lab.Vm.Swap.Store.{Holds, swap_in-step}
use pintos_lab.Vm.Evict.{Supply}
use pintos_lab.Vm.Claim.{
  Loader, load_swapped, load_eager, load_content, install, fill, vm_do_claim_page,
}
use pintos_lab.Vm.Claim.Loaded.{
  Gives, owned, grown, attached, attached_page, attach_given, claim_given, IsResident, IsFilled,
  install_filled, ptes_only, pinned_last, unpinned_last,
}

-- A page that no file backs, wanted by its thread.
pub record IsWanted (vm : Vm) (p thread : ℕ) : Type 0 where
  pub unpinned : (vm.pages p).pinned ≡ false
  pub kind : ((vm.pages p).kind ≡ vm_anon) ⊎ ((vm.pages p).kind ≡ vm_stack)
  pub initializer : (vm.pages p).initializer ≡ none
  pub unmapped : pagedir_get_page thread (vm.pages p).va vm ≡ none
  pub upage : is_upage (vm.pages p).va ≡ true

load_memory :
    (loader : Loader) (kind : VmType) (p kva : ℕ) (vm : Vm)
    → (kind ≡ vm_anon) ⊎ (kind ≡ vm_stack)
    → load_eager loader kind p kva vm ≡ load_swapped p kva vm
unfolding load_eager
load_memory loader kind p kva vm (inl e) = rw e
load_memory loader kind p kva vm (inr e) = rw e

load_no_initializer :
    (loader : Loader) (init : Option FilePage) (p kva : ℕ) (vm : Vm)
    → init ≡ none
    → ((vm.pages p).kind ≡ vm_anon) ⊎ ((vm.pages p).kind ≡ vm_stack)
    → load_content loader init p kva vm ≡ load_swapped p kva vm
unfolding load_content
load_no_initializer loader none p kva vm e k = load_memory loader (vm.pages p).kind p kva vm k
load_no_initializer loader (some aux) p kva vm e k = cc

module _ (loader : Loader) (supply : Supply) (vm : Vm) (kva a p thread : ℕ)
    (g : Gives supply vm kva a) (w : IsWanted vm p thread) where
  -- The page once its content is there.
  abbrev Ends : (ℕ → ℕ → Type 0) → Type 0
  Ends At =
      (vm' : Vm) × (vm_do_claim_page loader thread supply (some p) vm ≡ some (true, vm'))
      × IsResident vm' p a kva thread (vm.pages p).va
      × ((vm'.pages p).in_swap ≡ false)
      × ((k : ℕ) → k < 8 → At k (vm'.memory kva k))

  abbrev ready : Vm
  ready = attached vm p a kva thread

  ready_page : ready.pages p ≡ record (vm.pages p) { frame = some a; pinned = true }
  ready_page = attached_page vm p a kva thread

  load_ready :
      load_content loader (ready.pages p).initializer p kva ready ≡ load_swapped p kva ready
  load_ready =
      load_no_initializer loader (ready.pages p).initializer p kva ready
        (ap (λ (x : SuppPage). x.initializer) ready_page ∙ w.initializer)
        (subst (λ (x : SuppPage). (x.kind ≡ vm_anon) ⊎ (x.kind ≡ vm_stack)) (sym ready_page) w.kind)

  fill-ready :
      (loaded : Vm)
      → load_swapped p kva ready ≡ (true, loaded)
      → fill loader p a kva thread true (grown vm a kva thread) ≡ install p kva thread true loaded
  unfolding fill
  fill-ready loaded e = rw (attach_given supply vm kva a p thread g) (rw load_ready (rw e))

  ready-IsFilled : IsFilled ready p a kva thread vm.frames true
  ready-IsFilled = record {
    frames = refl;
    new_addr = g.new_addr;
    new_kva = g.new_kva;
    kva_ne_0 = g.kva_ne_0;
    frame = ground arith;
    upage = ap (λ (x : SuppPage). is_upage x.va) ready_page ∙ w.upage;
    kpage = g.kpage;
    unmapped =
        ptes_only thread (ready.pages p).va vm ready refl
        ∙ ap (λ (x : SuppPage). pagedir_get_page thread x.va vm) ready_page
        ∙ w.unmapped;
  }

  not_swapped : (ready.pages p).in_swap ≡ false → load_swapped p kva ready ≡ (true, ready)
  unfolding load_swapped
  not_swapped h = rw h

  -- The page at hand, filled with zeroes.
  pub claim_zero : (vm.pages p).in_swap ≡ false → Ends (λ k v. v ≡ 0)
  claim_zero h =
      let out : (ready.pages p).in_swap ≡ false = ap (λ (x : SuppPage). x.in_swap) ready_page ∙ h in
      let (vm', e, res, mem, sw) =
        install_filled ready p a kva thread vm.frames true ready-IsFilled in
      (
        vm',
        claim_given loader supply vm kva a p thread g w.unpinned
            ∙ fill-ready ready (not_swapped out)
            ∙ e,
        subst (λ (x : SuppPage). IsResident vm' p a kva thread x.va) ready_page res,
        sw ∙ out,
        λ k l. ap (λ (m : ℕ → PageData). m kva k) mem ∙ ground arith,
      )

  -- The state after `swap_in` of a content.
  abbrev brought_in : ℕ → PageData → Swap → Vm
  brought_in slot got swap =
      let moved : Vm = record ready {
        memory = update ready.memory kva got;
        swap = record swap { available = bitmap_reset swap.available slot };
        frames = vm.frames ++ (owned a kva p thread false ∷ []);
      } in
      set_page moved p (record (ready.pages p) { in_swap = false })

  abbrev settled : ℕ → PageData → Swap → Vm
  settled slot got swap =
      let vm' = brought_in slot got swap in
      set_page vm' p (record (vm'.pages p) { in_swap = false })

  swap_in_from-ready :
      (slot : ℕ) (got : PageData) (swap : Swap)
      → swap_in_from p kva slot got swap (vm_frame_pin kva ready) ≡ brought_in slot got swap
  unfolding swap_in_from
  swap_in_from-ready slot got swap =
      let last = owned a kva p thread true in
      let pin = pinned_last ready kva vm.frames last refl refl g.new_kva g.kva_ne_0 in
      let moved : Vm = record ready { memory = update ready.memory kva got; swap = swap } in
      let unpin = unpinned_last moved kva vm.frames last refl refl g.new_kva g.kva_ne_0 in
      rw pin (rw unpin)

  load_from_slot :
      (vm' : Vm)
      → (ready.pages p).in_swap ≡ true
      → swap_in p kva ready ≡ (true, vm')
      → load_swapped p kva ready ≡ (true, set_page vm' p (record (vm'.pages p) { in_swap = false }))
  unfolding load_swapped
  load_from_slot vm' h e = rw h (rw e)

  settled_page :
      (slot : ℕ) (got : PageData) (swap : Swap)
      → (settled slot got swap).pages p
        ≡ record (vm.pages p) { frame = some a; pinned = true; in_swap = false }
  settled_page slot got swap = ground arith

  settled-IsFilled :
      (slot : ℕ) (got : PageData) (swap : Swap)
      → IsFilled (settled slot got swap) p a kva thread vm.frames false
  settled-IsFilled slot got swap = record {
    frames = refl;
    new_addr = g.new_addr;
    new_kva = g.new_kva;
    kva_ne_0 = g.kva_ne_0;
    frame = ap (λ (x : SuppPage). x.frame) (settled_page slot got swap);
    upage = ap (λ (x : SuppPage). is_upage x.va) (settled_page slot got swap) ∙ w.upage;
    kpage = g.kpage;
    unmapped =
        ptes_only thread ((settled slot got swap).pages p).va vm (settled slot got swap) refl
        ∙ ap (λ (x : SuppPage). pagedir_get_page thread x.va vm) (settled_page slot got swap)
        ∙ w.unmapped;
  }

  -- The content of its slot.
  pub claim_swapped :
      (slot : ℕ) (content : PageData)
      → (vm.pages p).in_swap ≡ true
      → (vm.pages p).swap_slot ≡ slot
      → slot < vm.swap.size
      → Holds vm.swap slot content
      → Ends (λ k v. v ≡ content k)
  unfolding Holds
  claim_swapped slot content h q l hold =
      let (got, swap, e, v, c) = hold (ready.memory kva) in
      let stays = ap (λ (x : SuppPage). x.in_swap) ready_page ∙ h in
      let at_slot = ap (λ (x : SuppPage). x.swap_slot) ready_page ∙ q in
      let brought =
        swap_in-step p kva slot ready got swap stays at_slot l e
        ∙ ap (λ (x : Vm). (true, x)) (swap_in_from-ready slot got swap) in
      let (vm', i, res, mem, sw) =
        install_filled (settled slot got swap) p a kva thread vm.frames false
          (settled-IsFilled slot got swap) in
      (
        vm',
        claim_given loader supply vm kva a p thread g w.unpinned
            ∙ fill-ready (settled slot got swap)
                (load_from_slot (brought_in slot got swap) stays brought)
            ∙ i,
        subst (λ (x : SuppPage). IsResident vm' p a kva thread x.va) (settled_page slot got swap)
            res,
        sw ∙ ap (λ (x : SuppPage). x.in_swap) (settled_page slot got swap),
        λ k r. ap (λ (m : ℕ → PageData). m kva k) mem ∙ ground (arith, c k r),
      )
