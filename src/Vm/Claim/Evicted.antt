-- ===== src/Vm/Claim/Evicted.antt =====
-- A page that is evicted and claimed again.
use pintos_lab.Base.{
  ℕ, ◌≡◌, refl, ◌∙◌, sym, ap, subst, ◌<◌, ◌⊎◌, Bool, true, false, none, some, List, if◌then◌else◌,
  arith, inl, inr, Option-cases,
}
use pintos_lab.Vm.State.{
  VmType, vm_anon, vm_stack, Frame, SuppPage, PageData, Vm, set_page, frame_at,
}
use pintos_lab.Vm.Pagedir.{is_upage, pagedir_get_page, clear_entry, pagedir_clear_page}
use pintos_lab.Vm.Swap.{swap_out}
use pintos_lab.Vm.Swap.Store.{Holds}
use pintos_lab.Vm.Swap.RoundTrip.{IsUsable, Outcome, swap_out-Outcome}
use pintos_lab.Vm.Evict.{Supply, write_out, evict_frame}
use pintos_lab.Vm.Claim.{Loader, vm_do_claim_page}
use pintos_lab.Vm.Claim.Loaded.{Gives, IsResident, ptes_only}
use pintos_lab.Vm.Claim.Content.{IsWanted, claim_swapped}

cleared-unmapped :
    (owner va : ℕ) (vm : Vm) → pagedir_get_page owner va (clear_entry owner va vm) ≡ none
unfolding pagedir_get_page clear_entry
cleared-unmapped owner va vm = elim (Option-cases (vm.ptes owner va)) [
  | inl e ↦ ground (arith, e)
  | inr (pte, e) ↦ ground (arith, e)
]

write_out_swaps :
    (kind : VmType) (malloc_ok : Bool) (p : ℕ) (vm : Vm)
    → (kind ≡ vm_anon) ⊎ (kind ≡ vm_stack)
    → write_out kind malloc_ok p vm ≡ swap_out malloc_ok (some p) vm
unfolding write_out
write_out_swaps kind malloc_ok p vm (inl e) = rw e
write_out_swaps kind malloc_ok p vm (inr e) = rw e

-- A page of memory or of the stack that has no initializer, at the address of a user page, in a
-- frame of the table that knows it.
pub record IsHeld (vm : Vm) (p a : ℕ) (fr : Frame) : Type 0 where
  pub frame : (vm.pages p).frame ≡ some a
  pub in_table : frame_at vm.frames a ≡ some fr
  pub page : fr.page ≡ some p
  pub kind : ((vm.pages p).kind ≡ vm_anon) ⊎ ((vm.pages p).kind ≡ vm_stack)
  pub unpinned : (vm.pages p).pinned ≡ false
  pub initializer : (vm.pages p).initializer ≡ none
  pub upage : is_upage (vm.pages p).va ≡ true

-- What an eviction makes of the page.
record IsEvicted (vm : Vm) (p : ℕ) (fr : Frame) (vm' : Vm) : Type 0 where
  slot : ℕ
  in_area : slot < vm'.swap.size
  holds : Holds vm'.swap slot (vm.memory fr.kva)
  page : vm'.pages p ≡ record (vm.pages p) { in_swap = true; swap_slot = slot; frame = none }
  unmapped : pagedir_get_page fr.owner (vm.pages p).va vm' ≡ none

module _ (vm : Vm) (p a : ℕ) (fr : Frame) (usable : IsUsable vm.swap)
    (held : IsHeld vm p a fr) where
  abbrev cleared : Vm
  cleared = clear_entry fr.owner (vm.pages p).va vm

  cleared_rest :
      (cleared.swap ≡ vm.swap) × (cleared.pages ≡ vm.pages) × (cleared.memory ≡ vm.memory)
  unfolding clear_entry
  cleared_rest = (refl, refl, refl)

  cleared-Outcome : Outcome cleared p fr
  unfolding clear_entry
  cleared-Outcome = swap_out-Outcome cleared p a fr usable held.frame held.in_table

  evict_swaps :
      (ok : Bool) (out : Vm)
      → swap_out true (some p) cleared ≡ some (ok, out)
      → evict_frame true fr vm
        ≡ some (ok, (if ok then set_page out p (record (out.pages p) { frame = none }) else out))
  unfolding evict_frame pagedir_clear_page
  evict_swaps ok out e =
      rw (held.page, held.upage)
        (rw (write_out_swaps (vm.pages p).kind true p cleared held.kind) (rw e))

  evicted : (vm' : Vm) → evict_frame true fr vm ≡ some (true, vm') → IsEvicted vm p fr vm'
  unfolding Outcome
  evicted vm' e = elim cleared-Outcome [
    | inl (f, full) ↦ absurd (ground (arith, evict_swaps false cleared f, e))
    | inr (slot, b, out, f, lt, wr, all, s) ↦
        let done : Vm = set_page out p (record (out.pages p) { frame = none }) in
        let same : done ≡ vm' = ground (arith, evict_swaps true out f, e) in
        subst (λ v. IsEvicted vm p fr v) same
          (record {
            slot = slot;
            in_area = omega (arith, s.size);
            holds =
                subst (λ (m : ℕ → PageData). Holds out.swap slot (m fr.kva)) cleared_rest.2 s.holds;
            page = ground (arith, s.page, ap (λ (g : ℕ → SuppPage). g p) cleared_rest.1);
            unmapped =
                ptes_only fr.owner (vm.pages p).va cleared done s.ptes
                ∙ cleared-unmapped fr.owner (vm.pages p).va vm;
          })
  ]

  -- A page of memory or of the stack without an initializer, at the aligned address of a user
  -- page, in a frame and not pinned, with a usable swap area and memory to spare: where
  -- `evict_frame` of its frame succeeds, then whatever memory and the frame table become, a claim
  -- of the page by the frame's owner that gets a page and a frame in no use, and room for a page
  -- table, succeeds, and the page is back in memory, mapped to the new page, not pinned, with all
  -- eight sectors of its content.
  pub evict-claim :
      (loader : Loader) (supply : Supply) (vm' : Vm) (kva a' : ℕ) (memory : ℕ → PageData)
      (frames : List Frame)
      → evict_frame true fr vm ≡ some (true, vm')
      → Gives supply (record vm' { memory = memory; frames = frames }) kva a'
      → (vm'' : Vm) × (vm_do_claim_page loader fr.owner supply
            (some p)
            (record vm' { memory = memory; frames = frames })
          ≡ some (true, vm''))
        × IsResident vm'' p a' kva fr.owner (vm.pages p).va
        × ((vm''.pages p).in_swap ≡ false)
        × ((k : ℕ) → k < 8 → vm''.memory kva k ≡ vm.memory fr.kva k)
  evict-claim loader supply vm' kva a' memory frames e gives =
      let out = evicted vm' e in
      let later : Vm = record vm' { memory = memory; frames = frames } in
      let wanted : IsWanted later p fr.owner = record {
        unpinned = ap (λ (x : SuppPage). x.pinned) out.page ∙ held.unpinned;
        kind =
            subst (λ (x : SuppPage). (x.kind ≡ vm_anon) ⊎ (x.kind ≡ vm_stack)) (sym out.page)
              held.kind;
        initializer = ap (λ (x : SuppPage). x.initializer) out.page ∙ held.initializer;
        unmapped =
            ptes_only fr.owner (later.pages p).va vm' later refl
            ∙ ap (λ (x : SuppPage). pagedir_get_page fr.owner x.va vm') out.page
            ∙ out.unmapped;
        upage = ap (λ (x : SuppPage). is_upage x.va) out.page ∙ held.upage;
      } in
      let (vm'', c, res, sw, content) =
        claim_swapped loader supply later kva a' p fr.owner gives wanted out.slot (vm.memory fr.kva)
          (ap (λ (x : SuppPage). x.in_swap) out.page) (ap (λ (x : SuppPage). x.swap_slot) out.page)
          out.in_area out.holds in
      (
        vm'',
        c,
        subst (λ (x : SuppPage). IsResident vm'' p a' kva fr.owner x.va) out.page res,
        sw,
        content,
      )
