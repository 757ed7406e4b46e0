-- ===== src/Vm/Claim/Loaded.antt =====
-- A page that is claimed with a page of memory at hand.
use pintos_lab.Base.{
  ℕ, ◌≡◌, refl, ◌∙◌, sym, ap, subst, ◌≢◌, Bool, true, false, none, some, List, [], ◌∷◌, ◌++◌, arith,
}
use pintos_lab.Vm.State.{Frame, SuppPage, Vm, update, set_page, frame_at}
use pintos_lab.Vm.Frame.{vm_frame_pin, vm_frame_unpin, find_kva}
use pintos_lab.Vm.Pagedir.{is_upage, is_kpage, pagedir_get_page}
use pintos_lab.Vm.Evict.{Supply, obtain, new_frame, vm_frame_allocate}
use pintos_lab.Vm.Evict.Frames.{frame_at-append, set_owner-append, set_pinned-append}
use pintos_lab.Vm.Claim.{Loader, clear_dirty, install, attach, fill, vm_do_claim_page}
use pintos_lab.Vm.Claim.Mapping.{IsMapped, set_page_unmapped, clear_dirty-IsMapped}

-- The allocators give the page `kva` and the frame `a`, which are in no use, and a page table;
-- the page is one of memory.
pub record Gives (supply : Supply) (vm : Vm) (kva a : ℕ) : Type 0 where
  pub page : supply.page ≡ some kva
  pub frame : supply.frame ≡ some a
  pub table_ok : supply.table_ok ≡ true
  pub kva_ne_0 : kva ≢ 0
  pub new_addr : frame_at vm.frames a ≡ none
  pub new_kva : find_kva vm.frames kva ≡ none
  pub kpage : is_kpage kva vm.init_ram_pages ≡ true

-- A frame of page `p` of a thread.
abbrev pub owned : ℕ → ℕ → ℕ → ℕ → Bool → Frame
owned a kva p thread b = record { addr = a; kva = kva; page = some p; owner = thread; pinned = b }

abbrev pub grown : Vm → ℕ → ℕ → ℕ → Vm
grown vm a kva thread = record vm {
  memory = update vm.memory kva (λ k. 0);
  frames =
      vm.frames
      ++ (record { addr = a; kva = kva; page = none; owner = thread; pinned = false } ∷ []);
}

abbrev pub attached_pages : Vm → ℕ → ℕ → ℕ → SuppPage
attached_pages vm p a =
    let with_frame = update vm.pages p (record (vm.pages p) { frame = some a }) in
    update with_frame p (record (with_frame p) { pinned = true })

-- The state in which the content is loaded.
abbrev pub attached : Vm → ℕ → ℕ → ℕ → ℕ → Vm
attached vm p a kva thread = record vm {
  memory = update vm.memory kva (λ k. 0);
  frames = vm.frames ++ (owned a kva p thread true ∷ []);
  pages = attached_pages vm p a;
}

allocate_given :
    (supply : Supply) (vm : Vm) (kva a thread : ℕ)
    → Gives supply vm kva a
    → vm_frame_allocate true thread supply vm ≡ some (some a, grown vm a kva thread)
unfolding vm_frame_allocate obtain new_frame
allocate_given supply vm kva a thread g = ground (arith, g.page, g.frame)

pub pinned_last :
    (vm : Vm) (kva : ℕ) (fs : List Frame) (f : Frame)
    → vm.frames ≡ fs ++ (f ∷ [])
    → f.kva ≡ kva
    → find_kva fs kva ≡ none
    → kva ≢ 0
    → vm_frame_pin kva vm ≡ record vm { frames = fs ++ (record f { pinned = true } ∷ []) }
unfolding vm_frame_pin
pinned_last vm kva fs f e k n z = ground (arith, e, k, n, set_pinned-append true fs f)

pub unpinned_last :
    (vm : Vm) (kva : ℕ) (fs : List Frame) (f : Frame)
    → vm.frames ≡ fs ++ (f ∷ [])
    → f.kva ≡ kva
    → find_kva fs kva ≡ none
    → kva ≢ 0
    → vm_frame_unpin kva vm ≡ record vm { frames = fs ++ (record f { pinned = false } ∷ []) }
unfolding vm_frame_unpin
unpinned_last vm kva fs f e k n z = ground (arith, e, k, n, set_pinned-append false fs f)

pub attach_given :
    (supply : Supply) (vm : Vm) (kva a p thread : ℕ)
    → Gives supply vm kva a
    → attach p a kva thread (grown vm a kva thread) ≡ attached vm p a kva thread
unfolding attach
attach_given supply vm kva a p thread g =
    let last : Frame = record {
      addr = a;
      kva = kva;
      page = none;
      owner = thread;
      pinned = false;
    } in
    let owner = set_owner-append vm.frames last p thread g.new_addr in
    let new : Vm = record (grown vm a kva thread) {
      frames = vm.frames ++ (owned a kva p thread false ∷ []);
      pages = update vm.pages p (record (vm.pages p) { frame = some a });
    } in
    let pin =
      pinned_last new kva vm.frames (owned a kva p thread false) refl refl g.new_kva g.kva_ne_0 in
    rw owner (rw pin)

pub attached_page :
    (vm : Vm) (p a kva thread : ℕ)
    → (attached vm p a kva thread).pages p ≡ record (vm.pages p) { frame = some a; pinned = true }
attached_page vm p a kva thread = ground arith

-- How a claim of a page that is not pinned goes on.
pub claim_given :
    (loader : Loader) (supply : Supply) (vm : Vm) (kva a p thread : ℕ)
    → Gives supply vm kva a
    → (vm.pages p).pinned ≡ false
    → vm_do_claim_page loader thread supply (some p) vm
      ≡ fill loader p a kva thread true (grown vm a kva thread)
unfolding vm_do_claim_page
claim_given loader supply vm kva a p thread g h =
    let last : Frame = record {
      addr = a;
      kva = kva;
      page = none;
      owner = thread;
      pinned = false;
    } in
    let found = frame_at-append vm.frames last g.new_addr in
    rw (h, allocate_given supply vm kva a thread g, found, g.table_ok)

pub ptes_only :
    (thread va : ℕ) (old new : Vm)
    → new.ptes ≡ old.ptes
    → pagedir_get_page thread va new ≡ pagedir_get_page thread va old
unfolding pagedir_get_page
ptes_only thread va old new q = ground (arith, q)

-- Page `p` is in the frame `a`, which is its own and is not pinned, and mapped to its memory.
pub record IsResident (vm : Vm) (p a kva thread va : ℕ) : Type 0 where
  pub frame : (vm.pages p).frame ≡ some a
  pub unpinned : (vm.pages p).pinned ≡ false
  pub mapped : pagedir_get_page thread va vm ≡ some kva
  pub in_table : frame_at vm.frames a ≡ some (owned a kva p thread false)

-- The page's content is there, in the last frame of the table.
pub record IsFilled (vm : Vm) (p a kva thread : ℕ) (fs : List Frame) (b : Bool) : Type 0 where
  pub frames : vm.frames ≡ fs ++ (owned a kva p thread b ∷ [])
  pub new_addr : frame_at fs a ≡ none
  pub new_kva : find_kva fs kva ≡ none
  pub kva_ne_0 : kva ≢ 0
  pub frame : (vm.pages p).frame ≡ some a
  pub unmapped : pagedir_get_page thread (vm.pages p).va vm ≡ none
  pub upage : is_upage (vm.pages p).va ≡ true
  pub kpage : is_kpage kva vm.init_ram_pages ≡ true

pub install_filled :
    (vm : Vm) (p a kva thread : ℕ) (fs : List Frame) (b : Bool)
    → IsFilled vm p a kva thread fs b
    → (vm' : Vm) × (install p kva thread true vm ≡ some (true, vm'))
      × IsResident vm' p a kva thread (vm.pages p).va
      × (vm'.memory ≡ vm.memory)
      × ((vm'.pages p).in_swap ≡ (vm.pages p).in_swap)
unfolding install
install_filled vm p a kva thread fs b f =
    let (set, e, m) =
      set_page_unmapped thread (vm.pages p).va kva (vm.pages p).writable vm f.upage f.kpage
        f.unmapped in
    let cleared : Vm = clear_dirty (set.pages p).kind thread (set.pages p).va set in
    let c : IsMapped vm thread (vm.pages p).va kva cleared =
      subst
        (λ v. IsMapped vm thread (vm.pages p).va kva (clear_dirty (set.pages p).kind thread v set))
        (sym (ap (λ (g : ℕ → SuppPage). (g p).va) m.pages))
        (clear_dirty-IsMapped (set.pages p).kind thread (vm.pages p).va kva vm set m) in
    let unpin =
      unpinned_last cleared kva fs (owned a kva p thread b) (c.frames ∙ f.frames) refl f.new_kva
        f.kva_ne_0 in
    let unpinned : Vm = record cleared { frames = fs ++ (owned a kva p thread false ∷ []) } in
    let done : Vm = set_page unpinned p (record (unpinned.pages p) { pinned = false }) in
    let page = ap (λ (g : ℕ → SuppPage). g p) c.pages in
    (
      done,
      rw e (rw unpin),
      record {
        frame = ground (arith, page, f.frame);
        unpinned = ground arith;
        mapped = ptes_only thread (vm.pages p).va cleared done refl ∙ c.mapped;
        in_table = frame_at-append fs (owned a kva p thread false) f.new_addr;
      },
      c.memory,
      ground (arith, page),
    )
