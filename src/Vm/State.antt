-- ===== src/Vm/State.antt =====
-- The memory that pintos/vm works on: `struct frame` and `struct suppPage` of frame.h and page.h,
-- the page table entries, the frame table with its clock hand, the swap area and physical memory.
--
-- A pointer is a number. A `struct frame` is known by its address `addr`, which differs from the
-- address `kva` of the page that it stands for; a `struct suppPage` is a key of `pages`.
use pintos_lab.Base.{ℕ, Bool, Option, none, some, List, [], ◌∷◌, ◌==◌, if◌then◌else◌}
use pintos_lab.Bitmap.{Bitmap}

-- `enum vm_type`
pub data VmType : Type 0 where
  vm_anon vm_file vm_stack : VmType

-- `struct frame`
pub record Frame : Type 0 where
  pub addr : ℕ
  pub kva : ℕ
  pub page : Option ℕ
  pub owner : ℕ
  pub pinned : Bool

-- `struct file_page`
pub record FilePage : Type 0 where
  pub file : ℕ
  pub ofs : ℕ
  pub read_bytes : ℕ
  pub zero_bytes : ℕ

-- `struct suppPage`. The one `initializer` of the program is `lazy_load_segment`: the field is null
-- or that function with its argument `aux`.
pub record SuppPage : Type 0 where
  pub va : ℕ
  pub kind : VmType
  pub writable : Bool
  pub frame : Option ℕ
  pub in_swap : Bool
  pub swap_slot : ℕ
  pub pinned : Bool
  pub backing : FilePage  -- `file`, `ofs`, `read_bytes` and `zero_bytes`
  pub initializer : Option FilePage

-- A page table entry.
pub record Pte : Type 0 where
  pub present : Bool
  pub kva : ℕ
  pub writable : Bool
  pub accessed : Bool
  pub dirty : Bool

-- `clock_hand`: the end of the list, the element at an index, or an element that has been freed
pub data Hand : Type 0 where
  at_end : Hand
  at : ℕ → Hand
  dangling : Hand

-- The content of a page, sector by sector. A sector whose bytes are all the same is that byte.
abbrev pub PageData : Type 0
PageData = ℕ → ℕ

-- What `palloc_free_page` leaves of a page.
abbrev pub freed_page : PageData
freed_page = λ k. 0xcc

-- The statics of swap.c, and the sectors of the swap device.
pub record Swap : Type 0 where
  pub size : ℕ
  pub in_memory : Bool
  pub available : Bitmap
  pub memory_map : List (Option PageData)
  pub disk : ℕ → ℕ

pub record Vm : Type 0 where
  pub frames : List Frame
  pub hand : Hand
  pub pages : ℕ → SuppPage
  pub ptes : ℕ → ℕ → Option Pte  -- by thread and page address
  pub memory : ℕ → PageData  -- by kernel address
  pub swap : Swap
  pub init_ram_pages : ℕ  -- the size of physical memory, a static of the loader

-- One key of a map.
abbrev pub update {ℓ} : {A : Type ℓ} → (ℕ → A) → ℕ → A → ℕ → A
update f k v j = if k == j then v else f j

abbrev pub set_page : Vm → ℕ → SuppPage → Vm
set_page vm p page = record vm { pages = update vm.pages p page }

-- `page->frame` as a structure: `none` if the pointer is null or its frame is not in the table
unfoldable pub frame_at : List Frame → ℕ → Option Frame
frame_at [] a = none
frame_at (f ∷ fs) a = if f.addr == a then some f else frame_at fs a
