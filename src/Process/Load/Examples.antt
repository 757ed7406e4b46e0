-- ===== src/Process/Load/Examples.antt =====
-- A segment of two pages whose second one is partly read from the file.
use pintos_lab.Base.{ℕ, ◌≡◌, refl, Bool, true, ◌&&◌, some, List, [], ◌∷◌, leb, arith}
use pintos_lab.Process.Fault.{is_user_vaddr}
use pintos_lab.Process.Load.{
  Phdr, validate_segment, read_bytes, zero_bytes, segment_loop, load_segment, load_phdr,
}
use pintos_lab.Process.Load.Pages.{IsUserPage, Keeps, load_phdr-Keeps}

-- A table of pages: the addresses installed. None is mapped to memory yet.
abbrev no_page : ℕ → List ℕ → Bool
no_page upage pages = true

abbrev note : ℕ → ℕ → ℕ → ℕ → List ℕ → Bool × List ℕ
note upage ofs read blank pages = (true, upage ∷ pages)

in_user : List ℕ → Bool
in_user [] = true
in_user (upage ∷ pages) = is_user_vaddr upage && leb 4096 upage && in_user pages

abbrev AreInUser : List ℕ → Type 0
AreInUser pages = in_user pages ≡ true

note-keeps :
    (upage ofs read blank : ℕ) (pages : List ℕ)
    → IsUserPage upage read blank
    → AreInUser pages
    → AreInUser (note upage ofs read blank pages).1
unfolding in_user
note-keeps upage ofs read blank pages p h = ground (arith, p.above, p.below, h)

abbrev text : Phdr
text = record { p_offset = 0x1020; p_vaddr = 0x8048020; p_filesz = 5000; p_memsz = 6000 }

two_pages : load_phdr no_page note text 20000 [] ≡ some (true, 0x8049000 ∷ 0x8048000 ∷ [])
unfolding load_phdr load_segment segment_loop validate_segment read_bytes zero_bytes
two_pages = refl

empty-AreInUser : AreInUser []
unfolding in_user
empty-AreInUser = refl

load_phdr-Keeps_example :
    Keeps no_page note AreInUser (λ u s i. refl) note-keeps (load_phdr no_page note text 20000 [])
load_phdr-Keeps_example =
    load_phdr-Keeps no_page note AreInUser (λ u s i. refl) note-keeps text 20000 [] (omega arith)
      (omega arith) empty-AreInUser
