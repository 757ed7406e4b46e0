-- ===== src/Vm/Examples.antt =====
-- A small machine: three frames, of which one is pinned, over pages 10, 11 and 12 of thread 1.
use pintos_lab.Base.{
  ℕ, ◌+◌, ◌*◌, Bool, true, false, Option, none, some, [], ◌∷◌, ◌==◌, if◌then◌else◌,
}
use pintos_lab.Vm.State.{vm_anon, Frame, SuppPage, Pte, at, Swap, Vm}

abbrev pub frame_of : ℕ → Bool → Frame
frame_of n b = record { addr = 100 + n; kva = 200 + n; page = some (10 + n); owner = 1; pinned = b }

abbrev pub page_of : ℕ → SuppPage
page_of p = record {
  va = (1000 + p) * 4096;
  kind = vm_anon;
  writable = true;
  frame = if p == 10 then some 100 else (if p == 11 then some 101 else some 102);
  in_swap = false;
  swap_slot = 0;
  pinned = false;
  backing = record { file = 0; ofs = 0; read_bytes = 0; zero_bytes = 0 };
  initializer = none;
}

abbrev pub mapped : ℕ → ℕ → Option Pte
mapped o va =
    some (record { present = true; kva = 0; writable = true; accessed = true; dirty = false })

-- Slots 1 and 2 of three are free, by the reading of `swap_out`.
abbrev pub half_full : Bool → Swap
half_full m = record {
  size = 3;
  in_memory = m;
  available = record { bit_cnt = 3; bits = 1 ∷ [] };
  memory_map = none ∷ none ∷ none ∷ [];
  disk = λ _. 0;
}

abbrev pub machine : Swap → Vm
machine s = record {
  frames = frame_of 0 true ∷ frame_of 1 false ∷ frame_of 2 false ∷ [];
  hand = at 2;
  pages = page_of;
  init_ram_pages = 1024;
  ptes = mapped;
  memory = λ kva k. kva + k;
  swap = s;
}
