-- ===== src/Vm/Swap/Polarity.antt =====
-- The two readings of `swap_available`: `vm_swap_init` and `vm_swap_free` take a true bit for a
-- free slot, `swap_out` and `swap_in` a false one.
use pintos_lab.Base.{
  ℕ, ◌-◌, ◌/◌, ◌^◌, ◌≤◌, ◌<◌, ◌≡◌, refl, Bool, true, false, Option, none, some, List, [], arith,
  length, inl, inr, subst, replicate,
}
use pintos_lab.Bitmap.{
  Bitmap, elem_cnt, bitmap_error, bitmap_create, bitmap_set_all, bitmap_scan_and_flip,
}
use pintos_lab.Bitmap.View.{IsValid, value_at}
use pintos_lab.Bitmap.Update.{create_lem, set_all-IsWritten}
use pintos_lab.Bitmap.Scan.{scan_and_flip-FlipsFirst}
use pintos_lab.Vm.State.{Swap, Vm}
use pintos_lab.Vm.Swap.{vm_swap_init, default_swap_size, swap_out}

-- Every bit of the map is true.
pub record AllTrue (b : Bitmap) : Type 0 where
  pub valid : IsValid b
  pub bits : (j : ℕ) → j < b.bit_cnt → value_at b j ≡ true

-- The number of slots that `vm_swap_init` sets up.
abbrev pub slots : Option ℕ → ℕ
slots none = default_swap_size
slots (some block_size) = block_size / 8

filled :
    (bits : List ℕ) (n : ℕ)
    → length bits ≡ elem_cnt n
    → n ≤ 2 ^ 32 - 32
    → (b b' : Bitmap) × (bitmap_create true (some bits) n ≡ some (some b))
      × (bitmap_set_all b true ≡ some b')
      × AllTrue b'
filled bits n h k =
    let (b, e, c, v, z) = create_lem bits n h k in
    let (b', e', w) = set_all-IsWritten b true v in
    (b, b', e, e', record { valid = w.valid; bits = λ j p. ground (arith, w.same_cnt, w.values j) })

-- The statics that `vm_swap_init` leaves.
abbrev fresh : Option ℕ → Bitmap → (ℕ → ℕ) → Swap
fresh none b disk = record {
  size = default_swap_size;
  in_memory = true;
  available = b;
  memory_map = replicate default_swap_size none;
  disk = disk;
}
fresh (some n) b disk = record {
  size = n / 8;
  in_memory = false;
  available = b;
  memory_map = [];
  disk = disk;
}

-- Given blocks of memory of the sizes asked for, and at most 2 ^ 32 - 32 slots, `vm_swap_init`
-- succeeds and leaves every bit of `swap_available` true.
pub init-AllTrue :
    (device : Option ℕ) (bits : List ℕ) (disk : ℕ → ℕ)
    → length bits ≡ elem_cnt (slots device)
    → slots device ≤ 2 ^ 32 - 32
    → (s : Swap) × (vm_swap_init device true true (some bits) disk ≡ some s) × AllTrue s.available
unfolding vm_swap_init
init-AllTrue none bits disk h k =
    let (b, b', e, e', t) = filled bits 1024 h k in (fresh none b' disk, ground (arith, e, e'), t)
init-AllTrue (some n) bits disk h k =
    let (b, b', e, e', t) = filled bits (n / 8) h k in
    (fresh (some n) b' disk, ground (arith, e, e'), t)

scan-AllTrue : (b : Bitmap) → AllTrue b → bitmap_scan_and_flip b 0 1 false ≡ some (bitmap_error, b)
scan-AllTrue b t = elim (scan_and_flip-FlipsFirst b 0 1 false t.valid (omega arith) (omega arith)) [
  | inl (i, b', e, p, q, all, first, w) ↦
      absurd (ground (arith, all i (omega arith) (omega arith), t.bits i (omega arith)))
  | inr (e, n) ↦ e
]

-- Where every bit is true, `swap_out` refuses every page and changes nothing.
pub swap_out-AllTrue :
    (vm : Vm) (malloc_ok : Bool) (p : Option ℕ)
    → AllTrue vm.swap.available
    → swap_out malloc_ok p vm ≡ some (false, vm)
unfolding swap_out
swap_out-AllTrue vm malloc_ok none t = refl
swap_out-AllTrue vm malloc_ok (some p) t = ground (arith, scan-AllTrue vm.swap.available t)

-- From the statics that `vm_swap_init` leaves, `swap_out` fails for every page and changes nothing,
-- swap device or not: no slot of a new swap area can be used.
pub init-swap_out :
    (device : Option ℕ) (bits : List ℕ) (disk : ℕ → ℕ) (vm : Vm) (malloc_ok : Bool) (p : Option ℕ)
    → length bits ≡ elem_cnt (slots device)
    → slots device ≤ 2 ^ 32 - 32
    → vm_swap_init device true true (some bits) disk ≡ some vm.swap
    → swap_out malloc_ok p vm ≡ some (false, vm)
init-swap_out device bits disk vm malloc_ok p h k init =
    let (s, e, t) = init-AllTrue device bits disk h k in
    let same : s ≡ vm.swap = cc (e, init) in
    swap_out-AllTrue vm malloc_ok p (subst (λ (x : Swap). AllTrue x.available) same t)
