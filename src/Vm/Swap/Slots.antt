-- ===== src/Vm/Swap/Slots.antt =====
-- The sectors of a slot: what is written to a slot is read back from it, and only its sectors
-- change.
use pintos_lab.Base.{
  ℕ, zero, suc, ◌+◌, ◌-◌, ◌*◌, ◌<◌, ◌≡◌, ◌∙◌, ◌&&◌, leb, ltb, if◌then◌else◌, arith,
}
use pintos_lab.Vm.State.{PageData, update}
use pintos_lab.Vm.Swap.{write_sectors, read_sectors}

write_sectors-at :
    (n slot i : ℕ) (content : PageData) (disk : ℕ → ℕ) (k : ℕ)
    → write_sectors n slot i content disk k ≡ (
        if leb (slot * 8 + i) k && ltb k (slot * 8 + i + n) then content (k - slot * 8) else disk k)
unfolding write_sectors
write_sectors-at zero slot i content disk k = ground arith
write_sectors-at (suc n) slot i content disk k =
    write_sectors-at n slot (i + 1) content (update disk (slot * 8 + i) (content i)) k
    ∙ ground arith

read_sectors-at :
    (n slot i : ℕ) (disk : ℕ → ℕ) (content : PageData) (k : ℕ)
    → read_sectors n slot i disk content k
      ≡ (if leb i k && ltb k (i + n) then disk (slot * 8 + k) else content k)
unfolding read_sectors
read_sectors-at zero slot i disk content k = ground arith
read_sectors-at (suc n) slot i disk content k =
    read_sectors-at n slot (i + 1) disk (update content i (disk (slot * 8 + i))) k ∙ ground arith

pub read-write :
    (slot : ℕ) (disk : ℕ → ℕ) (content old : PageData) (k : ℕ)
    → k < 8
    → read_sectors 8 slot 0 (write_sectors 8 slot 0 content disk) old k ≡ content k
read-write slot disk content old k h = ground (
  arith,
  read_sectors-at 8 slot 0 (write_sectors 8 slot 0 content disk) old k,
  write_sectors-at 8 slot 0 content disk (slot * 8 + k),
)
