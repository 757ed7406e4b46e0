-- ===== src/Bitmap/Restore.antt =====
-- A group of bits that was set can be cleared again, which gives the bits from before.
use pintos_lab.Base.{
  ℕ, ◌+◌, ◌≤◌, ◌≡◌, inl, inr, true, false, ◌&&◌, some, ltb, leb, arith, Bool-cases,
}
use pintos_lab.Bitmap.{Bitmap, bitmap_all, bitmap_set_multiple}
use pintos_lab.Bitmap.View.{value_at}
use pintos_lab.Bitmap.Update.{IsWritten, set_multiple-IsWritten}
use pintos_lab.Bitmap.Contains.{AllAre}
use pintos_lab.Bitmap.Tally.{all_lem}

-- The bits of two maps are the same.
abbrev pub AreSame : Bitmap → Bitmap → Type 0
AreSame b b' = (j : ℕ) → value_at b' j ≡ value_at b j

-- Bits that were turned on and off again.
pub back-AreSame :
    (b b' b'' : Bitmap) (i cnt : ℕ)
    → AllAre b i cnt false
    → IsWritten b i cnt true b'
    → IsWritten b' i cnt false b''
    → AreSame b b''
back-AreSame b b' b'' i cnt free w w' j = elim (Bool-cases (leb i j && ltb j (i + cnt))) [
  | inl e ↦ ground (arith, e, w'.values j, free j (ground (arith, e)) (ground (arith, e)))
  | inr e ↦ ground (arith, e, w'.values j, w.values j)
]

-- `bitmap_all` finds the group set, and `bitmap_set_multiple` clears it.
pub clear_lem :
    (b b' : Bitmap) (i cnt : ℕ)
    → AllAre b i cnt false
    → i + cnt ≤ b.bit_cnt
    → IsWritten b i cnt true b'
    → (b'' : Bitmap) × (bitmap_all b' i cnt ≡ some true)
      × (bitmap_set_multiple b' i cnt false ≡ some b'')
      × AreSame b b''
clear_lem b b' i cnt free fits w =
    let (b'', e, w') =
      set_multiple-IsWritten b' i cnt false w.valid (omega (arith, fits, w.same_cnt)) in
    elim (all_lem b' i cnt w.valid (omega (arith, fits, w.same_cnt))) [
      | inl (u, all) ↦ (b'', u, e, back-AreSame b b' b'' i cnt free w w')
      | inr (u, (j, p, q, v)) ↦ absurd (ground (arith, p, q, v, w.values j))
    ]
