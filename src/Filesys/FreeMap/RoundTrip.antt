-- ===== src/Filesys/FreeMap/RoundTrip.antt =====
-- Sectors that are allocated can be released, which gives the map from before.
use pintos_lab.Base.{
  ℕ, ◌+◌, ◌-◌, ◌≤◌, ◌<◌, ◌≡◌, ◌⊎◌, refl, inl, inr, Bool, true, false, not, ◌&&◌, Option, none, some,
  ◌==◌, arith, Bool-cases,
}
use pintos_lab.Bitmap.{Bitmap, bitmap_error, bitmap_scan_and_flip}
use pintos_lab.Bitmap.View.{IsValid}
use pintos_lab.Bitmap.Update.{IsWritten, set_multiple-IsWritten}
use pintos_lab.Bitmap.Contains.{AllAre}
use pintos_lab.Bitmap.Scan.{NoGroup, scan_and_flip-FlipsFirst}
use pintos_lab.Bitmap.Restore.{AreSame, back-AreSame, clear_lem}
use pintos_lab.Filesys.FreeMap.{free_map_allocate, free_map_release}

release_lem :
    (b b' : Bitmap) (i cnt : ℕ)
    → AllAre b i cnt false
    → i + cnt ≤ b.bit_cnt
    → IsWritten b i cnt true b'
    → (b'' : Bitmap) × (free_map_release true i cnt b' ≡ some b'') × AreSame b b''
unfolding free_map_release
release_lem b b' i cnt free fits w =
    let (b'', u, e, same) = clear_lem b b' i cnt free fits w in (b'', rw (u, e) refl, same)

-- What an allocation answers: sectors that were free, whose release gives the map from before; or
-- none, with the map as it was, where no group of sectors is free or the file cannot be written.
abbrev pub Allocates : Bitmap → ℕ → Bool → Bool → Option (Option ℕ × Bitmap) → Type 0
Allocates b cnt has_file write_ok r =
    ((i : ℕ) × (b' : Bitmap) × (b'' : Bitmap) × (r ≡ some (some i, b'))
      × AllAre b i cnt false
      × AllAre b' i cnt true
      × (free_map_release true i cnt b' ≡ some b'')
      × AreSame b b''
      × ((has_file && not write_ok) ≡ false))
    ⊎ ((b' : Bitmap) × (r ≡ some (none, b'))
        × AreSame b b'
        × (NoGroup b 0 (b.bit_cnt + 1 - cnt) cnt false ⊎ ((has_file && not write_ok) ≡ true)))

failed_write :
    (b b' : Bitmap) (i cnt : ℕ) (has_file write_ok : Bool)
    → IsValid b
    → 0 < cnt
    → bitmap_scan_and_flip b 0 cnt false ≡ some (i, b')
    → (has_file && not write_ok) ≡ true
    → i + cnt ≤ b.bit_cnt
    → AllAre b i cnt false
    → IsWritten b i cnt true b'
    → (b'' : Bitmap) × (free_map_allocate has_file write_ok cnt b ≡ some (none, b''))
      × AreSame b b''
unfolding free_map_allocate
failed_write b b' i cnt has_file write_ok v pos e f fits free w =
    let (b'', e'', w') =
      set_multiple-IsWritten b' i cnt false w.valid (omega (arith, fits, w.same_cnt)) in
    let found : (i == bitmap_error) ≡ false = ground (arith, fits, v.size, pos) in
    (b'', rw (e, found, f, e'') refl, back-AreSame b b' b'' i cnt free w w')

-- `free_map_allocate` of at least one sector from a valid map fails no assertion. Either it
-- answers with sectors that were all free and are now used, and the file of the map is not open or
-- was written; then `free_map_release` of them, with that file open, gives back a map with the
-- same bits as before. Or it answers with none and leaves a map with the same bits, and then no
-- group of that many sectors was free, or the file of the map is open and could not be written.
pub allocate-Allocates :
    (b : Bitmap) (cnt : ℕ) (has_file write_ok : Bool)
    → IsValid b
    → 0 < cnt
    → Allocates b cnt has_file write_ok (free_map_allocate has_file write_ok cnt b)
unfolding free_map_allocate
allocate-Allocates b cnt has_file write_ok v pos =
    elim (scan_and_flip-FlipsFirst b 0 cnt false v (omega arith) pos) [
      | inr (e, none_of) ↦ inr (b, rw e refl, λ j. refl, inl none_of)
      | inl (i, b', e, lo, fits, free, first, w) ↦ elim (Bool-cases (has_file && not write_ok)) [
        | inl f ↦
            let (b'', run, same) =
              failed_write b b' i cnt has_file write_ok v pos e f fits free w in
            inr (b'', run, same, inr f)
        | inr f ↦
            let (b'', r, s) = release_lem b b' i cnt free fits w in
            let found : (i == bitmap_error) ≡ false = ground (arith, fits, v.size, pos) in
            inl (
              i,
              b',
              b'',
              rw (e, found, f) refl,
              free,
              λ j p q. ground (arith, p, q, w.values j),
              r,
              s,
              f,
            )
      ]
    ]
