-- ===== src/Threads/Palloc/Pages.antt =====
-- Pages that are allocated come from their pool, and can be freed, which gives the pools from
-- before.
use pintos_lab.Base.{
  ℕ, ◌+◌, ◌-◌, ◌*◌, ◌/◌, ◌%◌, ◌^◌, ◌≤◌, ◌<◌, ◌≡◌, ◌⊎◌, refl, sym, subst, inl, inr, Bool, true,
  false, ◌&&◌, ◌||◌, Option, none, some, ltb, leb, ◌==◌, if◌then◌else◌, arith, Bool-cases,
}
use pintos_lab.Bitmap.{Bitmap, bitmap_error, bitmap_scan_and_flip}
use pintos_lab.Bitmap.View.{value_at}
use pintos_lab.Bitmap.View
use pintos_lab.Bitmap.Update.{IsWritten}
use pintos_lab.Bitmap.Contains.{AllAre}
use pintos_lab.Bitmap.Scan.{NoGroup, scan_and_flip-FlipsFirst}
use pintos_lab.Bitmap.Restore.{AreSame, clear_lem}
use pintos_lab.Threads.Palloc.{
  Pool, PallocFlags, Pools, memset, pool_of, set_map, palloc_get_multiple, page_from_pool,
  palloc_free_multiple,
}

-- Whole pages above address 0 and within memory.
pub record IsPool (pool : Pool) : Type 0 where
  pub map : View.IsValid pool.used_map
  pub aligned : pool.base % 4096 ≡ 0
  pub not_null : 0 < pool.base
  pub below : pool.base + 4096 * pool.used_map.bit_cnt ≤ 2 ^ 32

-- Both pools are well-formed, and the one of the kernel ends where that of the users begins.
pub record IsValid (s : Pools) : Type 0 where
  pub kernel : IsPool s.kernel_pool
  pub user : IsPool s.user_pool
  pub apart : s.kernel_pool.base + 4096 * s.kernel_pool.used_map.bit_cnt ≤ s.user_pool.base

-- The two maps have the same bits.
abbrev pub SameMaps : Pools → Pools → Type 0
SameMaps s s' =
    AreSame s.kernel_pool.used_map s'.kernel_pool.used_map
    × AreSame s.user_pool.used_map s'.user_pool.used_map

-- What `palloc_get_multiple` answers: a group of free pages of the pool, cleared if that was
-- asked, and freeing it gives the maps from before; or NULL, with the same bits, and a panic if
-- that was asked.
abbrev pub Gets : PallocFlags → ℕ → Pools → Option (ℕ × Pools) → Type 0
Gets flags cnt s r =
    ((pages : ℕ) × (s' : Pools) × (s'' : Pools) × (r ≡ some (pages, s'))
      × (pages % 4096 ≡ 0)
      × ((pool_of flags s).base ≤ pages)
      × (pages + 4096 * cnt ≤ (pool_of flags s).base + 4096 * (pool_of flags s).used_map.bit_cnt)
      × AllAre (pool_of flags s).used_map ((pages - (pool_of flags s).base) / 4096) cnt false
      × ((a : ℕ)
          → s'.memory a ≡ (
              if flags.pal_zero && (leb pages a && ltb a (pages + 4096 * cnt))
              then 0
              else s.memory a))
      × (palloc_free_multiple pages cnt s' ≡ some s'')
      × SameMaps s s'')
    ⊎ ((r ≡ (if flags.pal_assert then none else some (0, s)))
        × NoGroup (pool_of flags s).used_map 0 ((pool_of flags s).used_map.bit_cnt + 1 - cnt) cnt
            false)

module _ (s : Pools) (v : IsValid s) (idx cnt : ℕ) (map : Bitmap) (memory : ℕ → ℕ)
    (pos : 0 < cnt) where
  free_kernel :
      idx + cnt ≤ s.kernel_pool.used_map.bit_cnt
      → AllAre s.kernel_pool.used_map idx cnt false
      → IsWritten s.kernel_pool.used_map idx cnt true map
      → (s'' : Pools) × (palloc_free_multiple
            (s.kernel_pool.base + 4096 * idx)
            cnt
            (record s { kernel_pool = record (s.kernel_pool) { used_map = map }; memory = memory })
          ≡ some s'')
        × SameMaps s s''
  unfolding palloc_free_multiple page_from_pool set_map
  free_kernel fits free w =
      let (map', all, run, same) = clear_lem s.kernel_pool.used_map map idx cnt free fits w in
      let base = s.kernel_pool.base in
      let whole : ((base + 4096 * idx) % 4096 == 0) ≡ true = ground (arith, v.kernel.aligned) in
      let nz : ((base + 4096 * idx == 0) || (cnt == 0)) ≡ false =
        ground (arith, v.kernel.not_null) in
      let inside : page_from_pool (record (s.kernel_pool) { used_map = map }) (base + 4096 * idx)
          ≡ true =
        ground (arith, w.same_cnt, v.kernel.aligned) in
      let at : (base + 4096 * idx) / 4096 - base / 4096 ≡ idx = omega (arith, v.kernel.aligned) in
      (
        record s {
          kernel_pool = record (s.kernel_pool) { used_map = map' };
          memory = memset (base + 4096 * idx) 0xcc (4096 * cnt) memory;
        },
        rw (whole, nz, inside, at, all, run) refl,
        (same, λ j. refl),
      )

  free_user :
      idx + cnt ≤ s.user_pool.used_map.bit_cnt
      → AllAre s.user_pool.used_map idx cnt false
      → IsWritten s.user_pool.used_map idx cnt true map
      → (s'' : Pools) × (palloc_free_multiple
            (s.user_pool.base + 4096 * idx)
            cnt
            (record s { user_pool = record (s.user_pool) { used_map = map }; memory = memory })
          ≡ some s'')
        × SameMaps s s''
  unfolding palloc_free_multiple page_from_pool set_map
  free_user fits free w =
      let (map', all, run, same) = clear_lem s.user_pool.used_map map idx cnt free fits w in
      let base = s.user_pool.base in
      let whole : ((base + 4096 * idx) % 4096 == 0) ≡ true = ground (arith, v.user.aligned) in
      let nz : ((base + 4096 * idx == 0) || (cnt == 0)) ≡ false = ground (arith, v.user.not_null) in
      let outside : page_from_pool s.kernel_pool (base + 4096 * idx) ≡ false =
        ground (arith, v.kernel.aligned, v.user.aligned, v.apart) in
      let inside : page_from_pool (record (s.user_pool) { used_map = map }) (base + 4096 * idx)
          ≡ true =
        ground (arith, w.same_cnt, v.user.aligned) in
      let at : (base + 4096 * idx) / 4096 - base / 4096 ≡ idx = omega (arith, v.user.aligned) in
      (
        record s {
          user_pool = record (s.user_pool) { used_map = map' };
          memory = memset (base + 4096 * idx) 0xcc (4096 * cnt) memory;
        },
        rw (whole, nz, outside, inside, at, all, run) refl,
        ((λ j. refl), same),
      )

-- The state after a group was taken out of a pool, which left the map `map`.
taken : Bool → Bitmap → (ℕ → ℕ) → Pools → Pools
taken true map memory s = record s {
  user_pool = record (s.user_pool) { used_map = map };
  memory = memory;
}
taken false map memory s = record s {
  kernel_pool = record (s.kernel_pool) { used_map = map };
  memory = memory;
}

abbrev pool : Bool → Pools → Pool
pool user s = if user then s.user_pool else s.kernel_pool

free_taken :
    (user : Bool) (s : Pools) (v : IsValid s) (idx cnt : ℕ) (map : Bitmap) (memory : ℕ → ℕ)
    (pos : 0 < cnt)
    → idx + cnt ≤ (pool user s).used_map.bit_cnt
    → AllAre (pool user s).used_map idx cnt false
    → IsWritten (pool user s).used_map idx cnt true map
    → (s'' : Pools) × (palloc_free_multiple
          ((pool user s).base + 4096 * idx)
          cnt
          (taken user map memory s)
        ≡ some s'')
      × SameMaps s s''
unfolding taken
free_taken true s v idx cnt map memory pos = free_user s v idx cnt map memory pos
free_taken false s v idx cnt map memory pos = free_kernel s v idx cnt map memory pos

pool-IsPool : (user : Bool) (s : Pools) → IsValid s → IsPool (pool user s)
pool-IsPool true s v = v.user
pool-IsPool false s v = v.kernel

-- The memory that a call hands out.
abbrev given : Bool → ℕ → ℕ → (ℕ → ℕ) → ℕ → ℕ
given clear pages cnt memory = if clear then memset pages 0 (4096 * cnt) memory else memory

get_found :
    (flags : PallocFlags) (cnt idx : ℕ) (map : Bitmap) (s : Pools)
    → (cnt == 0) ≡ false
    → (idx == bitmap_error) ≡ false
    → bitmap_scan_and_flip (pool_of flags s).used_map 0 cnt false ≡ some (idx, map)
    → palloc_get_multiple flags cnt s
      ≡ some (
        (pool_of flags s).base + 4096 * idx,
        taken flags.pal_user map
            (given flags.pal_zero ((pool_of flags s).base + 4096 * idx) cnt s.memory)
            s,
      )
unfolding palloc_get_multiple set_map taken
get_found flags cnt idx map s c n e =
    rw (c, e, n)
      (elim (Bool-cases flags.pal_user) [
        | inl u ↦ (elim (Bool-cases flags.pal_zero) [
          | inl z ↦ rw (u, z) refl
          | inr z ↦ rw (u, z) refl
        ])
        | inr u ↦ (elim (Bool-cases flags.pal_zero) [
          | inl z ↦ rw (u, z) refl
          | inr z ↦ rw (u, z) refl
        ])
      ])

get_none :
    (flags : PallocFlags) (cnt : ℕ) (s : Pools)
    → (cnt == 0) ≡ false
    → bitmap_scan_and_flip (pool_of flags s).used_map 0 cnt false
      ≡ some (bitmap_error, (pool_of flags s).used_map)
    → palloc_get_multiple flags cnt s ≡ (if flags.pal_assert then none else some (0, s))
unfolding palloc_get_multiple set_map
get_none flags cnt s c e =
    rw (c, e) (elim (Bool-cases flags.pal_user) [ inl u ↦ rw u refl | inr u ↦ rw u refl ])

memory_taken :
    (user clear : Bool) (map : Bitmap) (pages cnt : ℕ) (s : Pools) (a : ℕ)
    → (taken user map (given clear pages cnt s.memory) s).memory a
      ≡ (if clear && (leb pages a && ltb a (pages + 4096 * cnt)) then 0 else s.memory a)
unfolding taken
memory_taken true true map pages cnt s a = refl
memory_taken true false map pages cnt s a = refl
memory_taken false true map pages cnt s a = refl
memory_taken false false map pages cnt s a = refl

-- `palloc_get_multiple` of at least one page from valid pools answers so.
pub get-Gets :
    (flags : PallocFlags) (cnt : ℕ) (s : Pools)
    → IsValid s
    → 0 < cnt
    → Gets flags cnt s (palloc_get_multiple flags cnt s)
unfolding taken
get-Gets flags cnt s v pos =
    let p = pool-IsPool flags.pal_user s v in
    let c : (cnt == 0) ≡ false = ground arith in
    elim (scan_and_flip-FlipsFirst (pool_of flags s).used_map 0 cnt false p.map (omega arith) pos) [
      | inr (e, none_of) ↦ inr (get_none flags cnt s c e, none_of)
      | inl (idx, map, e, lo, fits, free, first, w) ↦
          (let base = (pool_of flags s).base in
            let (s'', run, same) =
              free_taken flags.pal_user s v idx cnt map
                (given flags.pal_zero (base + 4096 * idx) cnt s.memory) pos fits free w in
            let at : (base + 4096 * idx - base) / 4096 ≡ idx = omega arith in
            inl (
              base + 4096 * idx,
              _,
              s'',
              get_found flags cnt idx map s c (ground (arith, fits, p.map.size, pos)) e,
              omega (arith, p.aligned),
              omega arith,
              omega (arith, fits),
              subst (λ i. AllAre (pool_of flags s).used_map i cnt false) (sym at) free,
              memory_taken flags.pal_user flags.pal_zero map (base + 4096 * idx) cnt s,
              run,
              same,
            ))
    ]
