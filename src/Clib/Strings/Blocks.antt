-- ===== src/Clib/Strings/Blocks.antt =====
-- Blocks of bytes: copies, also where the blocks overlap.
use pintos_lab.Base.{
  ℕ, zero, suc, ◌+◌, ◌≤◌, ◌<◌, ◌≡◌, ◌⊎◌, refl, ap, ◌∙◌, some, ltb, ◌==◌, if◌then◌else◌, arith,
  Bool-cases, inl, inr, subst,
}
use pintos_lab.Clib.Strings.{Memory, store, copy_up, copy_down, memcpy, memmove}

-- `size` bytes of `old` from `src` on are at `dst`, and the bytes outside that block are the old
-- ones.
pub record IsCopied (dst src size : ℕ) (old new : Memory) : Type 0 where
  pub inside : (k : ℕ) → k < size → new (dst + k) ≡ old (src + k)
  pub outside : (a : ℕ) → (a < dst) ⊎ (dst + size ≤ a) → new a ≡ old a

pub store-other : (p a value : ℕ) (mem : Memory) → (a < p) ⊎ (p < a) → store p value mem a ≡ mem a
unfolding store
store-other p a value mem h = ground (arith, h)

pub store-same : (p value : ℕ) (mem : Memory) → store p value mem p ≡ value
unfolding store
store-same p value mem = ground arith

-- The first byte is written before the rest of the block is copied.
moved-inside :
    (size dst src k : ℕ) (mem new : Memory)
    → (dst ≤ src) ⊎ (src + suc size ≤ dst)
    → k < suc size
    → IsCopied (dst + 1) (src + 1) size (store dst (mem src) mem) new
    → new (dst + k) ≡ mem (src + k)
moved-inside size dst src zero mem new h lt rest =
    ap new (omega arith)
    ∙ rest.outside dst (ground arith)
    ∙ store-same dst (mem src) mem
    ∙ ap mem (omega arith)
moved-inside size dst src (suc k) mem new h lt rest =
    ap new (omega arith)
    ∙ rest.inside k (ground (arith, lt))
    ∙ store-other dst (src + 1 + k) (mem src) mem (ground (arith, h, lt))
    ∙ ap mem (omega arith)

copy_up-IsCopied :
    (size dst src : ℕ) (mem : Memory)
    → (dst ≤ src) ⊎ (src + size ≤ dst)
    → IsCopied dst src size mem (copy_up size dst src mem)
unfolding copy_up
copy_up-IsCopied zero dst src mem h = record {
  inside = λ k lt. absurd (omega (arith, lt));
  outside = λ a o. refl;
}
copy_up-IsCopied (suc size) dst src mem h =
    let rest =
      copy_up-IsCopied size (dst + 1) (src + 1) (store dst (mem src) mem) (ground (arith, h)) in
    record {
      inside = λ k lt. moved-inside size dst src k mem (copy_up (suc size) dst src mem) h lt rest;
      outside = λ a o.
          rest.outside a (ground (arith, o)) ∙ store-other dst a (mem src) mem (ground (arith, o));
    }

copy_down-IsCopied :
    (size dst src : ℕ) (mem : Memory)
    → src ≤ dst
    → IsCopied dst src size mem (copy_down size dst src mem)
unfolding copy_down
copy_down-IsCopied zero dst src mem h = record {
  inside = λ k lt. absurd (omega (arith, lt));
  outside = λ a o. refl;
}
copy_down-IsCopied (suc size) dst src mem h =
    let top = mem (src + size) in
    let rest = copy_down-IsCopied size dst src (store (dst + size) top mem) h in
    record {
      inside = λ k lt. elim (Bool-cases (k == size)) [
        | inl e ↦
            subst
              (λ x. copy_down size dst src (store (dst + size) top mem) (dst + x) ≡ mem (src + x))
              (ground (arith, e))
              (rest.outside (dst + size) (ground arith) ∙ store-same (dst + size) top mem)
        | inr e ↦
            rest.inside k (ground (arith, e, lt))
            ∙ store-other (dst + size) (src + k) top mem (ground (arith, e, lt, h))
      ];
      outside = λ a o.
          rest.outside a (ground (arith, o))
          ∙ store-other (dst + size) a top mem (ground (arith, o));
    }

-- The pointer that `memmove` leaves in its local variable.
pub returned : ℕ → ℕ → ℕ → ℕ
returned dst src size = if ltb dst src then dst + size else dst

-- For blocks that are not NULL, overlapping or not, `memmove` succeeds: each byte of the
-- destination is the byte the source had before the call, and no other byte changes. It returns
-- the destination where that is not below the source, and otherwise the address one past the
-- block.
pub memmove_lem :
    (dst src size : ℕ) (mem : Memory)
    → 0 < dst
    → 0 < src
    → (mem' : Memory) × (memmove dst src size mem ≡ some (returned dst src size, mem'))
      × IsCopied dst src size mem mem'
unfolding memmove returned
memmove_lem dst src size mem hd hs = elim (Bool-cases (ltb dst src)) [
  | inl e ↦ (
    copy_up size dst src mem,
    ground (arith, e, hd, hs),
    copy_up-IsCopied size dst src mem (ground (arith, e)),
  )
  | inr e ↦ (
    copy_down size dst src mem,
    ground (arith, e, hd, hs),
    copy_down-IsCopied size dst src mem (ground (arith, e)),
  )
]

-- For blocks that are not NULL and do not overlap, `memcpy` and `memmove` leave the same memory.
pub memcpy_lem :
    (dst src size : ℕ) (mem : Memory)
    → 0 < dst
    → 0 < src
    → (src + size ≤ dst) ⊎ (dst + size ≤ src)
    → (mem' : Memory) × (memcpy dst src size mem ≡ some (dst, mem'))
      × IsCopied dst src size mem mem'
unfolding memcpy
memcpy_lem dst src size mem hd hs apart = (
  copy_up size dst src mem,
  ground (arith, hd, hs),
  copy_up-IsCopied size dst src mem (ground (arith, apart)),
)
