-- ===== src/Clib/Strings/Copies.antt =====
-- Copies of strings into buffers of a given size.
use pintos_lab.Base.{ℕ, ◌+◌, ◌-◌, ◌≤◌, ◌<◌, ◌≡◌, ◌⊎◌, sym, ◌∙◌, some, ltb, if◌then◌else◌, arith}
use pintos_lab.Clib.Strings.{Memory, store, strlcpy}
use pintos_lab.Clib.Strings.Blocks.{IsCopied, memcpy_lem, store-other, store-same}
use pintos_lab.Clib.Strings.Text.{IsText, strlen_lem}

-- How many bytes of a string of `len` fit into a buffer of `size` bytes with a 0 after them.
unfoldable pub fitting : ℕ → ℕ → ℕ
fitting len size = if ltb len (size - 1) then len else size - 1

-- `new` has, in a buffer of `size` bytes at `dst`, the part that fits of the string of `len` bytes
-- at `src`.
pub record IsCut (dst src len size : ℕ) (old new : Memory) : Type 0 where
  pub is_text : IsText new dst (fitting len size)
  pub inside : (k : ℕ) → k < fitting len size → new (dst + k) ≡ old (src + k)
  pub outside : (a : ℕ) → (a < dst) ⊎ (dst + size ≤ a) → new a ≡ old a

ended-IsCut :
    (dst src len size : ℕ) (old mid : Memory)
    → 0 < size
    → IsText old src len
    → IsCopied dst src (fitting len size) old mid
    → IsCut dst src len size old (store (dst + fitting len size) 0 mid)
unfolding fitting
ended-IsCut dst src len size old mid pos text c =
    let m = fitting len size in
    let inside : (k : ℕ) → k < m → store (dst + m) 0 mid (dst + k) ≡ old (src + k) =
      λ k lt. store-other (dst + m) (dst + k) 0 mid (ground (arith, lt)) ∙ c.inside k lt in
    record {
      is_text = record {
        bytes = λ k lt z. text.bytes k (ground (arith, lt)) (sym (inside k lt) ∙ z);
        ends = store-same (dst + m) 0 mid;
      };
      inside = inside;
      outside = λ a o.
          store-other (dst + m) a 0 mid (ground (arith, o, pos))
          ∙ c.outside a (ground (arith, o, pos));
    }

-- For a string of `len` bytes and a buffer of at least one byte that does not overlap it, neither
-- of them NULL, and more fuel than the string has bytes, `strlcpy` returns `len`. The buffer then
-- holds the part of the string that fits with a 0 after it, and nothing outside the buffer
-- changes.
pub strlcpy_lem :
    (n dst src len size : ℕ) (mem : Memory)
    → 0 < dst
    → 0 < src
    → 0 < size
    → IsText mem src len
    → len < n
    → (src + size ≤ dst) ⊎ (dst + size ≤ src)
    → (mem' : Memory) × (strlcpy n dst src size mem ≡ some (len, mem'))
      × IsCut dst src len size mem mem'
unfolding strlcpy fitting
strlcpy_lem n dst src len size mem hd hs pos text fuel apart =
    let (mid, e, c) =
      memcpy_lem dst src (fitting len size) mem hd hs (ground (arith, apart, pos)) in
    (
      store (dst + fitting len size) 0 mid,
      ground (arith, e, hd, hs, pos, strlen_lem n src len mem hs text fuel),
      ended-IsCut dst src len size mem mid pos text c,
    )
