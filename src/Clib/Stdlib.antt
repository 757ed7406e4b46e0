-- ===== src/Clib/Stdlib.antt =====
-- pintos/lib/stdlib.c: binary search. `compare` is the function that compares the key with the
-- element at an address.
pub mod Finds
pub mod Examples
use pintos_lab.Base.{
  ℕ, zero, suc, ◌+◌, ◌-◌, ◌*◌, ◌/◌, Bool, true, false, Option, none, some, ltb, if◌then◌else◌,
}
use pintos_lab.Clib.Strings.{Sign, negative, equal, positive}

module _ (compare : ℕ → Sign) where
  -- The loop; `none` is the end of the fuel, and `some 0` is NULL.
  unfoldable pub search_loop : ℕ → ℕ → ℕ → ℕ → Option ℕ
  search_loop zero size first last = none
  search_loop (suc n) size first last =
      let range = (last - first) / size in
      let middle = first + range / 2 * size in
      let lower = search_loop n size first middle in
      let upper = search_loop n size (middle + size) last in
      if ltb first last
      then elim (compare middle) [ negative ↦ lower | positive ↦ upper | equal ↦ some middle ]
      else some 0

  unfoldable pub binary_search : ℕ → ℕ → ℕ → ℕ → Option ℕ
  binary_search n array cnt size = search_loop n size array (array + size * cnt)
