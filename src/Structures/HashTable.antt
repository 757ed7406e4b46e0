-- ===== src/Structures/HashTable.antt =====
-- pintos/lib/kernel/hash.c: a hash table of elements, which are addresses. A bucket is the
-- sequence of the elements of its list. `hash` and `less` are the functions that the user of the
-- table gives.
pub mod Counts
pub mod Members
pub mod Moves
pub mod Table
pub mod Removal
pub mod Changes
pub mod Examples
use pintos_lab.Base.{
  ℕ, zero, suc, ◌+◌, ◌-◌, ◌/◌, ◌%◌, ◌^◌, ◌*◌, bit_and, bit_xor, Bool, true, false, not, ◌&&◌, ◌||◌,
  Option, none, some, List, [], ◌∷◌, ◌++◌, ltb, ◌==◌, if◌then◌else◌, ◌>>=◌, ◌>>◌, assert,
}

-- `struct hash`, less the functions
pub record HashTable : Type 0 where
  pub elem_cnt : ℕ
  pub bucket_cnt : ℕ
  pub buckets : ℕ → List ℕ

abbrev pub empty_buckets : ℕ → List ℕ
empty_buckets i = []

-- `hash_init` where there is memory
unfoldable pub hash_init : HashTable
hash_init = record { elem_cnt = 0; bucket_cnt = 4; buckets = empty_buckets }

-- `x & (x - 1)`
unfoldable pub turn_off_least_1bit : ℕ → ℕ
turn_off_least_1bit x = bit_and x (x - 1)

abbrev pub is_power_of_2 : ℕ → Bool
is_power_of_2 x = not (x == 0) && (turn_off_least_1bit x == 0)

-- The loop of `rehash`; `none` is the end of the fuel.
unfoldable pub round_down : ℕ → ℕ → Option ℕ
round_down zero n = none
round_down (suc f) n =
    let rest = round_down f (turn_off_least_1bit n) in if is_power_of_2 n then some n else rest

abbrev pub ideal : ℕ → ℕ
ideal elem_cnt = if ltb (elem_cnt / 2) 4 then 4 else elem_cnt / 2

unfoldable pub remove_first : ℕ → List ℕ → List ℕ
remove_first e [] = []
remove_first e (x ∷ xs) = if x == e then xs else x ∷ remove_first e xs

module _ (hash : ℕ → ℕ) (less : ℕ → ℕ → Bool) where
  -- The index of the bucket that `find_bucket` returns.
  abbrev pub bucket_idx : ℕ → ℕ → ℕ
  bucket_idx bucket_cnt e = bit_and (hash e) (bucket_cnt - 1)

  abbrev pub equal : ℕ → ℕ → Bool
  equal hi e = not (less hi e) && not (less e hi)

  -- `find_elem` in a bucket
  unfoldable pub find_elem : List ℕ → ℕ → Option ℕ
  find_elem [] e = none
  find_elem (hi ∷ rest) e = if equal hi e then some hi else find_elem rest e

  unfoldable pub hash_find : HashTable → ℕ → Option ℕ
  hash_find h e = find_elem (h.buckets (bucket_idx h.bucket_cnt e)) e

  abbrev pub push : ℕ → ℕ → (ℕ → List ℕ) → ℕ → List ℕ
  push i e buckets = λ j. if i == j then e ∷ buckets j else buckets j

  unfoldable pub insert_elem : ℕ → HashTable → HashTable
  insert_elem e h = record h {
    elem_cnt = h.elem_cnt + 1;
    buckets = push (bucket_idx h.bucket_cnt e) e h.buckets;
  }

  unfoldable pub remove_elem : ℕ → HashTable → HashTable
  remove_elem e h = record h {
    elem_cnt = h.elem_cnt - 1;
    buckets =
        λ j. if bucket_idx h.bucket_cnt e == j then remove_first e (h.buckets j) else h.buckets j;
  }

  -- The loops of `rehash` that move the elements, of one bucket and of `n` buckets from `i` on.
  unfoldable pub move_bucket : ℕ → List ℕ → (ℕ → List ℕ) → ℕ → List ℕ
  move_bucket new_bucket_cnt [] buckets = buckets
  move_bucket new_bucket_cnt (e ∷ es) buckets =
      move_bucket new_bucket_cnt es (push (bucket_idx new_bucket_cnt e) e buckets)

  unfoldable pub move_buckets : ℕ → ℕ → ℕ → (ℕ → List ℕ) → (ℕ → List ℕ) → ℕ → List ℕ
  move_buckets new_bucket_cnt zero i old_buckets buckets = buckets
  move_buckets new_bucket_cnt (suc n) i old_buckets buckets =
      move_buckets new_bucket_cnt n (i + 1) old_buckets
        (move_bucket new_bucket_cnt (old_buckets i) buckets)

  -- `malloc_ok` says whether there is memory for the new buckets.
  unfoldable pub rehash : Bool → HashTable → Option HashTable
  rehash malloc_ok h = do
    new_bucket_cnt ← round_down (ideal h.elem_cnt + 1) (ideal h.elem_cnt)
    let moved = record h {
      bucket_cnt = new_bucket_cnt;
      buckets = move_buckets new_bucket_cnt h.bucket_cnt 0 h.buckets empty_buckets;
    }
    if (new_bucket_cnt == h.bucket_cnt) || not malloc_ok then some h else some moved

  -- The equal element that was in the table, if any, and the table.
  unfoldable pub hash_insert : Bool → ℕ → HashTable → Option (Option ℕ × HashTable)
  hash_insert malloc_ok new h = do
    let old = hash_find h new
    h' ← rehash malloc_ok (elim old [ none ↦ insert_elem new h | some x ↦ h ])
    some (old, h')

  unfoldable pub hash_replace : Bool → ℕ → HashTable → Option (Option ℕ × HashTable)
  hash_replace malloc_ok new h = do
    let old = hash_find h new
    h' ← rehash malloc_ok (insert_elem new (elim old [ none ↦ h | some x ↦ remove_elem x h ]))
    some (old, h')

  unfoldable pub hash_delete : Bool → ℕ → HashTable → Option (Option ℕ × HashTable)
  hash_delete malloc_ok e h = elim (hash_find h e) [
    | none ↦ some (none, h)
    | some found ↦ (do h' ← rehash malloc_ok (remove_elem found h); some (some found, h'))
  ]

unfoldable pub hash_bytes : List ℕ → ℕ → ℕ
hash_bytes [] hash = hash
hash_bytes (b ∷ bs) hash = hash_bytes bs (bit_xor (hash * 16777619 % 2 ^ 32) b)
