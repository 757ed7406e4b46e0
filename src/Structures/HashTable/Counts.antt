-- ===== src/Structures/HashTable/Counts.antt =====
-- The number of buckets: the loop of `rehash` ends, with a power of two.
use pintos_lab.Base.{
  ℕ, zero, suc, ◌-◌, ◌≤◌, ◌<◌, ◌≡◌, refl, Bool, true, false, some, ◌==◌, arith, Bool-cases, inl,
  inr,
}
use pintos_lab.Base.Bits.{bit_and-le_right}
use pintos_lab.Structures.HashTable.{turn_off_least_1bit, is_power_of_2, round_down, bucket_idx}

turn_off-lt : (n : ℕ) → 0 < n → turn_off_least_1bit n < n
unfolding turn_off_least_1bit
turn_off-lt n h = omega (arith, bit_and-le_right (n - 1) n (n - 1) (omega arith))

-- With more fuel than `n` the loop ends, with a power of two that is at most `n`.
pub round_down_lem :
    (f n : ℕ)
    → n < f
    → 0 < n
    → (m : ℕ) × (round_down f n ≡ some m) × (0 < m) × (m ≤ n) × (turn_off_least_1bit m ≡ 0)
unfolding round_down
round_down_lem zero n lt pos = absurd (omega arith)
round_down_lem (suc f) n lt pos = elim (Bool-cases (turn_off_least_1bit n == 0)) [
  | inl e ↦
      (let p : is_power_of_2 n ≡ true = ground (arith, e) in
        (n, rw p refl, pos, omega arith, ground (arith, e)))
  | inr e ↦
      (let p : is_power_of_2 n ≡ false = ground (arith, e) in
        let less = turn_off-lt n pos in
        let (m, run, pos', le, power) =
          round_down_lem f (turn_off_least_1bit n) (omega arith) (ground (arith, e)) in
        (m, rw p run, pos', omega arith, power))
]

pub bucket_idx-lt :
    (hash : ℕ → ℕ) (less : ℕ → ℕ → Bool) (cnt e : ℕ) → 0 < cnt → bucket_idx hash less cnt e < cnt
bucket_idx-lt hash less cnt e h =
    omega (arith, bit_and-le_right (cnt - 1) (hash e) (cnt - 1) (omega arith))
