-- ===== src/Bitmap/Scan.antt =====
-- `bitmap_scan` finds the first group of equal bits.
use pintos_lab.Base.{
  ℕ, zero, suc, ◌+◌, ◌-◌, ◌≤◌, ◌<◌, ◌≡◌, ◌∙◌, refl, ◌⊎◌, inl, inr, Bool, true, false, not, Option,
  some, arith, same, dec_lt, subst, ap,
}
use pintos_lab.Bitmap.{
  Bitmap, bitmap_error, bitmap_contains, scan_from, bitmap_scan, bitmap_set_multiple,
  bitmap_scan_and_flip,
}
use pintos_lab.Bitmap.View.{IsValid, value_at}
use pintos_lab.Bitmap.Update.{IsWritten, set_multiple-IsWritten}
use pintos_lab.Bitmap.Contains.{AllAre, Search, contains-Search}

-- What a scan over the starts from `lo` up to `hi` answers: the first group of `cnt` bits, or the
-- error value.
abbrev pub FirstGroup : Bitmap → (lo hi cnt : ℕ) → Bool → Option ℕ → Type 0
FirstGroup b lo hi cnt value r =
    ((i : ℕ) × (r ≡ some i)
      × (lo ≤ i)
      × (i < hi)
      × AllAre b i cnt value
      × ((k : ℕ) → lo ≤ k → k < i → ¬ AllAre b k cnt value))
    ⊎ ((r ≡ some bitmap_error) × ((k : ℕ) → lo ≤ k → k < hi → ¬ AllAre b k cnt value))

Search-false :
    (b : Bitmap) (lo n : ℕ) (value : Bool) (r : Option Bool)
    → Search b lo n (not value) r
    → r ≡ some false
    → (j : ℕ) → lo ≤ j
    → j < lo + n
    → value_at b j ≡ value
Search-false b lo n value r (inl (e, all)) h j p q = ground (arith, all j p q)
Search-false b lo n value r (inr (e, w)) h j p q = cc

Search-true :
    (b : Bitmap) (lo n : ℕ) (value : Bool) (r : Option Bool)
    → Search b lo n (not value) r
    → r ≡ some true
    → AllAre b lo n value
    → ⊥
Search-true b lo n value r (inl (e, all)) h same = cc
Search-true b lo n value r (inr (e, (j, p, q, w))) h same = ground (arith, same j p q)

-- No start from `lo` below `hi` begins a group.
abbrev pub NoGroup : Bitmap → (lo hi cnt : ℕ) → Bool → Type 0
NoGroup b lo hi cnt value = (k : ℕ) → lo ≤ k → k < hi → ¬ AllAre b k cnt value

NoGroup-cons :
    (b : Bitmap) (lo hi cnt : ℕ) (value : Bool)
    → (AllAre b lo cnt value → ⊥)
    → NoGroup b (lo + 1) hi cnt value
    → NoGroup b lo hi cnt value
NoGroup-cons b lo hi cnt value here rest k p q = elim (dec_lt lo k) [
  | yes l ↦ rest k (omega arith) q
  | no l ↦ let e : lo ≡ k = omega arith in subst (λ m. ¬ AllAre b m cnt value) e here
]

scan_hit :
    (n : ℕ) (b : Bitmap) (lo cnt : ℕ) (value : Bool)
    → bitmap_contains b lo cnt (not value) ≡ some false
    → scan_from (suc n) b lo cnt value ≡ some lo
unfolding scan_from
scan_hit n b lo cnt value e = ground (arith, e)

scan_miss :
    (n : ℕ) (b : Bitmap) (lo cnt : ℕ) (value : Bool)
    → bitmap_contains b lo cnt (not value) ≡ some true
    → scan_from (suc n) b lo cnt value ≡ scan_from n b (lo + 1) cnt value
unfolding scan_from
scan_miss n b lo cnt value e = ground (arith, e)

scan_from-FirstGroup :
    (n : ℕ) (b : Bitmap) (lo hi cnt : ℕ) (value : Bool)
    → IsValid b
    → lo + n ≡ hi
    → hi + cnt ≤ b.bit_cnt + 1
    → FirstGroup b lo hi cnt value (scan_from n b lo cnt value)
scan_from-FirstGroup zero b lo hi cnt value v e h =
    inr (unfold scan_from in refl, λ k p q. absurd (omega arith))
scan_from-FirstGroup (suc n) b lo hi cnt value v e h =
    elim (contains-Search b lo cnt (not value) v (omega arith)) [
      | inl (f, all) ↦ inl (
        lo,
        scan_hit n b lo cnt value f,
        omega arith,
        omega arith,
        Search-false b lo cnt value _ (inl (f, all)) f,
        λ k p q. absurd (omega arith),
      )
      | inr (f, w) ↦
          let not_here = Search-true b lo cnt value _ (inr (f, w)) f in
          let step = scan_miss n b lo cnt value f in
          elim (scan_from-FirstGroup n b (lo + 1) hi cnt value v (omega arith) h) [
            | inl (i, g, p, q, all, first) ↦
                inl (i, step ∙ g, omega arith, q, all, NoGroup-cons b lo i cnt value not_here first)
            | inr (g, none_of) ↦ inr (step ∙ g, NoGroup-cons b lo hi cnt value not_here none_of)
          ]
    ]

module _ (b : Bitmap) (start cnt : ℕ) (value : Bool) (h : start ≤ b.bit_cnt) where
  scan_too_long : b.bit_cnt < cnt → bitmap_scan b start cnt value ≡ some bitmap_error
  unfolding bitmap_scan
  scan_too_long big = ground arith

  scan_rounds :
      cnt ≤ b.bit_cnt
      → bitmap_scan b start cnt value ≡ scan_from (b.bit_cnt - cnt + 1 - start) b start cnt value
  unfolding bitmap_scan
  scan_rounds fits = ground arith

  scan_past :
      cnt ≤ b.bit_cnt
      → b.bit_cnt + 1 - cnt < start
      → bitmap_scan b start cnt value ≡ some bitmap_error
  unfolding scan_from
  scan_past fits past =
      let no_rounds : b.bit_cnt - cnt + 1 - start ≡ 0 = omega arith in
      scan_rounds fits ∙ ap (λ n. scan_from n b start cnt value) no_rounds

flip_found :
    (b : Bitmap) (start cnt i : ℕ) (value : Bool) (b' : Bitmap)
    → i < bitmap_error
    → bitmap_scan b start cnt value ≡ some i
    → bitmap_set_multiple b i cnt (not value) ≡ some b'
    → bitmap_scan_and_flip b start cnt value ≡ some (i, b')
unfolding bitmap_scan_and_flip
flip_found b start cnt i value b' h e f = ground arith

flip_none :
    (b : Bitmap) (start cnt : ℕ) (value : Bool)
    → bitmap_scan b start cnt value ≡ some bitmap_error
    → bitmap_scan_and_flip b start cnt value ≡ some (bitmap_error, b)
unfolding bitmap_scan_and_flip
flip_none b start cnt value e = ground arith

-- `bitmap_scan` from a start in range does not panic. It returns the least start of a group of
-- `cnt` bits equal to `value` at or after `start`, and the error value if there is none.
pub scan-FirstGroup :
    (b : Bitmap) (start cnt : ℕ) (value : Bool)
    → IsValid b
    → start ≤ b.bit_cnt
    → FirstGroup b start (b.bit_cnt + 1 - cnt) cnt value (bitmap_scan b start cnt value)
scan-FirstGroup b start cnt value v h = elim (dec_lt b.bit_cnt cnt) [
  | yes big ↦ inr (scan_too_long b start cnt value h big, λ k p q. absurd (omega arith))
  | no fits ↦ elim (dec_lt (b.bit_cnt + 1 - cnt) start) [
    | yes past ↦
        inr (scan_past b start cnt value h (omega arith) past, λ k p q. absurd (omega arith))
    | no before ↦ rw (scan_rounds b start cnt value h (omega arith)) (
        scan_from-FirstGroup (b.bit_cnt - cnt + 1 - start) b start (b.bit_cnt + 1 - cnt) cnt value v
          (omega arith) (omega arith))
  ]
]

-- What `bitmap_scan_and_flip` answers: the first group, its bits turned to the other value and no
-- other bit changed; or the error value and the same bitmap, there being no group.
abbrev pub FlipsFirst : Bitmap → (start cnt : ℕ) → Bool → Option (ℕ × Bitmap) → Type 0
FlipsFirst b start cnt value r =
    ((i : ℕ) × (b' : Bitmap) × (r ≡ some (i, b'))
      × (start ≤ i)
      × (i + cnt ≤ b.bit_cnt)
      × AllAre b i cnt value
      × NoGroup b start i cnt value
      × IsWritten b i cnt (not value) b')
    ⊎ ((r ≡ some (bitmap_error, b)) × NoGroup b start (b.bit_cnt + 1 - cnt) cnt value)

-- `bitmap_scan_and_flip` for at least one bit, from a start in range, does not panic and answers
-- so.
pub scan_and_flip-FlipsFirst :
    (b : Bitmap) (start cnt : ℕ) (value : Bool)
    → IsValid b
    → start ≤ b.bit_cnt
    → 0 < cnt
    → FlipsFirst b start cnt value (bitmap_scan_and_flip b start cnt value)
scan_and_flip-FlipsFirst b start cnt value v h pos = elim (scan-FirstGroup b start cnt value v h) [
  | inl (i, e, p, q, all, first) ↦
      let (b', f, w) = set_multiple-IsWritten b i cnt (not value) v (omega arith) in
      inl (
        i,
        b',
        flip_found b start cnt i value b' (omega (arith, v.size)) e f,
        p,
        omega arith,
        all,
        first,
        w,
      )
  | inr (e, none_of) ↦ inr (flip_none b start cnt value e, none_of)
]
