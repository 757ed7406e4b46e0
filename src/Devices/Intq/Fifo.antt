-- ===== src/Devices/Intq/Fifo.antt =====
-- The queue is a bounded first-in first-out queue.
use pintos_lab.Base.{
  ℕ, zero, suc, ◌+◌, ◌-◌, ◌%◌, ◌<◌, ◌≡◌, refl, ap, ◌∙◌, Bool, true, false, Option, none, some, List,
  [], ◌∷◌, ◌++◌, ◌==◌, if◌then◌else◌, arith, length, Bool-cases, inl, inr,
}
use pintos_lab.Devices.Intq.{
  Intq, next, intq_empty, intq_full, Outcome, sleeps, returns, intq_getc, intq_putc,
}

-- `n` bytes of a buffer, from `pos` on around its end.
unfoldable pub bytes_from : ℕ → ℕ → (ℕ → ℕ) → List ℕ
bytes_from zero pos buf = []
bytes_from (suc n) pos buf = buf pos ∷ bytes_from n (next pos) buf

abbrev pub count : Intq → ℕ
count q = (q.head + 64 - q.tail) % 64

-- The bytes in the queue, the oldest first.
abbrev pub contents : Intq → List ℕ
contents q = bytes_from (count q) q.tail q.buf

pub record IsValid (q : Intq) : Type 0 where
  pub head_in : q.head < 64
  pub tail_in : q.tail < 64

length-bytes_from : (n pos : ℕ) (buf : ℕ → ℕ) → length (bytes_from n pos buf) ≡ n
unfolding bytes_from
length-bytes_from zero pos buf = refl
length-bytes_from (suc n) pos buf = omega (arith, length-bytes_from n (next pos) buf)

-- A byte written behind the others.
bytes_from-set :
    (n pos at byte : ℕ) (buf : ℕ → ℕ)
    → pos < 64
    → n < 64
    → at ≡ (pos + n) % 64
    → bytes_from (suc n) pos (λ i. if at == i then byte else buf i)
      ≡ bytes_from n pos buf ++ byte ∷ []
unfolding bytes_from
bytes_from-set zero pos at byte buf p lt e =
    let here : (at == pos) ≡ true = ground arith in rw here refl
bytes_from-set (suc n) pos at byte buf p lt e =
    let other : (at == pos) ≡ false = ground arith in
    let rest = bytes_from-set n (next pos) at byte buf (omega arith) (omega arith) (omega arith) in
    rw other (ap (λ (l : List ℕ). buf pos ∷ l) rest)

full_lem : (q : Intq) → IsValid q → (length (contents q) == 63) ≡ intq_full q
full_lem q v =
    let len = length-bytes_from (count q) q.tail q.buf in
    elim (Bool-cases (intq_full q)) [
      | inl e ↦ ground (arith, e, len, v.head_in, v.tail_in)
      | inr e ↦ ground (arith, e, len, v.head_in, v.tail_in)
    ]

-- What a put does: with 63 bytes in the queue the thread sleeps, and an interrupt handler panics;
-- otherwise the byte is added at the end, and the thread that waits for one is woken.
abbrev pub Puts : Bool → ℕ → ℕ → Intq → Option (Outcome (Unit {0})) → Type 0
Puts intr_context current byte q r =
    if length (contents q) == 63
    then (r ≡ (if intr_context then none else some (sleeps (record q { not_full = some current }))))
    else ((q' : Intq) × (r ≡ some (returns tt q.not_empty q'))
        × IsValid q'
        × (contents q' ≡ contents q ++ byte ∷ [])
        × (q'.not_empty ≡ none)
        × (q'.not_full ≡ q.not_full))

-- `intq_putc` does so.
pub putc-Puts :
    (intr_context : Bool) (current byte : ℕ) (q : Intq)
    → IsValid q
    → Puts intr_context current byte q (intq_putc intr_context current byte q)
unfolding intq_putc
putc-Puts intr_context current byte q v = rw (full_lem q v) (elim (Bool-cases (intq_full q)) [
  | inl e ↦ rw e (elim (Bool-cases intr_context) [ inl c ↦ rw c refl | inr c ↦ rw c refl ])
  | inr e ↦
      (let more : (next q.head + 64 - q.tail) % 64 ≡ suc (count q) =
          ground (arith, e, v.head_in, v.tail_in) in
        let at : q.head ≡ (q.tail + count q) % 64 = omega (arith, v.head_in, v.tail_in) in
        let added = bytes_from-set (count q) q.tail q.head byte q.buf v.tail_in (omega arith) at in
        rw e (
          _,
          refl,
          record { head_in = omega arith; tail_in = v.tail_in },
          ap (λ (n : ℕ). bytes_from n q.tail (λ i. if q.head == i then byte else q.buf i)) more
              ∙ added,
          refl,
          refl,
        ))
])

-- What a get does: on an empty queue the thread sleeps, and an interrupt handler panics; otherwise
-- the oldest byte is returned and removed, and the thread that waits for room is woken.
abbrev pub Gets : Bool → ℕ → Intq → List ℕ → Option (Outcome ℕ) → Type 0
Gets intr_context current q [] r =
    r ≡ (if intr_context then none else some (sleeps (record q { not_empty = some current })))
Gets intr_context current q (x ∷ xs) r =
    (q' : Intq) × (r ≡ some (returns x q.not_full q'))
    × IsValid q'
    × (contents q' ≡ xs)
    × (q'.not_full ≡ none)
    × (q'.not_empty ≡ q.not_empty)

get_at :
    (intr_context : Bool) (current n : ℕ) (q : Intq)
    → IsValid q
    → count q ≡ n
    → Gets intr_context current q (bytes_from n q.tail q.buf) (intq_getc intr_context current q)
unfolding intq_getc bytes_from
get_at intr_context current zero q v e =
    let empty : intq_empty q ≡ true = ground (arith, e, v.head_in, v.tail_in) in
    rw empty (elim (Bool-cases intr_context) [ inl c ↦ rw c refl | inr c ↦ rw c refl ])
get_at intr_context current (suc n) q v e =
    let some_in : intq_empty q ≡ false = ground (arith, e, v.head_in, v.tail_in) in
    let less : (q.head + 64 - next q.tail) % 64 ≡ n = omega (arith, e, v.head_in, v.tail_in) in
    rw some_in (
      _,
      refl,
      record { head_in = v.head_in; tail_in = omega arith },
      ap (λ (m : ℕ). bytes_from m (next q.tail) q.buf) less,
      refl,
      refl,
    )

-- `intq_getc` does so.
pub getc-Gets :
    (intr_context : Bool) (current : ℕ) (q : Intq)
    → IsValid q
    → Gets intr_context current q (contents q) (intq_getc intr_context current q)
getc-Gets intr_context current q v = get_at intr_context current (count q) q v refl
