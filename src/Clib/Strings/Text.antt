-- ===== src/Clib/Strings/Text.antt =====
-- Strings in memory, and the loop that measures them.
use pintos_lab.Base.{ℕ, zero, suc, ◌+◌, ◌<◌, ◌≡◌, ap, ◌∙◌, some, arith}
use pintos_lab.Clib.Strings.{Memory, strlen, strlen_loop}

-- A string of `len` bytes that are not 0, with a 0 after them.
pub record IsText (mem : Memory) (string len : ℕ) : Type 0 where
  pub bytes : (k : ℕ) → k < len → ¬ (mem (string + k) ≡ 0)
  pub ends : mem (string + len) ≡ 0

step-IsText : (mem : Memory) (p len : ℕ) → IsText mem p (suc len) → IsText mem (p + 1) len
step-IsText mem p len text = record {
  bytes = λ k lt e. text.bytes (suc k) (ground (arith, lt)) (ap mem (omega arith) ∙ e);
  ends = ap mem (omega arith) ∙ text.ends;
}

strlen_loop_lem :
    (n p len : ℕ) (mem : Memory) → IsText mem p len → len < n → strlen_loop n p mem ≡ some (p + len)
unfolding strlen_loop
strlen_loop_lem zero p len mem text lt = absurd (omega (arith, lt))
strlen_loop_lem (suc n) p zero mem text lt =
    let e : mem p ≡ 0 = ap mem (omega arith) ∙ text.ends in ground (arith, e)
strlen_loop_lem (suc n) p (suc len) mem text lt =
    let rest =
      strlen_loop_lem n (p + 1) len mem (step-IsText mem p len text) (ground (arith, lt)) in
    let e : ¬ (mem p ≡ 0) = λ z. text.bytes 0 (ground (arith)) (ap mem (omega arith) ∙ z) in
    ground (arith, e, rest)

pub strlen_lem :
    (n string len : ℕ) (mem : Memory)
    → 0 < string
    → IsText mem string len
    → len < n
    → strlen n string mem ≡ some len
unfolding strlen
strlen_lem n string len mem h text lt = ground (arith, h, strlen_loop_lem n string len mem text lt)
