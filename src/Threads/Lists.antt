-- ===== src/Threads/Lists.antt =====
-- Membership and repetition in the lists of threads.
use pintos_lab.Base.{ℕ, ◌≡◌, refl, Bool, false, ◌||◌, List, [], ◌∷◌, ◌++◌, ◌==◌, arith}

abbrev pub has : ℕ → List ℕ → Bool
has t [] = false
has t (u ∷ us) = (u == t) || has t us

-- No thread is in the list twice.
abbrev pub Unique : List ℕ → Type 0
Unique [] = Unit
Unique (t ∷ ts) = (has t ts ≡ false) × Unique ts

pub has-append : (t u : ℕ) (ts : List ℕ) → has t (ts ++ (u ∷ [])) ≡ (has t ts || (u == t))
has-append t u [] = ground arith
has-append t u (x ∷ xs) = let rest = has-append t u xs in ground arith

pub Unique-append : (u : ℕ) (ts : List ℕ) → has u ts ≡ false → Unique ts → Unique (ts ++ (u ∷ []))
Unique-append u [] h d = (refl, tt)
Unique-append u (x ∷ xs) h (n, d) =
    (ground (arith, has-append x u xs), Unique-append u xs (ground arith) d)
