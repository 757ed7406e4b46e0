-- ===== src/Process/Syscall/Refused.antt =====
-- The calls that end the process with status -1.
use pintos_lab.Base.{ℕ, ◌≤◌, ◌≡◌, false, Option, List, [], ◌∷◌}
use pintos_lab.Process.Syscall.{Thread, World, exited, minus_one, check_ptr, arg_ptr, Handler, call}

-- How many arguments the calls have, by their numbers.
abbrev pub arg_counts : List ℕ
arg_counts = 0 ∷ 1 ∷ 1 ∷ 1 ∷ 2 ∷ 1 ∷ 1 ∷ 1 ∷ 3 ∷ 3 ∷ 2 ∷ 1 ∷ 1 ∷ []

module _ {W : Type 0} (world : World W) where
  open world use {readable, word}

  -- One of the first `n` arguments, whose pointer does not pass.
  abbrev pub BadArg : ℕ → ℕ → W → Type 0
  BadArg n esp w = (i : ℕ) × (1 ≤ i) × (i ≤ n) × (check_ptr world (arg_ptr world esp i) w ≡ false)

  -- An entry of the table, or a null pointer, that ends the process if the pointer to one of its
  -- `n` arguments does not pass.
  Refuses : ℕ → Option (Handler world) → Type 0
  Refuses n h =
      (esp : ℕ) (p : Thread) (w : W) → BadArg n esp w → call world h esp p w ≡ exited minus_one

  -- The entries of the table with the numbers of their arguments.
  Each : List ℕ → List (Option (Handler world)) → Type 0
  Each ns [] = Unit
  Each [] (h ∷ hs) = ⊥
  Each (n ∷ ns) (h ∷ hs) = Refuses n h × Each ns hs
