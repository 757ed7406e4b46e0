-- ===== src/Process/Arguments/Strings.antt =====
-- The strings of the arguments on the stack.
use pintos_lab.Base.{
  ℕ, zero, suc, ◌+◌, ◌-◌, ◌≤◌, ◌<◌, ◌≡◌, refl, ap, ◌∙◌, List, [], ◌∷◌, ◌++◌, arith, length, Option,
  some,
}
use pintos_lab.Clib.Strings.{Memory}
use pintos_lab.Clib.Strings.Words.{IsString}
use pintos_lab.Process.Arguments.{Stack, copy_tokens}
use pintos_lab.Process.Arguments.Frame.{AreWords}

-- The bytes that strings take, each with a 0 behind it.
unfoldable pub total : List (List ℕ) → ℕ
total [] = 0
total (w ∷ ws) = length w + 1 + total ws

-- Each address has its string.
abbrev pub HoldStrings : List ℕ → List (List ℕ) → Memory → Type 0
HoldStrings [] [] mem = Unit {0}
HoldStrings [] (w ∷ ws) mem = ⊥
HoldStrings (p ∷ ps) [] mem = ⊥
HoldStrings (p ∷ ps) (w ∷ ws) mem = IsString p w mem × HoldStrings ps ws mem

pub IsString-moved :
    (p q : ℕ) (w : List ℕ) (old new : Memory)
    → ((k : ℕ) → k < length w + 1 → new (q + k) ≡ old (p + k))
    → IsString p w old
    → IsString q w new
IsString-moved p q [] old new same st =
    ap new (omega arith) ∙ same 0 (omega arith) ∙ ap old (omega arith) ∙ st
IsString-moved p q (x ∷ w) old new same (pos, at, st) = (
  pos,
  ap new (omega arith) ∙ same 0 (omega arith) ∙ ap old (omega arith) ∙ at,
  IsString-moved (p + 1) (q + 1) w old new
      (λ k lt. ap new (omega arith) ∙ same (suc k) (omega (arith, lt)) ∙ ap old (omega arith)) st,
)

abbrev pub AreOver : ℕ → List ℕ → Type 0
AreOver low [] = Unit {0}
AreOver low (p ∷ ps) = (low ≤ p) × AreOver low ps

-- Where the strings go: one under the other, each with a 0 behind it, from `top` down.
abbrev pub places : ℕ → List (List ℕ) → List ℕ
places top [] = []
places top (w ∷ ws) = (top - (length w + 1)) ∷ places (top - (length w + 1)) ws

-- What the loop over the tokens leaves: the pointers to copies of the strings `ws`.
pub record IsCopiedOut (argv : List ℕ) (ws : List (List ℕ)) (c : ℕ) (s : Stack)
    (r : Option (List ℕ × Stack)) : Type 0 where
  pub pointers : List ℕ
  pub stack : Stack
  pub run : r ≡ some (argv ++ pointers, stack)
  pub held : HoldStrings pointers ws stack.memory
  pub words : AreWords pointers
  pub over : AreOver stack.esp pointers
  pub at : pointers ≡ places s.esp ws
  pub top : stack.esp + total ws ≡ s.esp
  pub same : (a : ℕ) → s.esp ≤ a → a < c → stack.memory a ≡ s.memory a

pub one_total : (w : List ℕ) (ws : List (List ℕ)) → ws ≡ [] → total (w ∷ ws) ≡ length w + 1
unfolding total
one_total w ws e = omega (arith, ap total e)

pub first_total : (w : List ℕ) (ws : List (List ℕ)) → total (w ∷ ws) ≡ length w + 1 + total ws
unfolding total
first_total w ws = refl

pub copy_end :
    (n m spaces save_ptr : ℕ) (argv : List ℕ) (s : Stack)
    → 0 < n
    → copy_tokens n m spaces 0 save_ptr argv s ≡ some (argv, s)
unfolding copy_tokens
copy_end zero m spaces save_ptr argv s lt = absurd (omega arith)
copy_end (suc n) m spaces save_ptr argv s lt = refl
