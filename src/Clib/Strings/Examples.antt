-- ===== src/Clib/Strings/Examples.antt =====
-- The string "hi" at 10, a block moved by one byte, and a buffer of two bytes.
use pintos_lab.Base.{ℕ, ◌⊎◌, List, [], ◌∷◌, ◌≡◌, inl, refl, some, ◌==◌, if◌then◌else◌, arith}
use pintos_lab.Clib.Strings.{strtok_r, Memory, memmove, strlcpy}
use pintos_lab.Clib.Strings.Blocks.{IsCopied, returned, memmove_lem}
use pintos_lab.Clib.Strings.Text.{IsText}
use pintos_lab.Clib.Strings.Words.{tokens}
use pintos_lab.Clib.Strings.Tokens.{FindsToken, strtok_r_lem}
use pintos_lab.Clib.Strings.Copies.{IsCut, strlcpy_lem}

abbrev memory : Memory
memory = λ a. if a == 10 then 104 else (if a == 11 then 105 else 0)

hi-IsText : IsText memory 10 2
hi-IsText = record { bytes = λ k lt. ground (arith, lt); ends = refl }

memmove_lem_example :
    (mem' : Memory) × (memmove 11 10 2 memory ≡ some (returned 11 10 2, mem'))
    × IsCopied 11 10 2 memory mem'
memmove_lem_example = memmove_lem 11 10 2 memory (omega arith) (omega arith)

strlcpy_lem_example :
    (mem' : Memory) × (strlcpy 9 30 10 2 memory ≡ some (2, mem')) × IsCut 30 10 2 2 memory mem'
strlcpy_lem_example =
    strlcpy_lem 9 30 10 2 2 memory (omega arith) (omega arith) (omega arith) hi-IsText (omega arith)
      (inl (omega arith))

-- "hi x" at 30, and the string of one space at 40.
abbrev line : Memory
line = λ a.
    if a == 30
    then 104
    else (if a == 31
        then 105
        else (if a == 32 then 32 else (if a == 33 then 120 else (if a == 40 then 32 else 0))))

abbrev hi_x : List ℕ
hi_x = 104 ∷ 105 ∷ 32 ∷ 120 ∷ []

hi_x-tokens : tokens hi_x ≡ (104 ∷ 105 ∷ []) ∷ (120 ∷ []) ∷ []
unfolding tokens
hi_x-tokens = refl

strtok_r_lem_example :
    ((tokens hi_x ≡ []) × (save_ptr : ℕ) × (strtok_r 5 30 40 0 line ≡ some (0, save_ptr, line)))
    ⊎ FindsToken 30 hi_x line (strtok_r 5 30 40 0 line)
strtok_r_lem_example =
    strtok_r_lem 5 30 40 hi_x line (omega arith) (omega arith, refl, refl)
      (omega arith, refl, (omega arith, refl, (omega arith, refl, (omega arith, refl, refl))))
      (omega arith) 30 0 (omega arith) refl
