-- ===== src/Clib/Strings/Words.antt =====
-- The words of a string between spaces: a specification of its tokens, and its parts in memory.
use pintos_lab.Base.{
  ℕ, ◌+◌, ◌-◌, ◌≤◌, ◌<◌, ◌≡◌, ◌⊎◌, refl, ap, ◌∙◌, subst, List, [], ◌∷◌, ◌==◌, if◌then◌else◌, arith,
  inl, inr, length, Bool-cases, Bool, true, false, not,
}
use pintos_lab.Clib.Strings.{Memory}
use pintos_lab.Clib.Strings.Text.{IsText}

-- The bytes of a string, at an address.
abbrev pub IsString : ℕ → List ℕ → Memory → Type 0
IsString p [] mem = mem p ≡ 0
IsString p (c ∷ cs) mem = (0 < c) × (mem p ≡ c) × IsString (p + 1) cs mem

-- The string of one space.
abbrev pub IsSpace : ℕ → Memory → Type 0
IsSpace spaces mem = (0 < spaces) × (mem spaces ≡ 32) × (mem (spaces + 1) ≡ 0)

-- The words between spaces.
abbrev pub starts_word : List ℕ → Bool
starts_word [] = false
starts_word (c ∷ cs) = not (c == 32)

abbrev pub add_front : ℕ → List (List ℕ) → List (List ℕ)
add_front c [] = (c ∷ []) ∷ []
add_front c (w ∷ ws) = (c ∷ w) ∷ ws

unfoldable pub tokens : List ℕ → List (List ℕ)
tokens [] = []
tokens (c ∷ cs) =
    let rest = tokens cs in
    if c == 32 then rest else (if starts_word cs then add_front c rest else (c ∷ []) ∷ rest)

-- The spaces in front, what is behind them, the first word and what is behind that.
unfoldable pub lead : List ℕ → ℕ
lead [] = 0
lead (c ∷ cs) = if c == 32 then lead cs + 1 else 0

unfoldable pub trim : List ℕ → List ℕ
trim [] = []
trim (c ∷ cs) = if c == 32 then trim cs else c ∷ cs

unfoldable pub word : List ℕ → List ℕ
word [] = []
word (c ∷ cs) = if c == 32 then [] else c ∷ word cs

unfoldable pub after : List ℕ → List ℕ
after [] = []
after (c ∷ cs) = if c == 32 then c ∷ cs else after cs

abbrev pub is_nil : List ℕ → Bool
is_nil [] = true
is_nil (c ∷ cs) = false

pub trim-IsString :
    (p : ℕ) (cs : List ℕ) (mem : Memory) → IsString p cs mem → IsString (p + lead cs) (trim cs) mem
unfolding lead trim
trim-IsString p [] mem st = ap mem (omega arith) ∙ st
trim-IsString p (c ∷ cs) mem (pos, at, st) = elim (Bool-cases (c == 32)) [
  | inl e ↦
      rw e (subst (λ q. IsString q (trim cs) mem) (omega arith) (trim-IsString (p + 1) cs mem st))
  | inr e ↦ rw e (subst (λ q. IsString q (c ∷ cs) mem) (omega arith) (pos, at, st))
]

pub tokens-trim : (cs : List ℕ) → tokens (trim cs) ≡ tokens cs
unfolding tokens trim
tokens-trim [] = refl
tokens-trim (c ∷ cs) = ground (arith, tokens-trim cs)

pub trim-starts : (cs : List ℕ) → starts_word (trim cs) ≡ not (is_nil (trim cs))
unfolding trim
trim-starts [] = refl
trim-starts (c ∷ cs) = elim (Bool-cases (c == 32)) [
  | inl e ↦ rw e (trim-starts cs)
  | inr e ↦ rw (e, e) refl
]

pub length-trim : (cs : List ℕ) → lead cs + length (trim cs) ≡ length cs
unfolding lead trim
length-trim [] = omega arith
length-trim (c ∷ cs) = ground (arith, length-trim cs)

pub length-word : (cs : List ℕ) → length (word cs) + length (after cs) ≡ length cs
unfolding word after
length-word [] = omega arith
length-word (c ∷ cs) = ground (arith, length-word cs)

pub tokens_word : (cs : List ℕ) → starts_word cs ≡ true → tokens cs ≡ word cs ∷ tokens (after cs)
unfolding tokens word after
tokens_word [] s = absurd (ground (arith, s))
tokens_word (c ∷ []) s = ground (arith, s)
tokens_word (c ∷ d ∷ cs) s = elim (Bool-cases (d == 32)) [
  | inl e ↦ ground (arith, s, e)
  | inr e ↦ (let ih = tokens_word (d ∷ cs) (ap not e) in ground (arith, s, e, ap (add_front c) ih))
]

pub IsString-same :
    (p : ℕ) (cs : List ℕ) (old new : Memory)
    → ((a : ℕ) → p ≤ a → a ≤ p + length cs → new a ≡ old a)
    → IsString p cs old
    → IsString p cs new
IsString-same p [] old new same st = same p (omega arith) (omega arith) ∙ st
IsString-same p (c ∷ cs) old new same (pos, at, st) = (
  pos,
  same p (omega arith) (omega arith) ∙ at,
  IsString-same (p + 1) cs old new (λ a lo hi. same a (omega (arith, lo)) (omega (arith, hi))) st,
)

pub after-IsString :
    (p : ℕ) (cs : List ℕ) (mem : Memory)
    → IsString p cs mem
    → IsString (p + length (word cs)) (after cs) mem
unfolding word after
after-IsString p [] mem st = ap mem (omega arith) ∙ st
after-IsString p (c ∷ cs) mem (pos, at, st) = elim (Bool-cases (c == 32)) [
  | inl e ↦ rw e (subst (λ q. IsString q (c ∷ cs) mem) (omega arith) (pos, at, st))
  | inr e ↦
      rw e (subst (λ q. IsString q (after cs) mem) (omega arith) (after-IsString (p + 1) cs mem st))
]

pub word-IsString :
    (p : ℕ) (cs : List ℕ) (old new : Memory)
    → ((a : ℕ) → p ≤ a → a < p + length (word cs) → new a ≡ old a)
    → new (p + length (word cs)) ≡ 0
    → IsString p cs old
    → IsString p (word cs) new
unfolding word
word-IsString p [] old new = λ same ends st. ap new (omega arith) ∙ ends
word-IsString p (c ∷ cs) old new = elim (Bool-cases (c == 32)) [
  | inl e ↦ rw e (λ same ends st. ap new (omega arith) ∙ ends)
  | inr e ↦ rw e (λ same ends (pos, at, st). (
    pos,
    same p (omega arith) (omega arith) ∙ at,
    word-IsString (p + 1) cs old new (λ a lo hi. same a (omega (arith, lo)) (omega (arith, hi)))
        (ap new (omega arith) ∙ ends) st,
  ))
]

pub IsString-IsText :
    (p : ℕ) (cs : List ℕ) (mem : Memory) → IsString p cs mem → IsText mem p (length cs)
IsString-IsText p [] mem st = record {
  bytes = λ k lt. absurd (omega (arith, lt));
  ends = ap mem (omega arith) ∙ st;
}
IsString-IsText p (c ∷ cs) mem (pos, at, st) =
    let rest = IsString-IsText (p + 1) cs mem st in
    record {
      bytes = λ k lt z. elim (Bool-cases (k == 0)) [
        | inl e ↦
            (let here : p ≡ p + k = ground (arith, e) in
              absurd (omega (arith, pos, at, ap mem here, z)))
        | inr e ↦ rest.bytes (k - 1) (ground (arith, e, lt)) (ap mem (ground (arith, e)) ∙ z)
      ];
      ends = ap mem (omega arith) ∙ rest.ends;
    }

pub after-cases : (cs : List ℕ) → (after cs ≡ []) ⊎ ((rest : List ℕ) × (after cs ≡ 32 ∷ rest))
unfolding after
after-cases [] = inl refl
after-cases (c ∷ cs) = elim (Bool-cases (c == 32)) [
  | inl e ↦ rw e (inr (cs, ap (λ (x : ℕ). x ∷ cs) (ground (arith, e))))
  | inr e ↦ rw e (after-cases cs)
]

pub no_tokens : (cs : List ℕ) → is_nil cs ≡ true → tokens cs ≡ []
unfolding tokens
no_tokens [] e = refl
no_tokens (c ∷ cs) e = absurd (ground (arith, e))

pub tokens_space : (w : List ℕ) (more : List ℕ) → w ∷ tokens (32 ∷ more) ≡ w ∷ tokens more
unfolding tokens
tokens_space w more = refl

pub word_starts : (cs : List ℕ) → starts_word cs ≡ true → 0 < length (word cs)
unfolding word
word_starts [] s = absurd (ground (arith, s))
word_starts (c ∷ cs) s = ground (arith, s)
