-- ===== src/Process/Arguments/Rounds.antt =====
-- The rounds of the loop that copies the arguments to the stack.
use mathlib.Core.List.{append_assoc}
use pintos_lab.Base.{
  ℕ, zero, suc, ◌+◌, ◌-◌, ◌^◌, ◌≤◌, ◌<◌, ◌≡◌, ◌⊎◌, refl, sym, ap, ◌∙◌, subst, List, [], ◌∷◌, ◌++◌,
  ltb, ◌==◌, arith, inl, inr, length, length-append, true, false, Option, some,
}
use pintos_lab.Clib.Strings.{Memory, memcpy, strtok_r}
use pintos_lab.Clib.Strings.Blocks.{IsCopied, memcpy_lem}
use pintos_lab.Clib.Strings.Text.{strlen_lem}
use pintos_lab.Clib.Strings.Words.{IsString, IsString-same, IsSpace, tokens, IsString-IsText}
use pintos_lab.Clib.Strings.Tokens.{FindsToken, strtok_r_lem}
use pintos_lab.Process.Arguments.{Stack, below, copy_tokens}
use pintos_lab.Process.Arguments.Strings.{
  places, IsString-moved, total, one_total, first_total, copy_end, HoldStrings, IsCopiedOut,
}

-- The state of a round: the token `w`, the rest of the command line up to `hi`, both from `c` on,
-- and the stack under `c`.
pub record IsReady (n m spaces token save_ptr c hi : ℕ) (w cs : List ℕ) (argv : List ℕ) (s : Stack)
    : Type 0 where
  pub esp_word : s.esp < 2 ^ 32
  pub esp_below : s.esp ≤ c
  pub esp_spaces : s.esp ≤ spaces
  pub token_in : c ≤ token
  pub rest_in : c ≤ save_ptr
  pub rest_ends : save_ptr + length cs ≡ hi
  pub apart : (spaces + 1 < c) ⊎ (hi < spaces)
  pub space : IsSpace spaces s.memory
  pub token_string : IsString token w s.memory
  pub rest_string : IsString save_ptr cs s.memory
  pub token_fuel : length w < m
  pub rest_fuel : length cs < m
  pub least_fuel : 2 ≤ m
  pub rounds : length cs + 1 < n
  pub few : length argv + suc (length (tokens cs)) < 50
  pub room : total (w ∷ tokens cs) < s.esp

module _ (m spaces token save_ptr c hi : ℕ) (w cs argv : List ℕ) (s : Stack) where
  -- The new stack pointer of a round.
  abbrev esp : ℕ
  esp = below s.esp (length w + 1)

  module _ (n : ℕ) (ready : IsReady (suc n) m spaces token save_ptr c hi w cs argv s) where
    esp_lem : esp + (length w + 1) ≡ s.esp
    unfolding total
    esp_lem = omega (arith, ready.room, ready.esp_word)

    esp_at : esp ≡ s.esp - (length w + 1)
    esp_at = omega (arith, esp_lem)

    copy :
        (mid : Memory) × (memcpy esp token (length w + 1) s.memory ≡ some (esp, mid))
        × IsCopied esp token (length w + 1) s.memory mid
    unfolding total
    copy =
        memcpy_lem esp token (length w + 1) s.memory (omega (arith, esp_lem, ready.room))
          (omega (arith, ready.room, ready.esp_below, ready.token_in))
          (inr (omega (arith, esp_lem, ready.esp_below, ready.token_in)))

    abbrev mid : Memory
    mid = copy.0

    copied_string : IsString esp w mid
    copied_string = IsString-moved token esp w s.memory mid copy.2.inside ready.token_string

    above : (a : ℕ) → s.esp ≤ a → mid a ≡ s.memory a
    above a le = copy.2.outside a (inr (omega (arith, esp_lem, le)))

    next-IsReady :
        (r : Option (ℕ × ℕ × Memory)) (f : FindsToken save_ptr cs mid r)
        → IsReady n m spaces f.token f.save_ptr c hi f.w f.rest
            (argv ++ esp ∷ [])
            (record { esp = esp; memory = f.memory })
    unfolding total
    next-IsReady r f =
        let count : length (tokens cs) ≡ suc (length (tokens f.rest)) =
          ap (λ (x : List (List ℕ)). length x) f.first in
        let size : total (tokens cs) ≡ total (f.w ∷ tokens f.rest) = ap total f.first in
        let kept : (a : ℕ) → s.esp ≤ a → (a < c) ⊎ (hi < a) → f.memory a ≡ s.memory a =
          λ a le o. f.same a (ground (arith, o, ready.rest_in, ready.rest_ends)) ∙ above a le in
        record {
          esp_word = omega (arith, esp_lem, ready.esp_word);
          esp_below = omega (arith, esp_lem, ready.esp_below);
          esp_spaces = omega (arith, esp_lem, ready.esp_spaces);
          token_in = omega (arith, f.after_start, ready.rest_in);
          rest_in = omega (arith, f.ends, f.shorter, ready.rest_in);
          rest_ends = omega (arith, f.ends, ready.rest_ends);
          apart = ready.apart;
          space = (
            ready.space.0,
            kept spaces ready.esp_spaces (ground (arith, ready.apart)) ∙ ready.space.1,
            kept (spaces + 1) (omega (arith, ready.esp_spaces)) (ground (arith, ready.apart))
                ∙ ready.space.2,
          );
          token_string = f.token_string;
          rest_string = f.rest_string;
          token_fuel = omega (arith, f.not_longer, ready.rest_fuel);
          rest_fuel = omega (arith, f.shorter, ready.rest_fuel);
          least_fuel = ready.least_fuel;
          rounds = omega (arith, f.shorter, ready.rounds);
          few = omega (arith, count, length-append argv (esp ∷ []), ready.few);
          room = omega (arith, size, esp_lem, ready.room);
        }

    found :
        ((tokens cs ≡ []) × (save' : ℕ) × (strtok_r m 0 spaces save_ptr mid ≡ some (0, save', mid)))
        ⊎ FindsToken save_ptr cs mid (strtok_r m 0 spaces save_ptr mid)
    found =
        let space : IsSpace spaces mid = (
          ready.space.0,
          above spaces ready.esp_spaces ∙ ready.space.1,
          above (spaces + 1) (omega (arith, ready.esp_spaces)) ∙ ready.space.2,
        ) in
        let string =
          IsString-same save_ptr cs s.memory mid
            (λ a lo hi. above a (omega (arith, lo, ready.rest_in, ready.esp_below)))
            ready.rest_string in
        strtok_r_lem m save_ptr spaces cs mid ready.least_fuel space string ready.rest_fuel 0
          save_ptr (omega (arith, ready.room, ready.esp_below, ready.rest_in)) refl

    -- A round runs as far as the call of `strtok_r`.
    round_run :
        (token' save' : ℕ) (mem' : Memory)
        → strtok_r m 0 spaces save_ptr mid ≡ some (token', save', mem')
        → copy_tokens (suc n) m spaces token save_ptr argv s
          ≡ copy_tokens n m spaces token' save'
              (argv ++ esp ∷ [])
              (record { esp = esp; memory = mem' })
    unfolding copy_tokens
    round_run token' save' mem' tok =
        let here : (token == 0) ≡ false =
          ground (arith, ready.room, ready.esp_below, ready.token_in) in
        let text = IsString-IsText token w s.memory ready.token_string in
        let len =
          strlen_lem m token (length w) s.memory (ground (arith, here)) text ready.token_fuel in
        let few : ltb (length argv) 50 ≡ true = ground (arith, ready.few) in
        rw (here, len, copy.1, few, tok) refl

    one_left :
        (save' : ℕ)
        → tokens cs ≡ []
        → strtok_r m 0 spaces save_ptr mid ≡ some (0, save', mid)
        → IsCopiedOut argv (w ∷ tokens cs) c s (copy_tokens (suc n) m spaces token save_ptr argv s)
    one_left save' e tok =
        let size : total (w ∷ tokens cs) ≡ length w + 1 = one_total w (tokens cs) e in
        record {
          pointers = esp ∷ [];
          stack = record { esp = esp; memory = mid };
          run =
              round_run 0 save' mid tok
              ∙ copy_end n m spaces save' (argv ++ esp ∷ []) _ (omega (arith, ready.rounds));
          held = subst (λ ws. HoldStrings (esp ∷ []) (w ∷ ws) mid) (sym e) (copied_string, tt);
          words = (omega (arith, esp_lem, ready.esp_word), tt);
          over = (omega arith, tt);
          at = ap (λ p. p ∷ []) esp_at ∙ ap (λ ws. places s.esp (w ∷ ws)) (sym e);
          top = omega (arith, size, esp_lem);
          same = λ a lo hi. above a lo;
        }

    more_left :
        (f : FindsToken save_ptr cs mid (strtok_r m 0 spaces save_ptr mid))
        → IsCopiedOut
            (argv ++ esp ∷ [])
            (f.w ∷ tokens f.rest)
            c
            (record { esp = esp; memory = f.memory })
            (copy_tokens n m spaces f.token f.save_ptr
              (argv ++ esp ∷ [])
              (record { esp = esp; memory = f.memory }))
        → IsCopiedOut argv (w ∷ tokens cs) c s (copy_tokens (suc n) m spaces token save_ptr argv s)
    more_left f out =
        let all : total (tokens cs) ≡ total (f.w ∷ tokens f.rest) = ap total f.first in
        let under : (a : ℕ) → esp ≤ a → a < c → out.stack.memory a ≡ mid a =
          λ a lo hi. out.same a lo hi ∙ f.same a (inl (omega (arith, hi, ready.rest_in))) in
        record {
          pointers = esp ∷ out.pointers;
          stack = out.stack;
          run =
              round_run f.token f.save_ptr f.memory f.run
              ∙ out.run
              ∙ ap (λ x. some (x, out.stack)) (append_assoc argv (esp ∷ []) out.pointers);
          held =
              subst (λ ws. HoldStrings (esp ∷ out.pointers) (w ∷ ws) out.stack.memory) (sym f.first)
                (
                  IsString-same esp w mid out.stack.memory
                      (λ a lo hi. under a lo (omega (arith, hi, esp_lem, ready.esp_below)))
                      copied_string,
                  out.held,
                );
          words = (omega (arith, esp_lem, ready.esp_word), out.words);
          over = (omega (arith, out.top), out.over);
          at =
              ap (λ ps. esp ∷ ps) out.at
              ∙ ap (λ p. p ∷ places p (f.w ∷ tokens f.rest)) esp_at
              ∙ ap (λ ws. places s.esp (w ∷ ws)) (sym f.first);
          top = omega (arith, all, first_total w (tokens cs), out.top, esp_lem);
          same = λ a lo hi. under a (omega (arith, lo, esp_lem)) hi ∙ above a lo;
        }

-- The loop over the tokens ends, given more rounds than the rest of the command line has bytes and
-- one, and each string of the command line is copied.
pub copy_tokens-IsCopiedOut :
    (n m spaces token save_ptr c hi : ℕ) (w cs argv : List ℕ) (s : Stack)
    → IsReady n m spaces token save_ptr c hi w cs argv s
    → IsCopiedOut argv (w ∷ tokens cs) c s (copy_tokens n m spaces token save_ptr argv s)
copy_tokens-IsCopiedOut zero m spaces token save_ptr c hi w cs argv s ready =
    absurd (omega (arith, ready.rounds))
copy_tokens-IsCopiedOut (suc n) m spaces token save_ptr c hi w cs argv s ready =
    elim (found m spaces token save_ptr c hi w cs argv s n ready) [
      | inl (e, save', tok) ↦ one_left m spaces token save_ptr c hi w cs argv s n ready save' e tok
      | inr f ↦ more_left m spaces token save_ptr c hi w cs argv s n ready f (
          copy_tokens-IsCopiedOut n m spaces f.token f.save_ptr c hi f.w f.rest _ _
            (next-IsReady m spaces token save_ptr c hi w cs argv s n ready _ f))
    ]
