-- ===== src/Clib/Strings/Tokens.antt =====
-- What `strtok_r` makes of it.
use pintos_lab.Base.{
  ℕ, zero, suc, ◌+◌, ◌≤◌, ◌<◌, ◌≡◌, ◌⊎◌, refl, sym, ap, ◌∙◌, subst, List, [], ◌∷◌, ◌==◌,
  if◌then◌else◌, arith, inl, inr, length, Bool-cases, true, false, not, Option, some,
}
use pintos_lab.Clib.Strings.{Memory, store, strchr, strchr_loop, skip_loop, token_loop, strtok_r}
use pintos_lab.Clib.Strings.Blocks.{store-other, store-same}
use pintos_lab.Clib.Strings.Words.{
  IsString, IsSpace, starts_word, tokens, lead, trim, word, after, is_nil, trim-IsString,
  tokens-trim, trim-starts, length-trim, length-word, tokens_word, IsString-same, after-IsString,
  word-IsString, after-cases, no_tokens, tokens_space, word_starts,
}

strchr_space :
    (m spaces c : ℕ) (mem : Memory)
    → IsSpace spaces mem
    → 2 ≤ m
    → strchr m spaces c mem ≡ some (if c == 32 then spaces else (if c == 0 then spaces + 1 else 0))
unfolding strchr strchr_loop
strchr_space zero spaces c mem sp le = absurd (omega arith)
strchr_space (suc zero) spaces c mem sp le = absurd (omega arith)
strchr_space (suc (suc m)) spaces c mem (p, a, b) le = ground (arith, p, a, b)

module _ (m spaces : ℕ) (le : 2 ≤ m) where
  skip_loop_lem :
      (n p : ℕ) (cs : List ℕ) (mem : Memory)
      → IsSpace spaces mem
      → IsString p cs mem
      → length cs < n
      → skip_loop n m p spaces mem ≡ some (p + lead cs, is_nil (trim cs))
  unfolding skip_loop lead trim
  skip_loop_lem zero p cs mem sp st lt = absurd (omega arith)
  skip_loop_lem (suc n) p [] mem sp st lt =
      rw (strchr_space m spaces (mem p) mem sp le) (ground (arith, st, sp))
  skip_loop_lem (suc n) p (c ∷ cs) mem sp (pos, at, st) lt =
      let rest = skip_loop_lem n (p + 1) cs mem sp st (omega (arith, lt)) in
      rw (strchr_space m spaces (mem p) mem sp le) (ground (arith, at, pos, sp, rest))

  token_loop_lem :
      (n p : ℕ) (cs : List ℕ) (mem : Memory)
      → IsSpace spaces mem
      → IsString p cs mem
      → length cs < n
      → token_loop n m p spaces mem ≡ some (p + length (word cs))
  unfolding token_loop word
  token_loop_lem zero p cs mem sp st lt = absurd (omega arith)
  token_loop_lem (suc n) p [] mem sp st lt =
      rw (strchr_space m spaces (mem p) mem sp le) (ground (arith, st, sp))
  token_loop_lem (suc n) p (c ∷ cs) mem sp (pos, at, st) lt =
      let rest = token_loop_lem n (p + 1) cs mem sp st (omega (arith, lt)) in
      rw (strchr_space m spaces (mem p) mem sp le) (ground (arith, at, pos, sp, rest))

-- A call of `strtok_r` that finds a token of the string at `start`: the token `w`, and the rest of
-- the string for the next call.
pub record FindsToken (start : ℕ) (cs : List ℕ) (old : Memory) (r : Option (ℕ × ℕ × Memory))
    : Type 0 where
  pub token : ℕ
  pub save_ptr : ℕ
  pub memory : Memory
  pub w : List ℕ
  pub rest : List ℕ
  pub run : r ≡ some (token, save_ptr, memory)
  pub first : tokens cs ≡ w ∷ tokens rest
  pub token_string : IsString token w memory
  pub rest_string : IsString save_ptr rest memory
  pub after_start : start ≤ token
  pub ends : save_ptr + length rest ≡ start + length cs
  pub shorter : length rest < length cs
  pub not_longer : length w ≤ length cs
  pub same : (a : ℕ) → (a < start) ⊎ (start + length cs < a) → memory a ≡ old a

module _ (n start spaces : ℕ) (cs : List ℕ) (mem : Memory) (le : 2 ≤ n) (sp : IsSpace spaces mem)
    (st : IsString start cs mem) (lt : length cs < n) where
  abbrev at : ℕ
  at = start + lead cs

  abbrev end : ℕ
  end = at + length (word (trim cs))

  here : IsString at (trim cs) mem
  here = trim-IsString start cs mem st

  token_end : starts_word (trim cs) ≡ true → token_loop n n at spaces mem ≡ some end
  token_end s =
      token_loop_lem n spaces le n at (trim cs) mem sp here (omega (arith, length-trim cs, lt))

  behind : IsString end (after (trim cs)) mem
  behind = after-IsString at (trim cs) mem here

  first_token : starts_word (trim cs) ≡ true → tokens cs ≡ word (trim cs) ∷ tokens (after (trim cs))
  first_token sw = sym (tokens-trim cs) ∙ tokens_word (trim cs) sw

  last_token :
      (r : Option (ℕ × ℕ × Memory))
      → starts_word (trim cs) ≡ true
      → after (trim cs) ≡ []
      → r ≡ some (at, end, mem)
      → FindsToken start cs mem r
  last_token r sw e run =
      let z : mem end ≡ 0 = subst (λ x. IsString end x mem) e behind in
      let len : length (after (trim cs)) ≡ 0 = ap (λ (x : List ℕ). length x) e in
      let pos = word_starts (trim cs) sw in
      record {
        token = at;
        save_ptr = end;
        memory = mem;
        w = word (trim cs);
        rest = [];
        run = run;
        first = first_token sw ∙ ap (λ x. word (trim cs) ∷ tokens x) e;
        token_string = word-IsString at (trim cs) mem mem (λ a lo hi. refl) z here;
        rest_string = z;
        after_start = omega arith;
        ends = omega (arith, len, length-trim cs, length-word (trim cs));
        shorter = omega (arith, pos, length-trim cs, length-word (trim cs));
        not_longer = omega (arith, length-trim cs, length-word (trim cs));
        same = λ a o. refl;
      }

  inner_token :
      (r : Option (ℕ × ℕ × Memory)) (more : List ℕ)
      → starts_word (trim cs) ≡ true
      → after (trim cs) ≡ 32 ∷ more
      → r ≡ some (at, end + 1, store end 0 mem)
      → FindsToken start cs mem r
  inner_token r more sw e run =
      let z = subst (λ x. IsString end x mem) e behind in
      let len : length (after (trim cs)) ≡ suc (length more) = ap (λ (x : List ℕ). length x) e in
      let fits : end + suc (length more) ≡ start + length cs =
        omega (arith, len, length-trim cs, length-word (trim cs)) in
      let other : (a : ℕ) → (a < end) ⊎ (end < a) → store end 0 mem a ≡ mem a =
        λ a o. store-other end a 0 mem o in
      record {
        token = at;
        save_ptr = end + 1;
        memory = store end 0 mem;
        w = word (trim cs);
        rest = more;
        run = run;
        first =
            first_token sw
            ∙ ap (λ x. word (trim cs) ∷ tokens x) e
            ∙ tokens_space (word (trim cs)) more;
        token_string =
            word-IsString at (trim cs) mem (store end 0 mem) (λ a lo hi. other a (inl hi))
              (store-same end 0 mem) here;
        rest_string =
            IsString-same (end + 1) more mem (store end 0 mem)
              (λ a lo hi. other a (inr (omega (arith, lo)))) z.2;
        after_start = omega arith;
        ends = omega (arith, fits);
        shorter = omega (arith, fits);
        not_longer = omega (arith, length-trim cs, length-word (trim cs));
        same = λ a o. other a (ground (arith, o, fits));
      }

  -- `strtok_r` of a string that starts at its argument or, where that is NULL, at the saved
  -- pointer, with more fuel than the string has bytes and at least two, and the delimiters a
  -- string of one space: either the string has no token, and `strtok_r` returns NULL and leaves
  -- memory as it is; or it returns the first token, which is ended by a 0 in place of a space, and
  -- the saved pointer is at a string of the other tokens.
  pub strtok_r_lem :
      (s ptr : ℕ)
      → 0 < start
      → (if s == 0 then ptr else s) ≡ start
      → ((tokens cs ≡ [])
          × (save_ptr : ℕ) × (strtok_r n s spaces ptr mem ≡ some (0, save_ptr, mem)))
        ⊎ FindsToken start cs mem (strtok_r n s spaces ptr mem)
  unfolding strtok_r
  strtok_r_lem s ptr pos from =
      let skip = skip_loop_lem n spaces le n start cs mem sp st lt in
      let pos' : (start == 0) ≡ false = ground (arith, pos) in
      let sp' : (spaces == 0) ≡ false = ground (arith, sp) in
      let starts = trim-starts cs in
      elim (Bool-cases (is_nil (trim cs))) [
        | inl e ↦
            inl
              (sym (tokens-trim cs) ∙ no_tokens (trim cs) e, at, rw (sp', from, pos', skip, e) refl)
        | inr e ↦
            (let sw = starts ∙ ap not e in
              elim (after-cases (trim cs)) [
                | inl none_left ↦
                    (let z : mem end ≡ 0 = subst (λ x. IsString end x mem) none_left behind in
                      inr (
                        last_token (strtok_r n s spaces ptr mem) sw none_left
                          (rw (sp', from, pos', skip, e, token_end sw, z) refl)))
                | inr (more, left) ↦
                    (let z : mem end ≡ 32 = (subst (λ x. IsString end x mem) left behind).1 in
                      inr (
                        inner_token (strtok_r n s spaces ptr mem) more sw left
                          (rw (sp', from, pos', skip, e, token_end sw, z) refl)))
              ])
      ]
