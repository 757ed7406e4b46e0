-- ===== src/Process/Arguments/Push.antt =====
-- `push_argument` from the command line to the frame.
use pintos_lab.Base.{
  ℕ, suc, ◌+◌, ◌*◌, ◌^◌, ◌≤◌, ◌<◌, ◌≡◌, ◌⊎◌, refl, ap, ◌∙◌, List, [], ◌∷◌, ltb, arith, inl, inr,
  length, true, Option, some, assert, ◌>>=◌, ◌>>◌, bind_assoc,
}
use pintos_lab.Clib.Strings.{Memory, strtok_r}
use pintos_lab.Clib.Strings.Words.{IsString, IsString-same, IsSpace, tokens}
use pintos_lab.Clib.Strings.Tokens.{FindsToken, strtok_r_lem}
use pintos_lab.Process.Arguments.{Stack, copy_tokens, push_argument, push_frame}
use pintos_lab.Process.Arguments.Frame.{IsFrame, push_frame-IsFrame}
use pintos_lab.Process.Arguments.Strings.{
  places, total, copy_end, AreOver, HoldStrings, IsCopiedOut,
}
use pintos_lab.Process.Arguments.Rounds.{IsReady, copy_tokens-IsCopiedOut}

HoldStrings-length :
    (ps : List ℕ) (ws : List (List ℕ)) (mem : Memory)
    → HoldStrings ps ws mem
    → length ps ≡ length ws
HoldStrings-length [] [] mem h = refl
HoldStrings-length [] (w ∷ ws) mem h = elim h [ ]
HoldStrings-length (p ∷ ps) [] mem h = elim h [ ]
HoldStrings-length (p ∷ ps) (w ∷ ws) mem (x, h) = ap suc (HoldStrings-length ps ws mem h)

HoldStrings-same :
    (low : ℕ) (ps : List ℕ) (ws : List (List ℕ)) (old new : Memory)
    → ((a : ℕ) → low ≤ a → new a ≡ old a)
    → AreOver low ps
    → HoldStrings ps ws old
    → HoldStrings ps ws new
HoldStrings-same low [] [] old new same over h = tt
HoldStrings-same low [] (w ∷ ws) old new same over h = elim h [ ]
HoldStrings-same low (p ∷ ps) [] old new same over h = elim h [ ]
HoldStrings-same low (p ∷ ps) (w ∷ ws) old new same (le, over) (x, h) = (
  IsString-same p w old new (λ a lo hi. same a (omega (arith, lo, le))) x,
  HoldStrings-same low ps ws old new same over h,
)

no_total : total [] ≡ 0
unfolding total
no_total = refl

-- The stack of a program: the strings of its arguments, under them the frame.
pub record HasArguments (ws : List (List ℕ)) (s : Stack) (r : Option Stack) : Type 0 where
  pub argv : List ℕ
  pub strings : Stack
  pub stack : Stack
  pub run : r ≡ some stack
  pub held : HoldStrings argv ws stack.memory
  pub top : strings.esp + total ws ≡ s.esp
  pub at : argv ≡ places s.esp ws
  pub frame : IsFrame argv strings stack

module _ (n spaces cmdline : ℕ) (cs : List ℕ) (s : Stack) where
  -- A command line and a string of one space above the stack, apart from each other, with room for
  -- the strings and the frame.
  record IsCall : Type 0 where
    esp_word : s.esp < 2 ^ 32
    esp_below : s.esp ≤ cmdline
    esp_spaces : s.esp ≤ spaces
    apart : (spaces + 1 < cmdline) ⊎ (cmdline + length cs < spaces)
    space : IsSpace spaces s.memory
    string : IsString cmdline cs s.memory
    fuel : length cs + 2 < n
    few : length (tokens cs) < 50
    room : total (tokens cs) + 4 * length (tokens cs) + 19 < s.esp

  module _ (call : IsCall) where
    first_call :
        ((tokens cs ≡ [])
          × (save' : ℕ) × (strtok_r n cmdline spaces 0 s.memory ≡ some (0, save', s.memory)))
        ⊎ FindsToken cmdline cs s.memory (strtok_r n cmdline spaces 0 s.memory)
    first_call =
        let pos : 0 < cmdline = omega (arith, call.room, call.esp_below) in
        strtok_r_lem n cmdline spaces cs s.memory (omega (arith, call.fuel)) call.space call.string
          (omega (arith, call.fuel)) cmdline 0 pos (ground (arith, pos))

    first-IsReady :
        (f : FindsToken cmdline cs s.memory (strtok_r n cmdline spaces 0 s.memory))
        → IsReady n n spaces f.token f.save_ptr cmdline
            (cmdline + length cs)
            f.w
            f.rest
            []
            (record s { memory = f.memory })
    first-IsReady f =
        let count : length (tokens cs) ≡ suc (length (tokens f.rest)) =
          ap (λ (x : List (List ℕ)). length x) f.first in
        let size : total (tokens cs) ≡ total (f.w ∷ tokens f.rest) = ap total f.first in
        record {
          esp_word = call.esp_word;
          esp_below = call.esp_below;
          esp_spaces = call.esp_spaces;
          token_in = f.after_start;
          rest_in = omega (arith, f.ends, f.shorter);
          rest_ends = f.ends;
          apart = call.apart;
          space = (
            call.space.0,
            f.same spaces (ground (arith, call.apart)) ∙ call.space.1,
            f.same (spaces + 1) (ground (arith, call.apart)) ∙ call.space.2,
          );
          token_string = f.token_string;
          rest_string = f.rest_string;
          token_fuel = omega (arith, f.not_longer, call.fuel);
          rest_fuel = omega (arith, f.shorter, call.fuel);
          least_fuel = omega (arith, call.fuel);
          rounds = omega (arith, f.shorter, call.fuel);
          few = omega (arith, count, call.few);
          room = omega (arith, size, call.room);
        }

    copied_out : IsCopiedOut [] (tokens cs) cmdline s (do
      (token, save_ptr, memory) ← strtok_r n cmdline spaces 0 s.memory
      copy_tokens n n spaces token save_ptr [] (record s { memory = memory }))
    copied_out = elim first_call [
      | inl (e, save', tok) ↦
          rw (tok, e)
            (record {
              pointers = [];
              stack = s;
              run = copy_end n n spaces save' [] s (omega (arith, call.fuel));
              held = tt;
              words = tt;
              over = tt;
              at = refl;
              top = omega (arith, no_total);
              same = λ a lo hi. refl;
            })
      | inr f ↦
          (let out =
              copy_tokens-IsCopiedOut n n spaces f.token f.save_ptr cmdline (cmdline + length cs)
                f.w f.rest [] (record s { memory = f.memory }) (first-IsReady f) in
            rw (f.run, f.first)
              (record {
                pointers = out.pointers;
                stack = out.stack;
                run = out.run;
                held = out.held;
                words = out.words;
                over = out.over;
                at = out.at;
                top = out.top;
                same = λ a lo hi. out.same a lo hi ∙ f.same a (inl hi);
              }))
    ]

    pushed : HasArguments (tokens cs) s (push_argument n spaces cmdline s)
    unfolding push_argument
    pushed =
        let out = copied_out in
        let count = HoldStrings-length out.pointers (tokens cs) out.stack.memory out.held in
        let few : ltb (length out.pointers) 50 ≡ true = ground (arith, count, call.few) in
        let frame =
          push_frame-IsFrame out.pointers out.stack out.words
            (omega (arith, out.top, call.esp_word)) (omega (arith, out.top, count, call.room)) in
        record {
          argv = out.pointers;
          strings = out.stack;
          stack = push_frame out.pointers out.stack;
          run =
              bind_assoc (strtok_r n cmdline spaces 0 s.memory)
                (λ x. copy_tokens n n spaces x.0 x.1 [] (record s { memory = x.2 }))
                (λ x. do assert (ltb (length x.0) 50); some (push_frame x.0 x.1))
              ∙ ap (λ r. r >>= (λ x. do assert (ltb (length x.0) 50); some (push_frame x.0 x.1)))
                  out.run
              ∙ rw few refl;
          held =
              HoldStrings-same out.stack.esp out.pointers (tokens cs) out.stack.memory
                (push_frame out.pointers out.stack).memory (λ a le. frame.same a (inr le)) out.over
                out.held;
          top = out.top;
          at = out.at;
          frame = frame;
        }

-- Take a command line `cs` in memory at or above the stack pointer, a string of one space apart
-- from it there, fewer than 50 tokens, more fuel than the command line has bytes and two, and room
-- below the stack pointer for the tokens and the frame. Then `push_argument` ends without a failed
-- assertion and without a store outside of `argv`. Its stack has the aligned frame of the return
-- address 0, the number of the arguments, the address of the array of their pointers, the pointers
-- and a null pointer; the pointers are to copies of the tokens of the command line, in their
-- order, which lie one under the other from the old stack pointer down to the frame.
pub push_argument-HasArguments :
    (n spaces cmdline : ℕ) (cs : List ℕ) (s : Stack)
    → s.esp < 2 ^ 32
    → s.esp ≤ cmdline
    → s.esp ≤ spaces
    → (spaces + 1 < cmdline) ⊎ (cmdline + length cs < spaces)
    → IsSpace spaces s.memory
    → IsString cmdline cs s.memory
    → length cs + 2 < n
    → length (tokens cs) < 50
    → total (tokens cs) + 4 * length (tokens cs) + 19 < s.esp
    → HasArguments (tokens cs) s (push_argument n spaces cmdline s)
push_argument-HasArguments n spaces cmdline cs s word at_line at_spaces apart space string fuel few
      room =
    pushed n spaces cmdline cs s (record {
      esp_word = word;
      esp_below = at_line;
      esp_spaces = at_spaces;
      apart = apart;
      space = space;
      string = string;
      fuel = fuel;
      few = few;
      room = room;
    })
