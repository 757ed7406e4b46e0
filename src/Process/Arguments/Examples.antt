-- ===== src/Process/Arguments/Examples.antt =====
-- The command line "a b" at 1000, and the stack of a program under it.
use pintos_lab.Base.{
  ℕ, ◌+◌, ◌*◌, ◌≡◌, ◌<◌, refl, inl, List, [], ◌∷◌, length, ◌==◌, if◌then◌else◌, arith,
}
use pintos_lab.Clib.Strings.Words.{tokens}
use pintos_lab.Process.Arguments.{Stack, push_argument}
use pintos_lab.Process.Arguments.Strings.{total}
use pintos_lab.Process.Arguments.Push.{HasArguments, push_argument-HasArguments}

abbrev stack : Stack
stack = record {
  esp = 802;
  memory = λ a.
      if a == 900
      then 32
      else (if a == 1000 then 97 else (if a == 1001 then 32 else (if a == 1002 then 98 else 0)));
}

abbrev line : List ℕ
line = 97 ∷ 32 ∷ 98 ∷ []

two_tokens : tokens line ≡ (97 ∷ []) ∷ (98 ∷ []) ∷ []
unfolding tokens
two_tokens = refl

few_tokens : length (tokens line) < 50
unfolding tokens
few_tokens = omega arith

line_room : total (tokens line) + 4 * length (tokens line) + 19 < 802
unfolding tokens total
line_room = omega arith

push_argument-HasArguments_example :
    HasArguments (tokens line) stack (push_argument 6 900 1000 stack)
push_argument-HasArguments_example =
    push_argument-HasArguments 6 900 1000 line stack (omega arith) (omega arith) (omega arith)
      (inl (omega arith)) (omega arith, refl, refl)
      (omega arith, refl, (omega arith, refl, (omega arith, refl, refl))) (omega arith) few_tokens
      line_room
