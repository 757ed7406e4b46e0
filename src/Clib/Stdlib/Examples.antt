-- ===== src/Clib/Stdlib/Examples.antt =====
-- An array of 3 elements of 4 bytes at 100; the key is the element at 104.
use pintos_lab.Base.{ℕ, ◌+◌, ◌*◌, ◌≡◌, ◌≤◌, refl, some, ltb, if◌then◌else◌, arith}
use pintos_lab.Clib.Strings.{Sign, negative, equal, positive}
use pintos_lab.Clib.Stdlib.{search_loop, binary_search}
use pintos_lab.Clib.Stdlib.Finds.{IsOrdered, Answers, binary_search-Answers}

abbrev compare_with : ℕ → ℕ → Sign
compare_with key element =
    if ltb key element then negative else (if ltb element key then positive else equal)

finds_second : binary_search (compare_with 104) 4 100 3 4 ≡ some 104
unfolding binary_search search_loop
finds_second = refl

compare_with-negative :
    (key x y : ℕ) → x ≤ y → compare_with key x ≡ negative → compare_with key y ≡ negative
compare_with-negative key x y le e = ground (arith, le, e)

compare_with-positive :
    (key x y : ℕ) → x ≤ y → compare_with key y ≡ positive → compare_with key x ≡ positive
compare_with-positive key x y le e = ground (arith, le, e)

three-IsOrdered : IsOrdered 100 4 (omega arith) (compare_with 104) 3
three-IsOrdered = λ i j le lt. (
  compare_with-negative 104 (100 + 4 * i) (100 + 4 * j) (omega (arith, le)),
  compare_with-positive 104 (100 + 4 * i) (100 + 4 * j) (omega (arith, le)),
)

binary_search-Answers_example :
    Answers 100 4 (omega arith) (compare_with 104) 0 3 (binary_search (compare_with 104) 4 100 3 4)
binary_search-Answers_example =
    binary_search-Answers 100 4 (omega arith) (compare_with 104) 4 3 three-IsOrdered (omega arith)
