-- ===== src/Process/Arguments/Frame.antt =====
-- The layout of the stack frame under the strings of the arguments.
use pintos_lab.Base.{
  ℕ, ◌+◌, ◌*◌, ◌^◌, ◌/◌, ◌%◌, ◌≤◌, ◌<◌, ◌≡◌, ◌⊎◌, refl, sym, ◌∙◌, subst, List, [], ◌∷◌, ◌++◌, arith,
  inr, length,
}
use pintos_lab.Clib.Strings.{Memory, store}
use pintos_lab.Process.Arguments.{Stack, below, store_word, push_word, push_words, push_frame}

-- The word at an address.
pub load_word : ℕ → Memory → ℕ
load_word p mem = mem p + 256 * mem (p + 1) + 65536 * mem (p + 2) + 16777216 * mem (p + 3)

-- Memory is the same outside of `n` bytes.
abbrev pub SameBut : ℕ → ℕ → Memory → Memory → Type 0
SameBut p n old new = (a : ℕ) → (a < p) ⊎ (p + n ≤ a) → new a ≡ old a

store_word-SameBut : (p w : ℕ) (mem : Memory) → SameBut p 4 mem (store_word p w mem)
unfolding store_word store
store_word-SameBut p w mem a o = ground (arith, o)

load-store : (p w : ℕ) (mem : Memory) → w < 2 ^ 32 → load_word p (store_word p w mem) ≡ w
unfolding load_word store_word store
load-store p w mem lt = ground (arith, lt)

-- Memory holds the words from the address on.
abbrev pub HoldsWords : ℕ → List ℕ → Memory → Type 0
HoldsWords p [] mem = Unit {0}
HoldsWords p (w ∷ ws) mem = (load_word p mem ≡ w) × HoldsWords (p + 4) ws mem

abbrev pub AreWords : List ℕ → Type 0
AreWords [] = Unit {0}
AreWords (w ∷ ws) = (w < 2 ^ 32) × AreWords ws

load_word-SameBut :
    (p q n : ℕ) (old new : Memory)
    → SameBut q n old new
    → (p + 4 ≤ q) ⊎ (q + n ≤ p)
    → load_word p new ≡ load_word p old
unfolding load_word
load_word-SameBut p q n old new same o = ground (
  arith,
  same p (ground (arith, o)),
  same (p + 1) (ground (arith, o)),
  same (p + 2) (ground (arith, o)),
  same (p + 3) (ground (arith, o)),
)

HoldsWords-SameBut :
    (ws : List ℕ) (p q n : ℕ) (old new : Memory)
    → SameBut q n old new
    → q + n ≤ p
    → HoldsWords p ws old
    → HoldsWords p ws new
HoldsWords-SameBut [] p q n old new same le h = tt
HoldsWords-SameBut (w ∷ ws) p q n old new same le (e, h) = (
  load_word-SameBut p q n old new same (inr le) ∙ e,
  HoldsWords-SameBut ws (p + 4) q n old new same (omega (arith, le)) h,
)

-- The stack after words were pushed on `s`.
pub record IsPushed (ws : List ℕ) (s s' : Stack) : Type 0 where
  pub top : s'.esp + 4 * length ws ≡ s.esp
  pub words : HoldsWords s'.esp ws s'.memory
  pub same : SameBut s'.esp (4 * length ws) s.memory s'.memory

push_words-IsPushed :
    (ws : List ℕ) (s : Stack)
    → AreWords ws
    → s.esp < 2 ^ 32
    → 4 * length ws ≤ s.esp
    → IsPushed ws s (push_words ws s)
unfolding push_words push_word
push_words-IsPushed [] s fit lt room = record { top = omega arith; words = tt; same = λ a o. refl }
push_words-IsPushed (w ∷ ws) s (f, fit) lt room =
    let rest = push_words-IsPushed ws s fit lt (omega (arith, room)) in
    let s1 = push_words ws s in
    let at : below s1.esp 4 + 4 ≡ s1.esp = omega (arith, rest.top, lt, room) in
    let kept = store_word-SameBut (below s1.esp 4) w s1.memory in
    record {
      top = omega (arith, at, rest.top);
      words = (
        load-store (below s1.esp 4) w s1.memory f,
        HoldsWords-SameBut ws (below s1.esp 4 + 4) (below s1.esp 4) 4 s1.memory
            (store_word (below s1.esp 4) w s1.memory) kept (omega arith)
            (subst (λ p. HoldsWords p ws s1.memory) (sym at) rest.words),
      );
      same = λ a o.
          kept a (ground (arith, o, at, rest.top)) ∙ rest.same a (ground (arith, o, at, rest.top));
    }

-- The words of the frame of a program, from its return address up to the null pointer behind
-- `argv`.
abbrev pub frame_words : ℕ → List ℕ → List ℕ
frame_words argv_base argv = 0 ∷ length argv ∷ argv_base ∷ (argv ++ 0 ∷ [])

length-null : (argv : List ℕ) → length (argv ++ 0 ∷ []) ≡ length argv + 1
length-null [] = omega arith
length-null (a ∷ argv) = omega (arith, length-null argv)

AreWords-null : (argv : List ℕ) → AreWords argv → AreWords (argv ++ 0 ∷ [])
AreWords-null [] fit = (omega arith, tt)
AreWords-null (a ∷ argv) (f, fit) = (f, AreWords-null argv fit)

pub record IsFrame (argv : List ℕ) (s s' : Stack) : Type 0 where
  pub aligned : s'.esp % 4 ≡ 0
  pub top : s'.esp + 4 * length argv + 16 ≡ s.esp / 4 * 4
  pub words : HoldsWords s'.esp (frame_words (s'.esp + 12) argv) s'.memory
  pub same : (a : ℕ) → (a < s'.esp) ⊎ (s.esp ≤ a) → s'.memory a ≡ s.memory a

-- For a stack pointer and argument pointers of 32 bits, with room for the frame below the stack
-- pointer, `push_frame` leaves an aligned stack pointer at the return address 0, the number of the
-- arguments, the address of the array of their pointers, these pointers and a null pointer, in
-- this order of addresses, and changes nothing from the old stack pointer on or below the new one.
pub push_frame-IsFrame :
    (argv : List ℕ) (s : Stack)
    → AreWords argv
    → s.esp < 2 ^ 32
    → 4 * length argv + 19 ≤ s.esp
    → IsFrame argv s (push_frame argv s)
unfolding push_frame push_words push_word
push_frame-IsFrame argv s fit lt room =
    let aligned = record s { esp = s.esp / 4 * 4 } in
    let len = length-null argv in
    let pointers =
      push_words-IsPushed (argv ++ 0 ∷ []) aligned (AreWords-null argv fit) (omega (arith, lt))
        (omega (arith, len, room)) in
    let base = (push_words (argv ++ 0 ∷ []) aligned).esp in
    let all =
      push_words-IsPushed (frame_words base argv) aligned
        (
          omega arith,
          (omega (arith, lt, room), (omega (arith, pointers.top, lt), AreWords-null argv fit)),
        )
        (omega (arith, lt)) (omega (arith, len, room)) in
    let at : base ≡ (push_frame argv s).esp + 12 = omega (arith, pointers.top, all.top, len) in
    record {
      aligned = omega (arith, all.top, len);
      top = omega (arith, all.top, len);
      words =
          subst
            (λ b.
              HoldsWords (push_frame argv s).esp (frame_words b argv) (push_frame argv s).memory)
            at all.words;
      same = λ a o. all.same a (ground (arith, o, all.top));
    }
