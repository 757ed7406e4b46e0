-- ===== src/Process/Syscall/Table.antt =====
-- The open files of a process: descriptors grow along the list and stay below the next one.
use pintos_lab.Base.{
  ℕ, ◌+◌, ◌^◌, ◌≤◌, ◌<◌, ◌≡◌, refl, ◌≢◌, inl, inr, subst, none, some, List, [], ◌∷◌, ◌++◌, ◌==◌,
  arith, Bool-cases,
}
use pintos_lab.Process.Syscall.{OpenFile, Thread, find_file, init_thread, remove_file, add_file}

-- The descriptors of a list increase from `low` on and stay below `high`.
unfoldable pub Ordered : ℕ → List OpenFile → ℕ → Type 0
Ordered low [] high = low ≤ high
Ordered low (f ∷ fs) high = (low ≤ f.fd) × Ordered (f.fd + 1) fs high

unfoldable pub IsValid : Thread → Type 0
IsValid p = Ordered 2 p.files p.file_fd

lower_start :
    (low low' : ℕ) (fs : List OpenFile) (high : ℕ)
    → low' ≤ low
    → Ordered low fs high
    → Ordered low' fs high
unfolding Ordered
lower_start low low' [] high le o = omega arith
lower_start low low' (f ∷ fs) high le (l, o) = (omega arith, o)

start_le_end : (low : ℕ) (fs : List OpenFile) (high : ℕ) → Ordered low fs high → low ≤ high
unfolding Ordered
start_le_end low [] high o = o
start_le_end low (f ∷ fs) high (l, o) = let r = start_le_end (f.fd + 1) fs high o in omega arith

Ordered-append :
    (low : ℕ) (fs : List OpenFile) (high file : ℕ)
    → Ordered low fs high
    → Ordered low (fs ++ (record { fd = high; file = file } ∷ [])) (high + 1)
unfolding Ordered
Ordered-append low [] high file o = (o, omega arith)
Ordered-append low (f ∷ fs) high file (l, o) = (l, Ordered-append (f.fd + 1) fs high file o)

pub Ordered-remove_file :
    (fd low : ℕ) (fs : List OpenFile) (high : ℕ)
    → Ordered low fs high
    → Ordered low (remove_file fd fs) high
unfolding Ordered remove_file
Ordered-remove_file fd low [] high o = o
Ordered-remove_file fd low (f ∷ fs) high (l, o) = elim (Bool-cases (f.fd == fd)) [
  | inl e ↦ rw e (lower_start (f.fd + 1) low fs high (omega arith) o)
  | inr e ↦ rw e (l, Ordered-remove_file fd (f.fd + 1) fs high o)
]

-- No descriptor outside the bounds is found.
find_file-below :
    (fd low : ℕ) (fs : List OpenFile) (high : ℕ)
    → Ordered low fs high
    → fd < low
    → find_file fd fs ≡ none
unfolding Ordered find_file
find_file-below fd low [] high o lt = refl
find_file-below fd low (f ∷ fs) high (l, o) lt =
    let rest = find_file-below fd (f.fd + 1) fs high o (omega arith) in ground arith

find_file-above :
    (low : ℕ) (fs : List OpenFile) (high : ℕ) → Ordered low fs high → find_file high fs ≡ none
unfolding Ordered find_file
find_file-above low [] high o = refl
find_file-above low (f ∷ fs) high (l, o) =
    let le = start_le_end (f.fd + 1) fs high o in
    let rest = find_file-above (f.fd + 1) fs high o in ground arith

find_file-append_ne :
    (fd : ℕ) (fs : List OpenFile) (g : OpenFile)
    → g.fd ≢ fd
    → find_file fd (fs ++ (g ∷ [])) ≡ find_file fd fs
unfolding find_file
find_file-append_ne fd [] g ne = ground arith
find_file-append_ne fd (f ∷ fs) g ne = let rest = find_file-append_ne fd fs g ne in rw rest

find_file-append_self :
    (fs : List OpenFile) (g : OpenFile)
    → find_file g.fd fs ≡ none
    → find_file g.fd (fs ++ (g ∷ [])) ≡ some g
unfolding find_file
find_file-append_self [] g e = ground arith
find_file-append_self (f ∷ fs) g e = elim (Bool-cases (f.fd == g.fd)) [
  | inl t ↦ ground arith
  | inr t ↦ (let rest = find_file-append_self fs g (ground arith) in ground arith)
]

pub find_file-remove_file :
    (fd low : ℕ) (fs : List OpenFile) (high : ℕ)
    → Ordered low fs high
    → find_file fd (remove_file fd fs) ≡ none
unfolding Ordered find_file remove_file
find_file-remove_file fd low [] high o = refl
find_file-remove_file fd low (f ∷ fs) high (l, o) = elim (Bool-cases (f.fd == fd)) [
  | inl e ↦ rw e (find_file-below fd (f.fd + 1) fs high o (ground arith))
  | inr e ↦ (let rest = find_file-remove_file fd (f.fd + 1) fs high o in ground arith)
]

pub find_file-remove_file_ne :
    (fd fd' : ℕ) (fs : List OpenFile)
    → fd' ≢ fd
    → find_file fd' (remove_file fd fs) ≡ find_file fd' fs
unfolding find_file remove_file
find_file-remove_file_ne fd fd' [] ne = refl
find_file-remove_file_ne fd fd' (f ∷ fs) ne =
    let rest = find_file-remove_file_ne fd fd' fs ne in
    elim (Bool-cases (f.fd == fd)) [ inl e ↦ ground arith | inr e ↦ ground arith ]

-- Removing the file that was added last gives the list before.
pub remove_file-append :
    (fs : List OpenFile) (g : OpenFile)
    → find_file g.fd fs ≡ none
    → remove_file g.fd (fs ++ (g ∷ [])) ≡ fs
unfolding find_file remove_file
remove_file-append [] g e = ground arith
remove_file-append (f ∷ fs) g e = elim (Bool-cases (f.fd == g.fd)) [
  | inl t ↦ ground arith
  | inr t ↦ (let rest = remove_file-append fs g (ground arith) in ground arith)
]

pub find_file-next : (p : Thread) → IsValid p → find_file p.file_fd p.files ≡ none
unfolding IsValid
find_file-next p v = find_file-above 2 p.files p.file_fd v

pub add_file-IsValid :
    (file : ℕ) (p : Thread) → IsValid p → p.file_fd + 1 < 2 ^ 32 → IsValid (add_file file p)
unfolding IsValid add_file
add_file-IsValid file p v lt =
    subst (λ n. Ordered 2 (p.files ++ (record { fd = p.file_fd; file = file } ∷ [])) n)
      (omega arith) (Ordered-append 2 p.files p.file_fd file v)

pub find_file-add_file :
    (file : ℕ) (p : Thread)
    → IsValid p
    → find_file p.file_fd (add_file file p).files ≡ some (record { fd = p.file_fd; file = file })
unfolding add_file
find_file-add_file file p v =
    find_file-append_self p.files (record { fd = p.file_fd; file = file }) (find_file-next p v)

pub find_file-add_file_ne :
    (fd file : ℕ) (p : Thread)
    → p.file_fd ≢ fd
    → find_file fd (add_file file p).files ≡ find_file fd p.files
unfolding add_file
find_file-add_file_ne fd file p ne =
    find_file-append_ne fd p.files (record { fd = p.file_fd; file = file }) ne

-- A new thread has a valid table of open files.
pub init_thread-IsValid : IsValid init_thread
unfolding IsValid Ordered
init_thread-IsValid = omega arith
