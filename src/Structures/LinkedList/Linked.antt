-- ===== src/Structures/LinkedList/Linked.antt =====
-- Sequences of elements that are linked in both directions.
use pintos_lab.Base.{ℕ, ◌≡◌, refl, Bool, true, false, ◌||◌, List, [], ◌∷◌, ◌++◌, ◌==◌, arith}
use pintos_lab.Structures.LinkedList.{Elems, set_prev, set_next}

abbrev pub has : ℕ → List ℕ → Bool
has a [] = false
has a (x ∷ xs) = (x == a) || has a xs

abbrev pub Distinct : List ℕ → Type 0
Distinct [] = Unit
Distinct (x ∷ xs) = (has x xs ≡ false) × Distinct xs

abbrev pub Follows : Elems → ℕ → List ℕ → Type 0
Follows h a [] = Unit
Follows h a (b ∷ xs) = (h.next a ≡ b) × (h.prev b ≡ a)

-- Each element is linked with the one after it.
abbrev pub Linked : Elems → List ℕ → Type 0
Linked h [] = Unit
Linked h (x ∷ xs) = Follows h x xs × Linked h xs

pub has-append : (a : ℕ) (xs ys : List ℕ) → has a (xs ++ ys) ≡ (has a xs || has a ys)
has-append a [] ys = refl
has-append a (x ∷ xs) ys = ground (arith, has-append a xs ys)

-- A sequence is linked if its two parts are, which share an element.
pub Linked-join :
    (h : Elems) (ps qs : List ℕ) (p : ℕ)
    → Linked h (ps ++ p ∷ [])
    → Linked h (p ∷ qs)
    → Linked h (ps ++ p ∷ qs)
Linked-join h [] qs p l r = r
Linked-join h (x ∷ []) qs p (f, l) r = (f, r)
Linked-join h (x ∷ y ∷ ps) qs p (f, l) r = (f, Linked-join h (y ∷ ps) qs p l r)

pub Linked-left :
    (h : Elems) (ps qs : List ℕ) (p : ℕ) → Linked h (ps ++ p ∷ qs) → Linked h (ps ++ p ∷ [])
Linked-left h [] qs p l = (tt, tt)
Linked-left h (x ∷ []) qs p (f, l) = (f, (tt, tt))
Linked-left h (x ∷ y ∷ ps) qs p (f, l) = (f, Linked-left h (y ∷ ps) qs p l)

pub Linked-right :
    (h : Elems) (ps qs : List ℕ) (p : ℕ) → Linked h (ps ++ p ∷ qs) → Linked h (p ∷ qs)
Linked-right h [] qs p l = l
Linked-right h (x ∷ ps) qs p (f, l) = Linked-right h ps qs p l

-- A write to the `next` of an element that is not in the sequence, or is its last.
pub set_next-Linked :
    (h : Elems) (a v : ℕ) (xs : List ℕ)
    → has a xs ≡ false
    → Linked h xs
    → Linked (set_next a v h) xs
unfolding set_next
set_next-Linked h a v [] o l = tt
set_next-Linked h a v (x ∷ []) o (f, l) = (tt, tt)
set_next-Linked h a v (x ∷ y ∷ xs) o (f, l) =
    (ground (arith, f), set_next-Linked h a v (y ∷ xs) (ground arith) l)

pub set_next-Linked_last :
    (h : Elems) (a v p : ℕ) (ps : List ℕ)
    → has a ps ≡ false
    → Linked h (ps ++ p ∷ [])
    → Linked (set_next a v h) (ps ++ p ∷ [])
unfolding set_next
set_next-Linked_last h a v p [] o l = (tt, tt)
set_next-Linked_last h a v p (x ∷ []) o (f, l) = (ground (arith, f), (tt, tt))
set_next-Linked_last h a v p (x ∷ y ∷ xs) o (f, l) =
    (ground (arith, f), set_next-Linked_last h a v p (y ∷ xs) (ground arith) l)

-- A write to the `prev` of an element that is not in the sequence, or is its first.
pub set_prev-Linked_first :
    (h : Elems) (a v x : ℕ) (xs : List ℕ)
    → has a xs ≡ false
    → Linked h (x ∷ xs)
    → Linked (set_prev a v h) (x ∷ xs)
unfolding set_prev
set_prev-Linked_first h a v x [] o l = (tt, tt)
set_prev-Linked_first h a v x (y ∷ xs) o (f, l) =
    (ground (arith, f), set_prev-Linked_first h a v y xs (ground arith) l)

pub set_prev-Linked :
    (h : Elems) (a v : ℕ) (xs : List ℕ)
    → has a xs ≡ false
    → Linked h xs
    → Linked (set_prev a v h) xs
set_prev-Linked h a v [] o l = tt
set_prev-Linked h a v (x ∷ xs) o l = set_prev-Linked_first h a v x xs (ground arith) l

pub Distinct-append :
    (xs ys : List ℕ)
    → Distinct (xs ++ ys)
    → Distinct xs × Distinct ys × ((a : ℕ) → has a xs ≡ true → has a ys ≡ false)
Distinct-append [] ys d = (tt, d, λ a h. cc)
Distinct-append (x ∷ xs) ys (n, d) =
    let (l, r, apart) = Distinct-append xs ys d in
    ((ground (arith, has-append x xs ys), l), r, λ a h. ground (arith, has-append x xs ys, apart a))
