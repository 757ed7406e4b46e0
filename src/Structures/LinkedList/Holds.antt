-- ===== src/Structures/LinkedList/Holds.antt =====
-- A `struct list` in memory holds a sequence of elements; what insertion and removal make of it.
use mathlib.Core.List.{append_assoc}
use pintos_lab.Base.{
  ℕ, ◌≡◌, refl, sym, ap, ◌∙◌, subst, false, some, List, [], ◌∷◌, ◌++◌, ◌==◌, arith, Bool-cases, inl,
  inr,
}
use pintos_lab.Structures.LinkedList.{Elems, LinkedList, list_insert, list_remove}
use pintos_lab.Structures.LinkedList.Linked.{has, Distinct, Linked, has-append, Linked-right}
use pintos_lab.Structures.LinkedList.Edit.{
  OnlyNear, inserted, removed, insert_runs, remove_runs, insert-AreApart, remove-AreApart,
  insert-Linked, remove-Linked, insert-others, remove-others,
}

-- The elements with the sentinels at both ends.
abbrev pub ring : LinkedList → List ℕ → List ℕ
ring list xs = list.head ∷ (xs ++ list.tail ∷ [])

pub record IsList (h : Elems) (list : LinkedList) (xs : List ℕ) : Type 0 where
  pub linked : Linked h (ring list xs)
  pub distinct : Distinct (ring list xs)
  pub non_null : has 0 (ring list xs) ≡ false
  pub first : h.prev list.head ≡ 0
  pub last : h.next list.tail ≡ 0

abbrev pub first_of : List ℕ → ℕ → ℕ
first_of [] t = t
first_of (y ∷ ys) t = y

abbrev pub rest_of : List ℕ → ℕ → List ℕ
rest_of [] t = []
rest_of (y ∷ ys) t = ys ++ t ∷ []

abbrev pub last_of : ℕ → List ℕ → ℕ
last_of x [] = x
last_of x (y ∷ ys) = last_of y ys

abbrev pub init_of : ℕ → List ℕ → List ℕ
init_of x [] = []
init_of x (y ∷ ys) = x ∷ init_of y ys

first-view : (ys : List ℕ) (t : ℕ) → ys ++ t ∷ [] ≡ first_of ys t ∷ rest_of ys t
first-view [] t = refl
first-view (y ∷ ys) t = refl

pub last-view : (x : ℕ) (xs zs : List ℕ) → x ∷ (xs ++ zs) ≡ init_of x xs ++ last_of x xs ∷ zs
last-view x [] zs = refl
last-view x (y ∷ ys) zs = ap (λ (l : List ℕ). x ∷ l) (last-view y ys zs)

module _ (list : LinkedList) (xs ys : List ℕ) where
  pub ring-append : ring list (xs ++ ys) ≡ (list.head ∷ xs) ++ (ys ++ list.tail ∷ [])
  ring-append = ap (λ (l : List ℕ). list.head ∷ l) (append_assoc xs ys (list.tail ∷ []))

  abbrev pub before : List ℕ
  before = init_of list.head xs

  abbrev pub behind : List ℕ
  behind = rest_of ys list.tail

  pub ring_at :
      ring list (xs ++ ys) ≡ before ++ last_of list.head xs ∷ first_of ys list.tail ∷ behind
  ring_at =
      ring-append
      ∙ ap (λ (l : List ℕ). list.head ∷ (xs ++ l)) (first-view ys list.tail)
      ∙ last-view list.head xs (first_of ys list.tail ∷ behind)

ring_around :
    (list : LinkedList) (xs ys : List ℕ) (e : ℕ)
    → ring list (xs ++ e ∷ ys)
      ≡ before list xs ys ++ last_of list.head xs ∷ e ∷ first_of ys list.tail ∷ behind list xs ys
ring_around list xs ys e =
    ring-append list xs (e ∷ ys)
    ∙ ap (λ (l : List ℕ). list.head ∷ (xs ++ e ∷ l)) (first-view ys list.tail)
    ∙ last-view list.head xs (e ∷ first_of ys list.tail ∷ behind list xs ys)

apart_by : (f : ℕ → ℕ) (x y : ℕ) → f x ≡ 0 → (f y == 0) ≡ false → (y == x) ≡ false
apart_by f x y z n = elim (Bool-cases (y == x)) [
  | inr e ↦ e
  | inl e ↦ (let same : y ≡ x = ground (arith, e) in absurd (ground (arith, ap f same, z, n)))
]

-- Away from the elements of a list memory is the same.
abbrev pub SameOutside : List ℕ → Elems → Elems → Type 0
SameOutside zs h h' = (x : ℕ) → has x zs ≡ false → (h'.next x ≡ h.next x) × (h'.prev x ≡ h.prev x)

Distinct-insert :
    (ps : List ℕ) (p e : ℕ) (zs : List ℕ)
    → Distinct (ps ++ p ∷ zs)
    → has e (ps ++ p ∷ zs) ≡ false
    → Distinct (ps ++ p ∷ e ∷ zs)
Distinct-insert [] p e zs d o = ground (arith, d, o)
Distinct-insert (x ∷ ps) p e zs (n, d) o = (
  ground (arith, n, o, has-append x ps (p ∷ zs), has-append x ps (p ∷ e ∷ zs)),
  Distinct-insert ps p e zs d (ground (arith, o)),
)

Distinct-remove :
    (ps : List ℕ) (p e : ℕ) (zs : List ℕ) → Distinct (ps ++ p ∷ e ∷ zs) → Distinct (ps ++ p ∷ zs)
Distinct-remove [] p e zs d = ground (arith, d)
Distinct-remove (x ∷ ps) p e zs (n, d) = (
  ground (arith, n, has-append x ps (p ∷ zs), has-append x ps (p ∷ e ∷ zs)),
  Distinct-remove ps p e zs d,
)

near_others :
    (h h' : Elems) (zs ps qs : List ℕ) (p e b : ℕ)
    → zs ≡ ps ++ p ∷ e ∷ b ∷ qs
    → OnlyNear p b e h h'
    → SameOutside zs h h'
near_others h h' zs ps qs p e b at others x f =
    let out : has x (ps ++ p ∷ e ∷ b ∷ qs) ≡ false = subst (λ z. has x z ≡ false) at f in
    let px : (p == x) ≡ false = ground (arith, out, has-append x ps (p ∷ e ∷ b ∷ qs)) in
    let ex : (e == x) ≡ false = ground (arith, out, has-append x ps (p ∷ e ∷ b ∷ qs)) in
    let bx : (b == x) ≡ false = ground (arith, out, has-append x ps (p ∷ e ∷ b ∷ qs)) in
    (others.0 x px ex, others.1 x bx ex)

module _ (h : Elems) (list : LinkedList) (xs ys : List ℕ) where
  abbrev p : ℕ
  p = last_of list.head xs

  abbrev b : ℕ
  b = first_of ys list.tail

  abbrev ps : List ℕ
  ps = before list xs ys

  abbrev qs : List ℕ
  qs = behind list xs ys

  -- `list_insert` of a new element into a list puts it there, fails no assertion, and changes no
  -- element outside of the list.
  pub insert-IsList :
      (e : ℕ)
      → IsList h list (xs ++ ys)
      → has e (ring list (xs ++ ys)) ≡ false
      → (e == 0) ≡ false
      → (h' : Elems) × (list_insert b e h ≡ some h')
        × IsList h' list (xs ++ e ∷ ys)
        × SameOutside (ring list (xs ++ e ∷ ys)) h h'
  insert-IsList e l o e0 =
      let at = ring_at list xs ys in
      let around = ring_around list xs ys e in
      let linked : Linked h (ps ++ p ∷ b ∷ qs) = subst (λ z. Linked h z) at l.linked in
      let distinct : Distinct (ps ++ p ∷ b ∷ qs) = subst (λ z. Distinct z) at l.distinct in
      let out : has e (ps ++ p ∷ b ∷ qs) ≡ false = subst (λ z. has e z ≡ false) at o in
      let nulls : has 0 (ps ++ p ∷ b ∷ qs) ≡ false = subst (λ z. has 0 z ≡ false) at l.non_null in
      let a = insert-AreApart h ps qs p e b distinct out in
      let here = Linked-right h ps (b ∷ qs) p linked in
      let h' = inserted h ps qs p e b in
      let p0 : (p == 0) ≡ false = ground (arith, has-append 0 ps (p ∷ b ∷ qs), nulls) in
      let b0 : (b == 0) ≡ false = ground (arith, has-append 0 ps (p ∷ b ∷ qs), nulls) in
      let others = insert-others h ps qs p e b in
      let e_tail : (e == list.tail) ≡ false =
        ground (arith, o, has-append e (xs ++ ys) (list.tail ∷ [])) in
      let linked' : Linked h' (ring list (xs ++ e ∷ ys)) =
        subst (λ z. Linked h' z) (sym around) (insert-Linked h ps qs p e b a linked) in
      (
        h',
        insert_runs h ps qs p e b here.0.1 b0 p0 e0 a.e_b,
        record {
          linked = linked';
          distinct =
              subst (λ z. Distinct z) (sym around) (Distinct-insert ps p e (b ∷ qs) distinct out);
          non_null =
              subst (λ z. has 0 z ≡ false) (sym around)
                (ground (
                  arith,
                  has-append 0 ps (p ∷ e ∷ b ∷ qs),
                  has-append 0 ps (p ∷ b ∷ qs),
                  nulls,
                  e0,
                ));
          first =
              others.1 list.head
                (apart_by h.prev list.head b l.first (ground (arith, here.0.1, p0)))
                (ground (arith, o))
              ∙ l.first;
          last =
              others.0 list.tail (apart_by h.next list.tail p l.last (ground (arith, here.0.0, b0)))
                e_tail
              ∙ l.last;
        },
        λ x f. near_others h h' (ring list (xs ++ e ∷ ys)) ps qs p e b around others x f,
      )

  -- `list_remove` of any element of a list takes it out, returns the element behind it or the tail,
  -- fails no assertion, and changes no element outside of the list.
  pub remove-IsList :
      (e : ℕ)
      → IsList h list (xs ++ e ∷ ys)
      → (h' : Elems) × (list_remove e h ≡ some (b, h'))
        × IsList h' list (xs ++ ys)
        × SameOutside (ring list (xs ++ e ∷ ys)) h h'
  remove-IsList e l =
      let at = ring_at list xs ys in
      let around = ring_around list xs ys e in
      let linked : Linked h (ps ++ p ∷ e ∷ b ∷ qs) = subst (λ z. Linked h z) around l.linked in
      let distinct : Distinct (ps ++ p ∷ e ∷ b ∷ qs) = subst (λ z. Distinct z) around l.distinct in
      let nulls : has 0 (ps ++ p ∷ e ∷ b ∷ qs) ≡ false =
        subst (λ z. has 0 z ≡ false) around l.non_null in
      let a = remove-AreApart h ps qs p e b distinct in
      let here = Linked-right h ps (e ∷ b ∷ qs) p linked in
      let h' = removed h ps qs p e b in
      let p0 : (p == 0) ≡ false = ground (arith, has-append 0 ps (p ∷ e ∷ b ∷ qs), nulls) in
      let e0 : (e == 0) ≡ false = ground (arith, has-append 0 ps (p ∷ e ∷ b ∷ qs), nulls) in
      let b0 : (b == 0) ≡ false = ground (arith, has-append 0 ps (p ∷ e ∷ b ∷ qs), nulls) in
      let others = remove-others h ps qs p e b in
      let linked' : Linked h' (ring list (xs ++ ys)) =
        subst (λ z. Linked h' z) (sym at) (remove-Linked h ps qs p e b a linked) in
      (
        h',
        remove_runs h ps qs p e b here.0.1 here.1.0.0 b0 p0 e0 a,
        record {
          linked = linked';
          distinct = subst (λ z. Distinct z) (sym at) (Distinct-remove ps p e (b ∷ qs) distinct);
          non_null =
              subst (λ z. has 0 z ≡ false) (sym at)
                (ground
                  (arith, has-append 0 ps (p ∷ e ∷ b ∷ qs), has-append 0 ps (p ∷ b ∷ qs), nulls));
          first =
              others.1 list.head
                (apart_by h.prev list.head b l.first (ground (arith, here.1.0.1, e0)))
                (apart_by h.prev list.head e l.first (ground (arith, here.0.1, p0)))
              ∙ l.first;
          last =
              others.0 list.tail (apart_by h.next list.tail p l.last (ground (arith, here.0.0, e0)))
                (apart_by h.next list.tail e l.last (ground (arith, here.1.0.0, b0)))
              ∙ l.last;
        },
        λ x f. near_others h h' (ring list (xs ++ e ∷ ys)) ps qs p e b around others x f,
      )
