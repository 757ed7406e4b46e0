-- ===== src/Structures/LinkedList/Walk.antt =====
-- Walking along a list, and moving one element of it.
use mathlib.Core.List.{append_assoc, append-nil}
use pintos_lab.Base.{
  ℕ, ◌≡◌, refl, sym, subst, true, false, some, List, [], ◌∷◌, ◌++◌, ◌==◌, arith, Bool-cases, inl,
  inr,
}
use pintos_lab.Structures.LinkedList.{Elems, LinkedList, is_interior, list_next, list_prev}
use pintos_lab.Structures.LinkedList.Linked.{
  has, Distinct, Linked, has-append, Linked-right, Distinct-append,
}
use pintos_lab.Structures.LinkedList.Holds.{
  IsList, first_of, last_of, before, behind, ring_at, ring-append,
}

pub shift : (xs ys : List ℕ) (y : ℕ) → xs ++ y ∷ ys ≡ (xs ++ y ∷ []) ++ ys
shift xs ys y = sym (append_assoc xs (y ∷ []) ys)

pub last-append : (x e : ℕ) (xs : List ℕ) → last_of x (xs ++ e ∷ []) ≡ e
last-append x e [] = refl
last-append x e (y ∷ ys) = last-append y e ys

-- Between `xs` and `ys`, the element `p` before the place and the element `b` behind it.
module _ (h : Elems) (list : LinkedList) (xs ys : List ℕ) (l : IsList h list (xs ++ ys)) where
  abbrev p : ℕ
  p = last_of list.head xs

  abbrev b : ℕ
  b = first_of ys list.tail

  pub neighbours : (h.next p ≡ b) × (h.prev b ≡ p) × ((p == 0) ≡ false) × ((b == 0) ≡ false)
  neighbours =
      let ps = before list xs ys in
      let qs = behind list xs ys in
      let linked : Linked h (ps ++ p ∷ b ∷ qs) =
        subst (λ z. Linked h z) (ring_at list xs ys) l.linked in
      let nulls : has 0 (ps ++ p ∷ b ∷ qs) ≡ false =
        subst (λ z. has 0 z ≡ false) (ring_at list xs ys) l.non_null in
      let here = Linked-right h ps (b ∷ qs) p linked in
      (
        here.0.0,
        here.0.1,
        ground (arith, has-append 0 ps (p ∷ b ∷ qs), nulls),
        ground (arith, has-append 0 ps (p ∷ b ∷ qs), nulls),
      )

  pub next-between : list_next p h ≡ some b
  unfolding list_next
  next-between =
      let (n, v, p0, b0) = neighbours in
      elim (Bool-cases (h.prev p == 0)) [
        | inl z ↦ rw (n, z, p0, b0) refl
        | inr z ↦ rw (n, z, p0, b0) refl
      ]

  pub prev-between : list_prev b h ≡ some p
  unfolding list_prev
  prev-between =
      let (n, v, p0, b0) = neighbours in
      elim (Bool-cases (h.next b == 0)) [
        | inl z ↦ rw (v, z, p0, b0) refl
        | inr z ↦ rw (v, z, p0, b0) refl
      ]

module _ (h : Elems) (list : LinkedList) (xs ys : List ℕ) (e : ℕ)
    (l : IsList h list (xs ++ e ∷ ys)) where
  pub moved_on : IsList h list ((xs ++ e ∷ []) ++ ys)
  moved_on = subst (λ z. IsList h list z) (shift xs ys e) l

  pub next_at : list_next e h ≡ some (first_of ys list.tail)
  next_at =
      subst (λ z. list_next z h ≡ some (first_of ys list.tail)) (last-append list.head e xs)
        (next-between h list (xs ++ e ∷ []) ys moved_on)

  pub prev_at : list_prev (first_of ys list.tail) h ≡ some e
  prev_at =
      subst (λ z. list_prev (first_of ys list.tail) h ≡ some z) (last-append list.head e xs)
        (prev-between h list (xs ++ e ∷ []) ys moved_on)

  pub interior_at : is_interior e h ≡ true
  interior_at =
      let (n, v, p0, b0) = neighbours h list xs (e ∷ ys) l in
      let (n', v', p0', b0') = neighbours h list (xs ++ e ∷ []) ys moved_on in
      let out : h.next e ≡ first_of ys list.tail =
        subst (λ z. h.next z ≡ first_of ys list.tail) (last-append list.head e xs) n' in
      rw (b0, v, p0, out, b0') refl

later_out :
    (e : ℕ) (ms zs : List ℕ) (t : ℕ)
    → has e ((ms ++ zs) ++ t ∷ []) ≡ false
    → (e == first_of zs t) ≡ false
later_out e [] [] t o = ground (arith, o)
later_out e [] (z ∷ zs) t o = ground (arith, o)
later_out e (m ∷ ms) zs t o = later_out e ms zs t (ground (arith, o))

-- An element is none of those behind it.
pub ne_later :
    (h : Elems) (list : LinkedList) (xs ms zs : List ℕ) (e : ℕ)
    → IsList h list (xs ++ e ∷ (ms ++ zs))
    → (e == first_of zs list.tail) ≡ false
ne_later h list xs ms zs e l =
    let d : Distinct ((list.head ∷ xs) ++ ((e ∷ (ms ++ zs)) ++ list.tail ∷ [])) =
      subst (λ z. Distinct z) (ring-append list xs (e ∷ (ms ++ zs))) l.distinct in
    let out : has e ((ms ++ zs) ++ list.tail ∷ []) ≡ false =
      (Distinct-append (list.head ∷ xs) ((e ∷ (ms ++ zs)) ++ list.tail ∷ []) d).1.0 in
    later_out e ms zs list.tail out

pub not_tail :
    (h : Elems) (list : LinkedList) (xs ys : List ℕ) (e : ℕ)
    → IsList h list (xs ++ e ∷ ys)
    → (e == list.tail) ≡ false
not_tail h list xs ys e l =
    ne_later h list xs ys [] e (subst (λ z. IsList h list (xs ++ e ∷ z)) (sym (append-nil ys)) l)

pub tail_not_null :
    (h : Elems) (list : LinkedList) (xs : List ℕ) → IsList h list xs → (list.tail == 0) ≡ false
tail_not_null h list xs l = ground (arith, l.non_null, has-append 0 xs (list.tail ∷ []))
