-- ===== src/Structures/LinkedList/Move.antt =====
-- `list_splice` of one element moves it to another place.
use mathlib.Core.List.{append_assoc}
use pintos_lab.Base.{
  ℕ, ◌≡◌, refl, sym, ap, ◌∙◌, subst, true, false, ◌||◌, some, List, [], ◌∷◌, ◌++◌, ◌==◌, arith,
}
use pintos_lab.Structures.LinkedList.{
  Elems, LinkedList, set_prev, set_next, is_interior, is_tail, list_insert, list_remove, list_prev,
  list_splice,
}
use pintos_lab.Structures.LinkedList.Linked.{has, Distinct, has-append}
use pintos_lab.Structures.LinkedList.Holds.{
  ring, ring-append, IsList, first_of, insert-IsList, remove-IsList,
}
use pintos_lab.Structures.LinkedList.Walk.{neighbours, prev_at, interior_at, ne_later, shift}

-- The memory after `list_remove` of an interior element.
taken : ℕ → Elems → Elems
taken e h = let h1 = set_next (h.prev e) (h.next e) h in set_prev (h1.next e) (h1.prev e) h1

remove-taken :
    (e n : ℕ) (h h' : Elems)
    → is_interior e h ≡ true
    → list_remove e h ≡ some (n, h')
    → taken e h ≡ h'
unfolding list_remove taken
remove-taken e n h h' i r = ground (arith, i, r)

put : ℕ → ℕ → Elems → Elems
put before e h =
    let h1 = set_next e before (set_prev e (h.prev before) h) in
    set_prev before e (set_next (h1.prev before) e h1)

insert-put : (before e : ℕ) (h h' : Elems) → list_insert before e h ≡ some h' → put before e h ≡ h'
unfolding list_insert put
insert-put before e h h' r = ground (arith, r)

splice_one :
    (before e n : ℕ) (h : Elems)
    → (is_interior before h || is_tail before h) ≡ true
    → (e == n) ≡ false
    → list_prev n h ≡ some e
    → is_interior e h ≡ true
    → list_splice before e n h ≡ some (put before e (taken e h))
unfolding list_splice put taken
splice_one before e n h b ne q i = rw (b, ne, q, i) refl

not_among : (us vs : List ℕ) (b : ℕ) → Distinct (us ++ b ∷ vs) → has b (us ++ vs) ≡ false
not_among [] vs b d = d.0
not_among (u ∷ us) vs b (n, d) = ground (arith, not_among us vs b d, n, has-append u us (b ∷ vs))

-- `list_splice` of the element `b` before an element `a` that stands somewhere before it.
pub move-IsList :
    (h : Elems) (list : LinkedList) (xs as' ys : List ℕ) (a b : ℕ)
    → IsList h list (xs ++ a ∷ (as' ++ b ∷ ys))
    → (h' : Elems) × (list_splice a b (first_of ys list.tail) h ≡ some h')
      × IsList h' list ((xs ++ b ∷ []) ++ a ∷ (as' ++ ys))
move-IsList h list xs as' ys a b l =
    let us = xs ++ a ∷ as' in
    let at : IsList h list (us ++ b ∷ ys) =
      subst (λ z. IsList h list z) (sym (append_assoc xs (a ∷ as') (b ∷ ys))) l in
    let (h1, r, l1, same1) = remove-IsList h list us ys b at in
    let l1' : IsList h1 list (xs ++ a ∷ (as' ++ ys)) =
      subst (λ z. IsList h1 list z) (append_assoc xs (a ∷ as') ys) l1 in
    let out : has b (ring list (xs ++ a ∷ (as' ++ ys))) ≡ false =
      subst (λ z. has b (ring list z) ≡ false) (append_assoc xs (a ∷ as') ys)
        (subst (λ z. has b z ≡ false) (sym (ring-append list us ys))
          (not_among (list.head ∷ us) (ys ++ list.tail ∷ []) b
            (subst (λ z. Distinct z) (ring-append list us (b ∷ ys)) at.distinct))) in
    let (n, v, p0, b0) = neighbours h list us (b ∷ ys) at in
    let (h2, i, l2, same2) = insert-IsList h1 list xs (a ∷ (as' ++ ys)) b l1' out b0 in
    let inner = interior_at h list us ys b at in
    let ne : (b == first_of ys list.tail) ≡ false = ne_later h list us [] ys b at in
    let a_in : (is_interior a h || is_tail a h) ≡ true =
      rw (interior_at h list xs (as' ++ b ∷ ys) a l) refl in
    let done : put a b (taken b h) ≡ h2 =
      ap (λ (z : Elems). put a b z) (remove-taken b (first_of ys list.tail) h h1 inner r)
      ∙ insert-put a b h1 h2 i in
    (
      h2,
      splice_one a b (first_of ys list.tail) h a_in ne (prev_at h list us ys b at) inner
          ∙ ap (λ (z : Elems). some z) done,
      subst (λ z. IsList h2 list z) (shift xs (a ∷ (as' ++ ys)) b) l2,
    )
