-- ===== src/Structures/LinkedList/Edit.antt =====
-- Insertion and removal at any place of a linked sequence.
use pintos_lab.Base.{
  ℕ, ◌≡◌, refl, false, some, List, [], ◌∷◌, ◌++◌, ◌==◌, arith, Bool-cases, inl, inr,
}
use pintos_lab.Structures.LinkedList.{Elems, set_prev, set_next, list_insert, list_remove}
use pintos_lab.Structures.LinkedList.Linked.{
  has, Distinct, Linked, has-append, Linked-join, Linked-left, Linked-right, set_next-Linked,
  set_next-Linked_last, set_prev-Linked_first, set_prev-Linked, Distinct-append,
}

-- Linked, without repetition, and without NULL.
pub record IsRing (h : Elems) (zs : List ℕ) : Type 0 where
  pub linked : Linked h zs
  pub distinct : Distinct zs
  pub non_null : has 0 zs ≡ false

-- Only the `next` of `a` and `c` and the `prev` of `b` and `c` differ.
abbrev pub OnlyNear : ℕ → ℕ → ℕ → Elems → Elems → Type 0
OnlyNear a b c h h' =
    ((x : ℕ) → (a == x) ≡ false → (c == x) ≡ false → h'.next x ≡ h.next x)
    × ((x : ℕ) → (b == x) ≡ false → (c == x) ≡ false → h'.prev x ≡ h.prev x)

module _ (h : Elems) (ps qs : List ℕ) (p e b : ℕ) where
  pub inserted : Elems
  inserted = set_prev b e (set_next p e (set_next e b (set_prev e p h)))

  pub insert_runs :
      h.prev b ≡ p
      → (b == 0) ≡ false
      → (p == 0) ≡ false
      → (e == 0) ≡ false
      → (e == b) ≡ false
      → list_insert b e h ≡ some inserted
  unfolding list_insert inserted set_prev set_next
  insert_runs f b0 p0 e0 ne = elim (Bool-cases (h.next b == 0)) [
    | inl z ↦ rw (f, z, b0, p0, e0, ne) refl
    | inr z ↦ rw (f, z, b0, p0, e0, ne) refl
  ]

  -- The elements before and behind the place, and a new one, are different ones.
  pub record AreApart : Type 0 where
    pub p_ps : has p ps ≡ false
    pub b_ps : has b ps ≡ false
    pub e_ps : has e ps ≡ false
    pub p_qs : has p qs ≡ false
    pub b_qs : has b qs ≡ false
    pub e_qs : has e qs ≡ false
    pub p_b : (p == b) ≡ false
    pub p_e : (p == e) ≡ false
    pub e_b : (e == b) ≡ false

  pub insert-AreApart : Distinct (ps ++ p ∷ b ∷ qs) → has e (ps ++ p ∷ b ∷ qs) ≡ false → AreApart
  insert-AreApart d o =
      let (dl, dr, apart) = Distinct-append ps (p ∷ b ∷ qs) d in
      let e_out = has-append e ps (p ∷ b ∷ qs) in
      record {
        p_ps = ground (arith, apart p);
        b_ps = ground (arith, apart b);
        e_ps = ground (arith, e_out, o);
        p_qs = ground (arith, dr);
        b_qs = ground (arith, dr);
        e_qs = ground (arith, e_out, o);
        p_b = ground (arith, dr);
        p_e = ground (arith, e_out, o);
        e_b = ground (arith, e_out, o);
      }

  middle : AreApart → (inserted.next p ≡ e) × (inserted.prev e ≡ p)
  unfolding inserted set_prev set_next
  middle a = ground (arith, a.e_b)

  middle2 : AreApart → (inserted.next e ≡ b) × (inserted.prev b ≡ e)
  unfolding inserted set_prev set_next
  middle2 a = ground (arith, a.p_e)

  pub insert-Linked :
      AreApart → Linked h (ps ++ p ∷ b ∷ qs) → Linked inserted (ps ++ p ∷ e ∷ b ∷ qs)
  unfolding inserted
  insert-Linked a l =
      let h1 = set_prev e p h in
      let h2 = set_next e b h1 in
      let h3 = set_next p e h2 in
      let e_left : has e (ps ++ p ∷ []) ≡ false =
        ground (arith, has-append e ps (p ∷ []), a.e_ps, a.p_e) in
      let b_left : has b (ps ++ p ∷ []) ≡ false =
        ground (arith, has-append b ps (p ∷ []), a.b_ps, a.p_b) in
      let left' : Linked inserted (ps ++ p ∷ []) = set_prev-Linked h3 b e (ps ++ p ∷ []) b_left (
        set_next-Linked_last h2 p e p ps a.p_ps (
          set_next-Linked_last h1 e b p ps a.e_ps
            (set_prev-Linked h e p (ps ++ p ∷ []) e_left (Linked-left h ps (b ∷ qs) p l)))) in
      let right' : Linked inserted (b ∷ qs) = set_prev-Linked_first h3 b e b qs a.b_qs (
        set_next-Linked h2 p e (b ∷ qs) (ground (arith, a.p_b, a.p_qs)) (
          set_next-Linked h1 e b (b ∷ qs) (ground (arith, a.e_b, a.e_qs))
            (set_prev-Linked_first h e p b qs a.e_qs (Linked-right h ps (b ∷ qs) p l).1))) in
      Linked-join inserted ps (e ∷ b ∷ qs) p left' (middle a, (middle2 a, right'))

  pub insert-others : OnlyNear p b e h inserted
  unfolding inserted set_prev set_next
  insert-others = (λ x f g. rw (f, g) refl, λ x f g. rw (f, g) refl)

  pub removed : Elems
  removed = set_prev b p (set_next p b h)

  pub remove_runs :
      h.prev e ≡ p
      → h.next e ≡ b
      → (b == 0) ≡ false
      → (p == 0) ≡ false
      → (e == 0) ≡ false
      → AreApart
      → list_remove e h ≡ some (b, removed)
  unfolding list_remove removed set_prev set_next
  remove_runs f g b0 p0 e0 a = rw (f, g, b0, p0, e0, a.p_e) refl

  pub remove-AreApart : Distinct (ps ++ p ∷ e ∷ b ∷ qs) → AreApart
  remove-AreApart d =
      let (dl, dr, apart) = Distinct-append ps (p ∷ e ∷ b ∷ qs) d in
      record {
        p_ps = ground (arith, apart p);
        b_ps = ground (arith, apart b);
        e_ps = ground (arith, apart e);
        p_qs = ground (arith, dr);
        b_qs = ground (arith, dr);
        e_qs = ground (arith, dr);
        p_b = ground (arith, dr);
        p_e = ground (arith, dr);
        e_b = ground (arith, dr);
      }

  joined : AreApart → (removed.next p ≡ b) × (removed.prev b ≡ p)
  unfolding removed set_prev set_next
  joined a = ground arith

  pub remove-Linked : AreApart → Linked h (ps ++ p ∷ e ∷ b ∷ qs) → Linked removed (ps ++ p ∷ b ∷ qs)
  unfolding removed
  remove-Linked a l =
      let h1 = set_next p b h in
      let b_left : has b (ps ++ p ∷ []) ≡ false =
        ground (arith, has-append b ps (p ∷ []), a.b_ps, a.p_b) in
      let left' : Linked removed (ps ++ p ∷ []) =
        set_prev-Linked h1 b p (ps ++ p ∷ []) b_left
          (set_next-Linked_last h p b p ps a.p_ps (Linked-left h ps (e ∷ b ∷ qs) p l)) in
      let right' : Linked removed (b ∷ qs) = set_prev-Linked_first h1 b p b qs a.b_qs (
        set_next-Linked h p b (b ∷ qs) (ground (arith, a.p_b, a.p_qs))
          (Linked-right h ps (e ∷ b ∷ qs) p l).1.1) in
      Linked-join removed ps (b ∷ qs) p left' (joined a, right')

  pub remove-others : OnlyNear p b e h removed
  unfolding removed set_prev set_next
  remove-others = (λ x f g. rw f refl, λ x f g. rw f refl)
