-- ===== src/Structures/HashTable/Changes.antt =====
-- What insertion and deletion change of the answers of `hash_find`.
use pintos_lab.Base.{
  ℕ, ◌≡◌, refl, sym, ◌∙◌, subst, Bool, true, false, not, ◌&&◌, ◌||◌, Option, none, some, ◌==◌,
  if◌then◌else◌, arith, Bool-cases, inl, inr,
}
use pintos_lab.Structures.HashTable.{
  HashTable, equal, insert_elem, remove_elem, hash_find, hash_insert, hash_delete,
}
use pintos_lab.Structures.HashTable.Members.{
  Laws, member, IsValid, find-Finds, find_unique, find_nothing,
}
use pintos_lab.Structures.HashTable.Table.{rehash-Keeps, insert_elem-IsValid}
use pintos_lab.Structures.HashTable.Removal.{remove_elem-IsValid}

module _ (hash : ℕ → ℕ) (less : ℕ → ℕ → Bool) (laws : Laws hash less) where
  -- The answer for `e` after `new` was inserted, where the answer before was `r`.
  abbrev pub with_new : ℕ → ℕ → Option ℕ → Option ℕ
  with_new new e none = if equal hash less new e then some new else none
  with_new new e (some x) = some x

  find_inserted :
      (new e : ℕ) (h h' : HashTable)
      → IsValid hash less laws h
      → IsValid hash less laws h'
      → ((x : ℕ) → member hash less laws h' x ≡ (member hash less laws h x || (new == x)))
      → hash_find hash less h' e ≡ with_new new e (hash_find hash less h e)
  find_inserted new e h h' v v' same = elim (find-Finds hash less laws h e) [
    | inr (x, r, m, q) ↦ rw r (find_unique hash less laws h' e x v' (ground (arith, same x, m)) q)
    | inl (r, none_of) ↦ rw r (elim (Bool-cases (equal hash less new e)) [
      | inl q ↦ rw q (find_unique hash less laws h' e new v' (ground (arith, same new)) q)
      | inr q ↦ rw q (
          find_nothing hash less laws h' e (λ x m. elim (Bool-cases (new == x)) [
            | inl s ↦
                (let is : new ≡ x = ground (arith, s) in
                  subst (λ z. equal hash less z e ≡ false) is q)
            | inr s ↦ none_of x (ground (arith, same x, m, s))
          ]))
    ])
  ]

  find_same :
      (e : ℕ) (h h' : HashTable)
      → IsValid hash less laws h'
      → ((x : ℕ) → member hash less laws h' x ≡ member hash less laws h x)
      → hash_find hash less h' e ≡ hash_find hash less h e
  find_same e h h' v' same = elim (find-Finds hash less laws h e) [
    | inr (x, r, m, q) ↦ rw r (find_unique hash less laws h' e x v' (same x ∙ m) q)
    | inl (r, none_of) ↦
        rw r (find_nothing hash less laws h' e (λ x m. none_of x (sym (same x) ∙ m)))
  ]

  equal_sym : (x y : ℕ) → equal hash less x y ≡ true → equal hash less y x ≡ true
  equal_sym x y q = ground (arith, q)

  known :
      (new old e : ℕ) (h : HashTable)
      → member hash less laws h old ≡ true
      → equal hash less old new ≡ true
      → hash_find hash less h e ≡ with_new new e (hash_find hash less h e)
  known new old e h m q = elim (find-Finds hash less laws h e) [
    | inr (x, r, m', q') ↦ rw r refl
    | inl (r, none_of) ↦ (elim (Bool-cases (equal hash less new e)) [
      | inr s ↦ rw (r, s) refl
      | inl s ↦
          (let t = laws.equal_trans old e new q (equal_sym new e s) in let n = none_of old m in cc)
    ])
  ]

  absent :
      (key e : ℕ) (h : HashTable)
      → ((x : ℕ) → member hash less laws h x ≡ true → equal hash less x key ≡ false)
      → hash_find hash less h e ≡ (if equal hash less key e then none else hash_find hash less h e)
  absent key e h none_of = elim (Bool-cases (equal hash less key e)) [
    | inr s ↦ rw s refl
    | inl s ↦ rw s (
        find_nothing hash less laws h e (λ x m. elim (Bool-cases (equal hash less x e)) [
          | inr t ↦ t
          | inl t ↦ (let u = laws.equal_trans x key e t s in let n = none_of x m in cc)
        ]))
  ]

  find_deleted :
      (key found e : ℕ) (h h' : HashTable)
      → IsValid hash less laws h
      → IsValid hash less laws h'
      → member hash less laws h found ≡ true
      → equal hash less found key ≡ true
      → ((x : ℕ) → member hash less laws h' x ≡ (member hash less laws h x && not (found == x)))
      → hash_find hash less h' e ≡ (if equal hash less key e then none else hash_find hash less h e)
  find_deleted key found e h h' v v' m q same = elim (Bool-cases (equal hash less key e)) [
    | inl s ↦ rw s (
        find_nothing hash less laws h' e (λ x mx. elim (Bool-cases (equal hash less x e)) [
          | inr t ↦ t
          | inl t ↦
              (let u : equal hash less found x ≡ true =
                  laws.equal_trans found x e (laws.equal_trans found e key q (equal_sym key e s))
                    t in
                let is : found ≡ x = v.single found x m (ground (arith, same x, mx)) u in
                absurd (ground (arith, same x, mx, is)))
        ]))
    | inr s ↦ rw s (elim (find-Finds hash less laws h e) [
      | inl (r, none_of) ↦
          rw r (find_nothing hash less laws h' e (λ x mx. none_of x (ground (arith, same x, mx))))
      | inr (x, r, mx, t) ↦
          (let other : (found == x) ≡ false = elim (Bool-cases (found == x)) [
            | inr n ↦ n
            | inl n ↦
                (let is : found ≡ x = ground (arith, n) in
                  let t' : equal hash less found e ≡ true =
                    subst (λ z. equal hash less z e ≡ true) (sym is) t in
                  let k =
                    laws.equal_trans key e found (equal_sym found key q) (equal_sym found e t') in
                  cc)
          ] in
            rw r (find_unique hash less laws h' e x v' (ground (arith, same x, mx, other)) t))
    ])
  ]

  -- `hash_insert` into a valid table ends in a valid table, whether or not there is memory for new
  -- buckets. It answers with the equal element from before, if any. Afterwards `hash_find` answers
  -- for every element as before, and with the new element for those equal to it that it did not
  -- find before.
  pub insert-find :
      (malloc_ok : Bool) (new : ℕ) (h : HashTable)
      → IsValid hash less laws h
      → (h' : HashTable) × (hash_insert hash less malloc_ok new h
          ≡ some (hash_find hash less h new, h'))
        × IsValid hash less laws h'
        × ((e : ℕ) → hash_find hash less h' e ≡ with_new new e (hash_find hash less h e))
  unfolding hash_insert
  insert-find malloc_ok new h v = elim (find-Finds hash less laws h new) [
    | inl (r, none_of) ↦
        (let (v1, same1) = insert_elem-IsValid hash less laws new h v none_of in
          let (h', run, v', same) =
            rehash-Keeps hash less laws malloc_ok (insert_elem hash less new h) v1 in
          rw (r, run) (h', refl, v', λ e. find_inserted new e h h' v v' (λ x. same x ∙ same1 x)))
    | inr (old, r, m, q) ↦
        (let (h', run, v', same) = rehash-Keeps hash less laws malloc_ok h v in
          rw (r, run) (h', refl, v', λ e. find_same e h h' v' same ∙ known new old e h m q))
  ]

  -- The answer for `e` after the element `found` was deleted.
  abbrev pub without : ℕ → ℕ → Option ℕ → Option ℕ
  without found e r = if equal hash less found e then none else r

  -- `hash_delete` from a valid table ends in a valid table. It answers with the equal element, if
  -- any; afterwards `hash_find` answers with none for the elements equal to that one, and for
  -- every other element as before.
  pub delete-find :
      (malloc_ok : Bool) (key : ℕ) (h : HashTable)
      → IsValid hash less laws h
      → (h' : HashTable) × (hash_delete hash less malloc_ok key h
          ≡ some (hash_find hash less h key, h'))
        × IsValid hash less laws h'
        × ((e : ℕ) → hash_find hash less h' e ≡ without key e (hash_find hash less h e))
  unfolding hash_delete
  delete-find malloc_ok key h v = elim (find-Finds hash less laws h key) [
    | inl (r, none_of) ↦ rw (r, hash_delete) (h, refl, v, λ e. absent key e h none_of)
    | inr (found, r, m, q) ↦
        (let (v1, same1) = remove_elem-IsValid hash less laws found h v m in
          let (h', run, v', same) =
            rehash-Keeps hash less laws malloc_ok (remove_elem hash less found h) v1 in
          rw (r, hash_delete, run)
            (h', refl, v', λ e. find_deleted key found e h h' v v' m q (λ x. same x ∙ same1 x)))
  ]
