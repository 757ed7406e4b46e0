-- ===== src/Structures/HashTable/Examples.antt =====
-- A table of numbers that are their own hashes, with the element 5.
use pintos_lab.Base.{
  ℕ, ◌≡◌, refl, sym, ap, ◌∙◌, true, Option, none, some, [], ◌∷◌, ◌==◌, ltb, if◌then◌else◌, arith,
  Bool-cases, inl, inr,
}
use pintos_lab.Structures.LinkedList.Linked.{has}
use pintos_lab.Structures.HashTable.{
  HashTable, turn_off_least_1bit, round_down, hash_find, find_elem, hash_insert, hash_delete,
  rehash, insert_elem, bucket_idx,
}
use pintos_lab.Structures.HashTable.Members.{Laws, IsValid, total}
use pintos_lab.Structures.HashTable.Changes.{with_new, without, insert-find, delete-find}

abbrev id_hash : ℕ → ℕ
id_hash x = x

laws : Laws id_hash ltb
laws = record {
  irrefl = λ x. ground arith;
  equal_trans = λ x y z p q. ground (arith, p, q);
  hash_equal = λ x y q. ground (arith, q);
}

abbrev table : HashTable
table = record { elem_cnt = 1; bucket_cnt = 4; buckets = λ i. if i == 1 then 5 ∷ [] else [] }

is_five : (i x : ℕ) → has x (table.buckets i) ≡ true → (i ≡ 1) × (x ≡ 5)
is_five i x h = elim (Bool-cases (i == 1)) [
  | inl e ↦ ground (arith, e, h)
  | inr e ↦ ground (arith, e, h)
]

table-IsValid : IsValid id_hash ltb laws table
unfolding total
table-IsValid = record {
  some_buckets = omega arith;
  placed = λ i x m.
      (is_five i x m).0 ∙ ap (λ (y : ℕ). bucket_idx id_hash ltb 4 y) (sym (is_five i x m).1);
  once = λ i. elim (Bool-cases (i == 1)) [ inl e ↦ rw e (refl, tt) | inr e ↦ rw e tt ];
  single = λ x y mx my q. ground (arith, q);
  sized = refl;
}

answer : Option (Option ℕ × HashTable) → ℕ → Option ℕ
unfolding hash_find find_elem
answer none e = none
answer (some (old, h)) e = hash_find id_hash ltb h e

nine_found : answer (hash_insert id_hash ltb true 9 table) 9 ≡ some 9
unfolding answer hash_insert hash_find find_elem rehash round_down turn_off_least_1bit insert_elem
nine_found = refl

insert-find_example :
    (h' : HashTable) × (hash_insert id_hash ltb true 9 table
      ≡ some (hash_find id_hash ltb table 9, h'))
    × IsValid id_hash ltb laws h'
    × ((e : ℕ)
        → hash_find id_hash ltb h' e
          ≡ with_new id_hash ltb laws 9 e (hash_find id_hash ltb table e))
insert-find_example = insert-find id_hash ltb laws true 9 table table-IsValid

delete-find_example :
    (h' : HashTable) × (hash_delete id_hash ltb true 5 table
      ≡ some (hash_find id_hash ltb table 5, h'))
    × IsValid id_hash ltb laws h'
    × ((e : ℕ)
        → hash_find id_hash ltb h' e ≡ without id_hash ltb laws 5 e (hash_find id_hash ltb table e))
delete-find_example = delete-find id_hash ltb laws true 5 table table-IsValid
