-- ===== src/Filesys/File/Counts.antt =====
-- The counts that an inode keeps of its openers, and of those of them that deny writes, are the
-- numbers of the open files.
use pintos_lab.Base.{
  Bool, List, [], arith, false, if◌then◌else◌, true, ℕ, ◌&&◌, ◌++◌, ◌+◌, ◌==◌, ◌∷◌, ◌≡◌, ◌≤◌,
}
use pintos_lab.Filesys.Inode.{Inode, inode_close}
use pintos_lab.Filesys.File.{File, Inodes, set_inode, file_open, with_new}

-- How many of the files are on the inode at an address, and how many of these deny writes.
unfoldable pub openers : ℕ → List File → ℕ
openers a [] = 0
openers a (f ∷ fs) = (if f.inode == a then 1 else 0) + openers a fs

unfoldable pub deniers : ℕ → List File → ℕ
deniers a [] = 0
deniers a (f ∷ fs) = (if (f.inode == a) && f.deny_write then 1 else 0) + deniers a fs

pub record Counts (files : List File) (inodes : Inodes) : Type 0 where
  pub opened : (a : ℕ) → (inodes a).open_cnt ≡ openers a files
  pub denying : (a : ℕ) → (inodes a).deny_write_cnt ≡ deniers a files

openers-append : (a : ℕ) (xs ys : List File) → openers a (xs ++ ys) ≡ openers a xs + openers a ys
unfolding openers
openers-append a [] ys = omega arith
openers-append a (x ∷ xs) ys = omega (arith, openers-append a xs ys)

deniers-append : (a : ℕ) (xs ys : List File) → deniers a (xs ++ ys) ≡ deniers a xs + deniers a ys
unfolding deniers
deniers-append a [] ys = omega arith
deniers-append a (x ∷ xs) ys = omega (arith, deniers-append a xs ys)

pub deniers-le-openers : (a : ℕ) (xs : List File) → deniers a xs ≤ openers a xs
unfolding deniers openers
deniers-le-openers a [] = omega arith
deniers-le-openers a (x ∷ xs) = ground (arith, deniers-le-openers a xs)

-- One open file among the others.
module _ (xs ys : List File) (f : File) where
  pub openers_at :
      (a : ℕ) → openers a (xs ++ f ∷ ys) ≡ openers a (xs ++ ys) + (if f.inode == a then 1 else 0)
  unfolding openers
  openers_at a = ground (arith, openers-append a xs (f ∷ ys), openers-append a xs ys)

  pub deniers_at :
      (a : ℕ)
      → deniers a (xs ++ f ∷ ys)
        ≡ deniers a (xs ++ ys) + (if (f.inode == a) && f.deny_write then 1 else 0)
  unfolding deniers
  deniers_at a = ground (arith, deniers-append a xs (f ∷ ys), deniers-append a xs ys)

  pub opened_at :
      (inodes : Inodes)
      → Counts (xs ++ f ∷ ys) inodes
      → (inodes f.inode).open_cnt ≡ openers f.inode (xs ++ ys) + 1
  opened_at inodes c = ground (arith, c.opened f.inode, openers_at f.inode)

  pub denying_at :
      (inodes : Inodes)
      → Counts (xs ++ f ∷ ys) inodes
      → (inodes f.inode).deny_write_cnt
        ≡ deniers f.inode (xs ++ ys) + (if f.deny_write then 1 else 0)
  denying_at inodes c = ground (arith, c.denying f.inode, deniers_at f.inode)

-- The counts where the file at a place is another one on the same inode.
pub Counts-at :
    (xs ys : List File) (f f' : File) (inodes : Inodes) (inode : Inode)
    → Counts (xs ++ f ∷ ys) inodes
    → f'.inode ≡ f.inode
    → inode.open_cnt ≡ (inodes f.inode).open_cnt
    → inode.deny_write_cnt ≡ deniers f.inode (xs ++ ys) + (if f'.deny_write then 1 else 0)
    → Counts (xs ++ f' ∷ ys) (set_inode inodes f.inode inode)
Counts-at xs ys f f' inodes inode c s o d = record {
  opened = λ a. ground (arith, s, o, c.opened a, openers_at xs ys f a, openers_at xs ys f' a);
  denying = λ a. ground (arith, s, d, c.denying a, deniers_at xs ys f a, deniers_at xs ys f' a);
}

-- The counts where a file that denies no writes is closed.
pub Counts-close :
    (xs ys : List File) (f : File) (inodes : Inodes)
    → Counts (xs ++ f ∷ ys) inodes
    → f.deny_write ≡ false
    → Counts (xs ++ ys) (set_inode inodes f.inode (inode_close (inodes f.inode)))
unfolding inode_close
Counts-close xs ys f inodes c d = record {
  opened = λ a. ground (arith, c.opened a, openers_at xs ys f a);
  denying = λ a. ground (arith, d, c.denying a, deniers_at xs ys f a);
}

-- `file_open` of an inode whose count of openers has been raised for it, with and without memory.
pub Counts-file_open :
    (malloc_ok : Bool) (fs : List File) (a : ℕ) (mid : Inodes)
    → ((b : ℕ) → (mid b).open_cnt ≡ openers b fs + (if a == b then 1 else 0))
    → ((b : ℕ) → (mid b).deny_write_cnt ≡ deniers b fs)
    → Counts (with_new (file_open malloc_ok a mid).0 fs) (file_open malloc_ok a mid).1
unfolding file_open with_new inode_close openers deniers
Counts-file_open true fs a mid o d = record {
  opened = λ b. ground (arith, o b);
  denying = λ b. ground (arith, d b);
}
Counts-file_open false fs a mid o d = record {
  opened = λ b. ground (arith, o b);
  denying = λ b. ground (arith, d b);
}
