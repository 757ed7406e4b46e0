-- ===== src/Filesys/File/Reach.antt =====
-- From no open file on, no call on an open file fails an assertion, and nobody writes to an inode
-- while an open file on it denies writes.
use pintos_lab.Base.{
  ℕ, ◌≡◌, refl, sym, subst, ◌∙◌, Bool, true, false, Option, none, some, List, [], ◌∷◌, ◌++◌, ◌==◌,
  arith,
}
use pintos_lab.Filesys.Inode.{Bytes, Device, inode_open, inode_reopen, inode_write_at}
use pintos_lab.Filesys.File.{
  File, Inodes, set_inode, file_open, file_reopen, file_seek, file_read, file_write, with_new,
}
use pintos_lab.Filesys.File.Counts.{
  openers, deniers, Counts, openers_at, deniers_at, denying_at, deniers-le-openers,
  Counts-file_open,
}
use pintos_lab.Filesys.File.Shared.{deny-Counts, allow-Counts, close-Counts}
use pintos_lab.Filesys.File.Step.{
  Action, reopen, deny, allow, close, seek, read, write, perform, allowed, Step, does, opens, Reach,
  here, next, opened,
}

-- A call goes on, and leaves the counts right.
abbrev pub Kept : Option (List File × Inodes) → Type 0
Kept r = (fs' : List File) × (inodes' : Inodes) × (r ≡ some (fs', inodes')) × Counts fs' inodes'

-- The file at a place has only its position changed.
moved-Counts :
    (xs ys : List File) (f : File) (pos : ℕ) (inodes : Inodes)
    → Counts (xs ++ f ∷ ys) inodes
    → Counts (xs ++ (record f { pos = pos }) ∷ ys) inodes
moved-Counts xs ys f pos inodes c =
    let f' : File = record f { pos = pos } in
    record {
      opened = λ a. ground (arith, c.opened a, openers_at xs ys f a, openers_at xs ys f' a);
      denying = λ a. ground (arith, c.denying a, deniers_at xs ys f a, deniers_at xs ys f' a);
    }

pub perform-Kept :
    (action : Action) (xs ys : List File) (f : File) (inodes : Inodes)
    → Counts (xs ++ f ∷ ys) inodes
    → allowed action ≡ true
    → Kept (perform action xs ys f inodes)
unfolding perform allowed file_reopen inode_reopen file_seek file_read file_write
perform-Kept (reopen malloc_ok) xs ys f inodes c ok = (
  _,
  _,
  refl,
  Counts-file_open malloc_ok (xs ++ f ∷ ys) f.inode
      (set_inode inodes f.inode (inode_reopen (inodes f.inode))) (λ b. ground (arith, c.opened b))
      (λ b. ground (arith, c.denying b)),
)
perform-Kept deny xs ys f inodes c ok =
    let (f', inodes', e, d, c') = deny-Counts xs ys f inodes c in
    (xs ++ f' ∷ ys, inodes', rw e refl, c')
perform-Kept allow xs ys f inodes c ok =
    let (f', inodes', e, d, c') = allow-Counts xs ys f inodes c in
    (xs ++ f' ∷ ys, inodes', rw e refl, c')
perform-Kept close xs ys f inodes c ok =
    let (inodes', e, c') = close-Counts xs ys f inodes c in (xs ++ ys, inodes', rw e refl, c')
perform-Kept (seek pos) xs ys f inodes c ok = rw ok (_, _, refl, moved-Counts xs ys f pos inodes c)
perform-Kept (read malloc_ok disk buffer size) xs ys f inodes c ok =
    (_, _, refl, moved-Counts xs ys f _ inodes c)
perform-Kept (write malloc_ok disk buffer size) xs ys f inodes c ok =
    (_, _, refl, moved-Counts xs ys f _ inodes c)

-- A new inode at an address where none is open.
opens-Counts :
    (malloc_ok : Bool) (fs : List File) (inodes : Inodes) (a sector start length : ℕ)
    → Counts fs inodes
    → (inodes a).open_cnt ≡ 0
    → Counts
        (with_new (file_open malloc_ok a (opened a sector start length inodes)).0 fs)
        (file_open malloc_ok a (opened a sector start length inodes)).1
unfolding inode_open
opens-Counts malloc_ok fs inodes a sector start length c z =
    let none_open : openers a fs ≡ 0 = omega (arith, z, c.opened a) in
    let no_denier : deniers a fs ≡ 0 = omega (arith, none_open, deniers-le-openers a fs) in
    Counts-file_open malloc_ok fs a (opened a sector start length inodes)
      (λ b. ground (arith, none_open, c.opened b)) (λ b. ground (arith, no_denier, c.denying b))

-- The counts are right after a call that goes on.
After : Option (List File × Inodes) → Type 0
After none = ⊥
After (some (fs, inodes)) = Counts fs inodes

Step-Counts :
    {fs fs' : List File} {inodes inodes' : Inodes}
    → Counts fs inodes
    → Step fs inodes fs' inodes'
    → Counts fs' inodes'
unfolding After
Step-Counts {inodes} c (does action xs ys f s ok e) =
    let (fs'', inodes'', k, c') =
      perform-Kept action xs ys f inodes (subst (λ s. Counts s inodes) s c) ok in
    subst After (sym k ∙ e) c'
Step-Counts {fs} {inodes} c (opens malloc_ok a sector start length z e e') =
    rw (e, e') (opens-Counts malloc_ok fs inodes a sector start length c z)

-- The counts of the inodes are right in every state that is reached from one where they are.
pub Reach-Counts :
    {fs : List File} {inodes : Inodes} {fs' : List File} {inodes' : Inodes}
    → Counts fs inodes
    → Reach fs inodes fs' inodes'
    → Counts fs' inodes'
Reach-Counts c here = c
Reach-Counts c (next r s) = Step-Counts (Reach-Counts c r) s

module _ (fs : List File) (inodes inodes_0 : Inodes) (c : Counts [] inodes_0)
    (r : Reach [] inodes_0 fs inodes) where
  -- In every state that calls reach from one without open files and with all counts 0, every
  -- allowed call on any of the open files ends without a failed assertion, and the two counts of
  -- every inode are then the numbers of the files open on it and of those of them that deny
  -- writes.
  pub calls-Kept :
      (action : Action) (xs ys : List File) (f : File)
      → fs ≡ xs ++ f ∷ ys
      → allowed action ≡ true
      → Kept (perform action xs ys f inodes)
  calls-Kept action xs ys f e ok =
      perform-Kept action xs ys f inodes (subst (λ s. Counts s inodes) e (Reach-Counts c r)) ok

  -- In every such state, while an open file denies writes, `file_write` through any file on the
  -- same inode returns 0 and changes neither the device nor the position.
  pub deny-no_write :
      (xs ys : List File) (f g : File) (malloc_ok : Bool) (buffer : Bytes) (size : ℕ)
      (disk : Device)
      → fs ≡ xs ++ g ∷ ys
      → g.deny_write ≡ true
      → f.inode ≡ g.inode
      → file_write malloc_ok inodes f buffer size disk ≡ (0, disk, f)
  unfolding file_write inode_write_at
  deny-no_write xs ys f g malloc_ok buffer size disk e d s =
      let denying = denying_at xs ys g inodes (subst (λ s. Counts s inodes) e (Reach-Counts c r)) in
      let nonzero : ((inodes f.inode).deny_write_cnt == 0) ≡ false =
        ground (arith, s, d, denying) in
      ground (arith, nonzero)
