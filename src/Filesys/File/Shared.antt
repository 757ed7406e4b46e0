-- ===== src/Filesys/File/Shared.antt =====
-- Operations on files that share inodes: no assertion fails, and the counts stay right.
use pintos_lab.Base.{
  ◌+◌, ◌-◌, ◌≡◌, refl, true, false, some, List, ◌∷◌, ◌++◌, ltb, leb, arith, Bool-cases, inl, inr,
}
use pintos_lab.Filesys.Inode.{inode_deny_write, inode_allow_write, inode_close}
use pintos_lab.Filesys.File.{File, Inodes, set_inode, file_deny_write, file_allow_write, file_close}
use pintos_lab.Filesys.File.Counts.{
  Counts, opened_at, denying_at, deniers-le-openers, Counts-at, Counts-close,
}

module _ (xs ys : List File) (f : File) (inodes : Inodes) where
  -- `file_deny_write` of a file, the counts being right, fails no assertion; the file then denies
  -- writes, and the counts are right.
  pub deny-Counts :
      Counts (xs ++ f ∷ ys) inodes
      → (f' : File) × (inodes' : Inodes) × (file_deny_write f inodes ≡ some (f', inodes'))
        × (f'.deny_write ≡ true)
        × Counts (xs ++ f' ∷ ys) inodes'
  unfolding file_deny_write inode_deny_write
  deny-Counts c = elim (Bool-cases f.deny_write) [
    | inl d ↦ (f, inodes, ground (arith, d), d, c)
    | inr d ↦
        (let denying = denying_at xs ys f inodes c in
          let fits : leb ((inodes f.inode).deny_write_cnt + 1) (inodes f.inode).open_cnt ≡ true =
            ground (
              arith,
              d,
              opened_at xs ys f inodes c,
              denying,
              deniers-le-openers f.inode (xs ++ ys),
            ) in
          let inode = record (inodes f.inode) {
            deny_write_cnt = (inodes f.inode).deny_write_cnt + 1;
          } in
          let f' : File = record f { deny_write = true } in
          (
            f',
            set_inode inodes f.inode inode,
            ground (arith, d, fits),
            refl,
            Counts-at xs ys f f' inodes inode c refl refl (ground (arith, d, denying)),
          ))
  ]

  -- `file_allow_write` of a file, likewise; the file then denies no writes.
  pub allow-Counts :
      Counts (xs ++ f ∷ ys) inodes
      → (f' : File) × (inodes' : Inodes) × (file_allow_write f inodes ≡ some (f', inodes'))
        × (f'.deny_write ≡ false)
        × Counts (xs ++ f' ∷ ys) inodes'
  unfolding file_allow_write inode_allow_write
  allow-Counts c = elim (Bool-cases f.deny_write) [
    | inr d ↦ (f, inodes, ground (arith, d), d, c)
    | inl d ↦
        (let denying = denying_at xs ys f inodes c in
          let some_denies : ltb 0 (inodes f.inode).deny_write_cnt ≡ true =
            ground (arith, d, denying) in
          let fits : leb (inodes f.inode).deny_write_cnt (inodes f.inode).open_cnt ≡ true = ground (
            arith,
            d,
            opened_at xs ys f inodes c,
            denying,
            deniers-le-openers f.inode (xs ++ ys),
          ) in
          let inode = record (inodes f.inode) {
            deny_write_cnt = (inodes f.inode).deny_write_cnt - 1;
          } in
          let f' : File = record f { deny_write = false } in
          (
            f',
            set_inode inodes f.inode inode,
            ground (arith, d, some_denies, fits),
            refl,
            Counts-at xs ys f f' inodes inode c refl refl (ground (arith, d, denying)),
          ))
  ]

  -- `file_close` of a file, the counts being right, fails no assertion, and the counts are right
  -- for the other files.
  pub close-Counts :
      Counts (xs ++ f ∷ ys) inodes
      → (inodes' : Inodes) × (file_close f inodes ≡ some inodes') × Counts (xs ++ ys) inodes'
  unfolding file_close
  close-Counts c =
      let (f', mid, e, d, c') = allow-Counts c in
      (
        set_inode mid f'.inode (inode_close (mid f'.inode)),
        rw e refl,
        Counts-close xs ys f' mid c' d,
      )
