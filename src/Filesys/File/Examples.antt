-- ===== src/Filesys/File/Examples.antt =====
-- A file that is opened, reopened, and denied writes by one of its openers.
use pintos_lab.Base.{◌≡◌, refl, true, false, [], ◌∷◌}
use pintos_lab.Filesys.Inode.{inode_open, inode_reopen, inode_deny_write}
use pintos_lab.Filesys.File.{
  File, Inodes, set_inode, file_open, file_reopen, file_deny_write, file_write, with_new,
}
use pintos_lab.Filesys.File.Counts.{openers, deniers, Counts}
use pintos_lab.Filesys.File.Step.{
  deny, close, reopen, perform, allowed, does, opens, Reach, here, next,
}
use pintos_lab.Filesys.File.Reach.{Kept, calls-Kept, deny-no_write}

-- No inode is open.
abbrev no_inodes : Inodes
no_inodes = λ a. record {
  sector = 0;
  open_cnt = 0;
  removed = false;
  deny_write_cnt = 0;
  start = 0;
  length = 0;
}

no_inodes-Counts : Counts [] no_inodes
unfolding openers deniers
no_inodes-Counts = record { opened = λ a. refl; denying = λ a. refl }

-- The inode at address 4 lives in sector 3 and has its 700 bytes from sector 5 on.
abbrev first : Inodes
first = set_inode no_inodes 4 (inode_open 3 5 700)

abbrev plain : File
plain = record { inode = 4; pos = 0; deny_write = false }

abbrev program : File
program = record { inode = 4; pos = 0; deny_write = true }

abbrev twice : Inodes
twice = (file_reopen true plain first).1

abbrev denied : Inodes
denied = set_inode twice 4 (record {
  sector = 3;
  open_cnt = 2;
  removed = false;
  deny_write_cnt = 1;
  start = 5;
  length = 700;
})

run : Reach [] no_inodes (program ∷ plain ∷ []) denied
unfolding perform allowed with_new file_open file_reopen file_deny_write inode_open inode_reopen
    inode_deny_write
run =
    next
      (next (next here (opens true 4 3 5 700 refl refl refl))
        (does (reopen true) [] [] plain refl refl refl))
      (does deny [] (plain ∷ []) plain refl refl refl)

allowed_close : allowed close ≡ true
unfolding allowed
allowed_close = refl

calls-Kept_example : Kept (perform close (program ∷ []) [] plain denied)
calls-Kept_example =
    calls-Kept (program ∷ plain ∷ []) denied no_inodes no_inodes-Counts run close (program ∷ []) []
      plain refl allowed_close

deny-no_write_example : file_write true denied plain (λ i. 7) 20 (λ s j. 0) ≡ (0, (λ s j. 0), plain)
deny-no_write_example =
    deny-no_write (program ∷ plain ∷ []) denied no_inodes no_inodes-Counts run [] (plain ∷ []) plain
      program true (λ i. 7) 20 (λ s j. 0) refl refl refl
