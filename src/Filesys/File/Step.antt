-- ===== src/Filesys/File/Step.antt =====
-- What the kernel does with its open files, one call at a time.
use pintos_lab.Base.{ℕ, ◌≡◌, Bool, true, ◌^◌, Option, some, List, ◌∷◌, ◌++◌, ltb, ◌>>=◌}
use pintos_lab.Filesys.Inode.{Bytes, Device, inode_open}
use pintos_lab.Filesys.File.{
  File, Inodes, set_inode, file_open, file_reopen, file_deny_write, file_allow_write, file_close,
  with_new, file_seek, file_read, file_write,
}

-- A call on an open file. `reopen`, `read` and `write` say whether there is memory; `read` and
-- `write` have the device, the buffer and the size.
pub data Action : Type 0 where
  reopen : Bool → Action
  deny allow close : Action
  seek : ℕ → Action
  read write : Bool → Device → Bytes → ℕ → Action

-- The open files and the inodes after a call on file `f`, which stands between `xs` and `ys`.
unfoldable pub perform :
    Action → List File → List File → File → Inodes → Option (List File × Inodes)
perform (reopen malloc_ok) xs ys f inodes =
    let (new, inodes') = file_reopen malloc_ok f inodes in
    some (with_new new (xs ++ f ∷ ys), inodes')
perform deny xs ys f inodes = do
  (f', inodes') ← file_deny_write f inodes
  some (xs ++ f' ∷ ys, inodes')
perform allow xs ys f inodes = do
  (f', inodes') ← file_allow_write f inodes
  some (xs ++ f' ∷ ys, inodes')
perform close xs ys f inodes = do inodes' ← file_close f inodes; some (xs ++ ys, inodes')
perform (seek pos) xs ys f inodes = do f' ← file_seek f pos; some (xs ++ f' ∷ ys, inodes)
perform (read malloc_ok disk buffer size) xs ys f inodes =
    some (xs ++ (file_read malloc_ok disk inodes f buffer size).2 ∷ ys, inodes)
perform (write malloc_ok disk buffer size) xs ys f inodes =
    some (xs ++ (file_write malloc_ok inodes f buffer size disk).2 ∷ ys, inodes)

-- `file_seek` demands a position that is not negative.
unfoldable pub allowed : Action → Bool
allowed (seek pos) = ltb pos (2 ^ 31)
allowed (reopen malloc_ok) = true
allowed deny = true
allowed allow = true
allowed close = true
allowed (read malloc_ok disk buffer size) = true
allowed (write malloc_ok disk buffer size) = true

abbrev pub opened : ℕ → ℕ → ℕ → ℕ → Inodes → Inodes
opened a sector start length inodes = set_inode inodes a (inode_open sector start length)

-- A call on an open file, or the opening of an inode, which takes memory at an address where no
-- open inode is.
pub data Step (fs : List File) (inodes : Inodes) (fs' : List File) (inodes' : Inodes) : Type 0 where
  does :
      (action : Action) (xs ys : List File) (f : File)
      → fs ≡ xs ++ f ∷ ys
      → allowed action ≡ true
      → perform action xs ys f inodes ≡ some (fs', inodes')
      → Step fs inodes fs' inodes'
  opens :
      (malloc_ok : Bool) (a sector start length : ℕ)
      → (inodes a).open_cnt ≡ 0
      → fs' ≡ with_new (file_open malloc_ok a (opened a sector start length inodes)).0 fs
      → inodes' ≡ (file_open malloc_ok a (opened a sector start length inodes)).1
      → Step fs inodes fs' inodes'

pub data Reach (fs : List File) (inodes : Inodes) : List File → Inodes → Type 0 where
  here : Reach fs inodes fs inodes
  next :
      {fs' fs'' : List File} {inodes' inodes'' : Inodes}
      → Reach fs inodes fs' inodes'
      → Step fs' inodes' fs'' inodes''
      → Reach fs inodes fs'' inodes''
