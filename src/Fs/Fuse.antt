-- ===== src/Fs/Fuse.antt =====
-- The callbacks of fs.c that libfuse invokes for requests of the kernel.
pub mod Lookup
pub mod AfterCreate
pub mod AfterRemove
use symbi_os.Base.{
  ℕ, ◌%◌, Bool, not, ◌&&◌, Option, none, some, ◌==◌, if◌then◌else◌, is_some, Bytes, codes, bytes_eq,
}
use symbi_os.Base.Machine.{M, nyi, pure, ◌>>=◌, ◌>>◌, assert, deref}
use symbi_os.Base.Lists.{length, take}
use symbi_os.Uthash.{Hashes}
use symbi_os.Fs.{Stat, err, entry, attr, buf, open_file, FsFile, Fs, load_file, load_desc}
use symbi_os.Fs.Inode.{ino2inodesc}
use symbi_os.Fs.Dir.{is_directory, dir_of}
use symbi_os.Fs.Ops.{FuseLib, reply, op_stat, op_open, op_read, op_readdir}

abbrev pub enoent : ℕ
enoent = 2

abbrev pub eacces : ℕ
eacces = 13

abbrev pub eisdir : ℕ
eisdir = 21

abbrev pub enotsup : ℕ
enotsup = 95

abbrev pub zero_stat : Stat
zero_stat = record { st_ino = 0; st_mode = 0; st_nlink = 0; st_size = 0 }

-- `(flags & O_ACCMODE) != O_RDONLY`
abbrev pub writes : ℕ → Bool
writes flags = not (flags % 4 == 0)

module _ {H : Hashes} where
  -- `did->next != NULL || did->file->type != DIRECTORY` sends `ENOENT`; else the directory is used.
  unfoldable pub with_directory : ℕ → (FsFile H → M (Fs H) (Unit {0})) → M (Fs H) (Unit {0})
  unfolding ino2inodesc
  with_directory dirino use_dir = do
    i ← ino2inodesc dirino
    d ← load_desc i
    if is_some d.next then reply (err enoent) else do
      p ← deref d.file
      f ← load_file p
      if is_directory f.type then use_dir f else reply (err enoent)

  -- The file behind an inode in use: `assert(id->file != NULL && id->next == NULL)`.
  unfoldable pub file_of : ℕ → M (Fs H) (FsFile H)
  unfolding ino2inodesc
  file_of ino = do
    i ← ino2inodesc ino
    d ← load_desc i
    assert (is_some d.file && not (is_some d.next))
    p ← deref d.file
    load_file p

  unfoldable pub lookup_found : (pid : ℕ) → Option ℕ → M (Fs H) (Unit {0})
  lookup_found pid none = reply (err enoent)
  lookup_found pid (some q) = do
    f ← load_file q
    ops ← deref f.ops
    reply (entry f.ino (op_stat pid ops f zero_stat))

  unfoldable pub fs_fuse_lookup : (pid : ℕ) → ℕ → Bytes → M (Fs H) (Unit {0})
  unfolding with_directory lookup_found
  fs_fuse_lookup pid dirino name =
      with_directory dirino
        λ f. do dd ← dir_of f.content; lookup_found pid (H.name.find name dd.nm_files)

  unfoldable pub fs_fuse_getattr : (pid : ℕ) → ℕ → M (Fs H) (Unit {0})
  unfolding ino2inodesc
  fs_fuse_getattr pid ino = do
    i ← ino2inodesc ino
    d ← load_desc i
    if is_some d.next then reply (err enoent) else do
      assert (is_some d.file)
      p ← deref d.file
      f ← load_file p
      ops ← deref f.ops
      reply (attr (op_stat pid ops f zero_stat))

  unfoldable pub fs_fuse_readlink : ℕ → M (Fs H) (Unit {0})
  fs_fuse_readlink ino = nyi

  unfoldable pub open_with : Option (FsFile H → M (Fs H) Bool) → FsFile H → ℕ → M (Fs H) (Unit {0})
  open_with (some open_op) f flags = do open_op f; pure tt
  open_with none f flags =
      if is_directory f.type
      then reply (err eisdir)
      else if writes flags
      then reply (err eacces)
      else reply open_file

  unfoldable pub fs_fuse_open : ℕ → (flags : ℕ) → M (Fs H) (Unit {0})
  unfolding file_of open_with
  fs_fuse_open ino flags = do f ← file_of ino; ops ← deref f.ops; open_with (op_open ops) f flags

  -- `assert` of an operation, its call, and the error where it returns false
  unfoldable pub call_op : Option (M (Fs H) Bool) → ℕ → M (Fs H) (Unit {0})
  call_op none code = nyi
  call_op (some op) code = do ok ← op; if ok then pure tt else reply (err code)

  unfoldable pub fs_fuse_read : (pid : ℕ) → ℕ → (size off : ℕ) → M (Fs H) (Unit {0})
  unfolding file_of call_op
  fs_fuse_read pid ino size off = do
    f ← file_of ino
    ops ← deref f.ops
    elim (op_read {H = H} pid ops) [ none ↦ nyi | some op ↦ call_op (some (op size off)) eacces ]

  unfoldable pub fs_fuse_write : ℕ → Bytes → M (Fs H) (Unit {0})
  fs_fuse_write ino b = nyi

  unfoldable pub fs_fuse_readdir : FuseLib → ℕ → (size off : ℕ) → M (Fs H) (Unit {0})
  unfolding with_directory call_op
  fs_fuse_readdir L dirino size off = with_directory dirino λ f. do
    ops ← deref f.ops
    elim (op_readdir {H = H} L ops) [ none ↦ nyi | some op ↦ call_op (some (op f size off)) enoent ]

  unfoldable pub fs_fuse_setxattr : ℕ → (name value : Bytes) → (size : ℕ) → M (Fs H) (Unit {0})
  unfolding file_of
  fs_fuse_setxattr ino name value size = do
    file_of ino
    let exp_val = codes "fs_ll_setxattr_value"
    let known = bytes_eq name (codes "fs_ll_setxattr_name")
    let same = length exp_val == size && bytes_eq (take size value) exp_val
    if known && same then reply (err 0) else reply (err enotsup)

  unfoldable pub fs_fuse_getxattr : ℕ → (name : Bytes) → M (Fs H) (Unit {0})
  unfolding file_of
  fs_fuse_getxattr ino name = do
    file_of ino
    let known = bytes_eq name (codes "fs_ll_getxattr_name")
    if known then reply (buf (codes "fs_ll_getxattr_value")) else reply (err enotsup)

  unfoldable pub fs_fuse_removexattr : ℕ → (name : Bytes) → M (Fs H) (Unit {0})
  unfolding file_of
  fs_fuse_removexattr ino name = do
    file_of ino
    let known = bytes_eq name (codes "fs_ll_removexattr_name")
    if known then reply (err 0) else reply (err enotsup)
