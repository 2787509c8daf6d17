-- ===== src/Fs/Mount.antt =====
-- `fsInit`, `fsCreate` and `fsCleanup` of fs.c, and `kldfsCreate` of kldfs.c. What the kernel and
-- libfuse answer comes as arguments; `malloc`'s addresses too.
use symbi_os.Base.{
  ℕ, zero, suc, ◌+◌, ◌-◌, Bool, true, false, ◌&&◌, Option, none, some, ◌∷◌, ◌++◌, ◌==◌, ltb,
  if◌then◌else◌, is_some, not, Bytes, codes,
}
use symbi_os.Base.Machine.{M, exit, pure, ◌>>=◌, ◌>>◌, get, put, assert}
use symbi_os.Base.Lists.{length}
use symbi_os.Uthash.{Hashes}
use symbi_os.Fs.{invalid_ino, root_ino, fs_dir_ops, fs_libkernel_ops, Fs, load_file, load_desc}
use symbi_os.Fs.Inode.{inoalloc, inofree}
use symbi_os.Fs.Dir.{fs_createdir, fs_createfile}
use symbi_os.Fs.Remove.{fs_removeitem}

-- `snprintf(mntpt, n, …)`: `none` where the text and its null byte do not fit in `n` bytes
unfoldable pub fs_mount_point : (n : ℕ) → (fsname : Bytes) → Option Bytes → Option Bytes
fs_mount_point n fsname (some dir) =
    let path = dir ++ (b'/' ∷ fsname) in if ltb (length path) n then some path else none
fs_mount_point n fsname none = if ltb (length fsname) n then some fsname else none

-- `sizeof(tmp)`, where `tmp` is a pointer
abbrev pub sizeof_tmp : ℕ
sizeof_tmp = 8

-- What `mkdir`, `fuse_session_new`, `fuse_session_mount` and `fuse_session_fd` answer.
pub record MountEnv : Type 0 where
  pub mkdir_ok : Bool
  pub session_ok : Bool
  pub mount_ok : Bool
  pub fd : Option ℕ

module _ {H : Hashes} where
  abbrev pub cleared : Fs H → Option Bytes → Fs H
  cleared s mntpt = record s {
    has_table = false;
    ino_freelist = none;
    ino_num = 0;
    ino_numfree = 0;
    mntpt = mntpt;
    mkdir = false;
    session = false;
    fuse_fd = none;
  }

  unfoldable pub set_mount : Option Bytes → M (Fs H) Bool
  set_mount none = exit 1
  set_mount (some path) = do s ← get; put (record s { mntpt = some path }); pure true

  unfoldable pub fs_init : (initmntpt : Bool) → (fsname : Bytes) → Option Bytes → M (Fs H) Bool
  unfolding fs_mount_point set_mount
  fs_init initmntpt fsname dir = do
    s ← get
    put (cleared s none)
    if initmntpt then set_mount (fs_mount_point sizeof_tmp fsname dir) else pure true

  unfoldable pub mount_session : MountEnv → M (Fs H) Bool
  mount_session env = do
    assert env.session_ok
    s ← get
    put (record s { session = true })
    if not env.mount_ok
        then pure false
        else do t ← get; put (record t { fuse_fd = env.fd }); assert (is_some env.fd); pure true

  unfoldable pub fs_create :
      MountEnv → (fresh : ℕ) → Option (ℕ → M (Fs H) (Unit {0})) → M (Fs H) Bool
  unfolding mount_session
  fs_create env fresh createfsfunc = if not env.mkdir_ok then pure false else do
    s ← get
    put (record s { mkdir = true })
    ino ← inoalloc
    assert (ino == invalid_ino)
    root ← fs_createdir fresh invalid_ino (codes ".") (some fs_dir_ops)
    f ← load_file root
    assert (f.ino == root_ino)
    elim createfsfunc [ none ↦ pure tt | some create ↦ create f.ino ]
    mount_session env

  unfoldable pub kldfs_create : (fresh : ℕ) → ℕ → M (Fs H) (Unit {0})
  kldfs_create fresh rootino = do
    item ← fs_createfile fresh rootino (codes "libkernel.so") none (some fs_libkernel_ops)
    pure tt

  -- One round of the scan of `fsCleanup`; counts the removed items.
  unfoldable pub scan_one : (depth i removed : ℕ) → M (Fs H) ℕ
  scan_one depth i removed = do
    d ← load_desc i
    elim d.file [
      | none ↦ pure removed
      | some p ↦ do assert (not (is_some d.next)); fs_removeitem depth p true; pure (removed + 1)
    ]

  -- `for (i = 0; i < ino_num; i++)`, from `i` with `n` rounds left
  unfoldable pub scan : (n depth i removed : ℕ) → M (Fs H) ℕ
  unfolding scan_one
  scan zero depth i removed = pure removed
  scan (suc n) depth i removed = do
    removed' ← scan_one depth i removed
    scan n depth (i + 1) removed'

  unfoldable pub free_inotable : M (Fs H) (Unit {0})
  unfolding scan
  free_inotable = do
    s ← get
    let allocated = s.ino_num - s.ino_numfree
    assert (not (s.ino_num == 0))
    removed ← scan s.ino_num s.ino_num 0 0
    inofree invalid_ino
    assert (removed + 1 == allocated)
    t ← get
    assert (t.ino_num == t.ino_numfree)
    put (record t { has_table = false; ino_num = 0; ino_freelist = none; ino_numfree = 0 })

  unfoldable pub fs_cleanup : M (Fs H) Bool
  unfolding free_inotable
  fs_cleanup = do
    s ← get
    if not (is_some s.mntpt && s.mkdir) then pure true else do
      put (record s { session = false; mntpt = none })
      if s.has_table then free_inotable else pure tt
      pure true
