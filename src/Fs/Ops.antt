-- ===== src/Fs/Ops.antt =====
-- The file operations: `fs_dir_ops` of fs.c and `fs_libkernel_ops` of kldfs.c, and the two helpers
-- of fs.c that send data to the kernel. `pid` is `GBLS.pid`.
use symbi_os.Base.{
  ℕ, zero, suc, ◌+◌, ◌-◌, ◌/◌, ◌%◌, ◌≡◌, Bool, true, Option, none, some, List, [], ◌∷◌, ◌++◌, ◌==◌,
  ltb, if◌then◌else◌, Bytes, codes,
}
use symbi_os.Base.Machine.{M, pure, ◌>>=◌, ◌>>◌, get, put, deref}
use symbi_os.Base.Lists.{length, take, drop}
use symbi_os.Uthash.{Hashes}
use symbi_os.Fs.{FileOps, fs_dir_ops, fs_libkernel_ops, Stat, Reply, buf, FsFile, Fs, load_file}
use symbi_os.Fs.Dir.{dir_of}

-- `snprintf(…, "%jd", n)` of a number that is not negative; the fuel is above the digits.
unfoldable pub decimal_from : ℕ → ℕ → Bytes → Bytes
decimal_from zero n acc = acc
decimal_from (suc k) n acc =
    let digits = (b'0' + n % 10) ∷ acc in
    let rest = decimal_from k (n / 10) digits in if n / 10 == 0 then digits else rest

abbrev pub decimal : ℕ → Bytes
decimal n = decimal_from (suc n) n []

-- What the code uses of libfuse: `fuse_add_direntry` tells how long an entry is, and writes it.
pub record FuseLib : Type 0 where
  pub direntry_size : Bytes → ℕ
  pub direntry : (name : Bytes) (ino off : ℕ) → Bytes
  pub length-direntry :
      (name : Bytes) (ino off : ℕ) → length (direntry name ino off) ≡ direntry_size name

abbrev pub min_size : ℕ → ℕ → ℕ
min_size x y = if ltb x y then x else y

-- The buffer grows by one entry, which holds the offset behind it.
unfoldable pub dirbuf_add : FuseLib → Bytes → Bytes → ℕ → Bytes
dirbuf_add L b name ino = b ++ L.direntry name ino (length b + L.direntry_size name)

module _ {H : Hashes} where
  abbrev pub reply : Reply → M (Fs H) (Unit {0})
  reply r = do s ← get; put (record s { replies = s.replies ++ r ∷ [] })

  -- `off` is compared as an unsigned number.
  unfoldable pub fs_fuse_reply_buf_limited : Bytes → (bufsize off maxsize : ℕ) → M (Fs H) (Unit {0})
  fs_fuse_reply_buf_limited b bufsize off maxsize =
      if ltb off bufsize
      then reply (buf (take (min_size (bufsize - off) maxsize) (drop off b)))
      else reply (buf [])

  unfoldable pub fs_dir_stat : FsFile H → Stat → Stat
  fs_dir_stat f st = record st { st_mode = 0o40755; st_nlink = 2 }

  unfoldable pub fs_libkernel_stat : (pid : ℕ) → FsFile H → Stat → Stat
  fs_libkernel_stat pid f st = record {
    st_ino = f.ino;
    st_mode = 0o100444;
    st_nlink = 1;
    st_size = length (decimal pid);
  }

  unfoldable pub fs_libkernel_read : (pid : ℕ) → (size off : ℕ) → M (Fs H) Bool
  unfolding fs_fuse_reply_buf_limited
  fs_libkernel_read pid size off = do
    fs_fuse_reply_buf_limited (decimal pid) (length (decimal pid)) off size
    pure true

  module _ (L : FuseLib) where
    -- `HASH_ITER` over the items of the directory
    unfoldable pub dirbuf_add_items : List ℕ → Bytes → M (Fs H) Bytes
    unfolding dirbuf_add
    dirbuf_add_items [] b = pure b
    dirbuf_add_items (q ∷ qs) b = do
      f ← load_file q
      name ← deref f.name
      dirbuf_add_items qs (dirbuf_add L b name f.ino)

    unfoldable pub fs_dir_readdir : FsFile H → (size off : ℕ) → M (Fs H) Bool
    unfolding dirbuf_add dirbuf_add_items fs_fuse_reply_buf_limited
    fs_dir_readdir d size off = do
      let dots = dirbuf_add L (dirbuf_add L [] (codes ".") d.ino) (codes "..") d.dir
      dd ← dir_of d.content
      b ← dirbuf_add_items (H.ino.items dd.ino_files) dots
      fs_fuse_reply_buf_limited b (length b) off size
      pure true

  -- The entries of the two tables; `none` is a `NULL` entry.
  abbrev pub op_stat : (pid : ℕ) → FileOps → FsFile H → Stat → Stat
  op_stat pid fs_dir_ops = fs_dir_stat
  op_stat pid fs_libkernel_ops = fs_libkernel_stat pid

  abbrev pub op_open : FileOps → Option (FsFile H → M (Fs H) Bool)
  op_open fs_dir_ops = none
  op_open fs_libkernel_ops = none

  abbrev pub op_read : (pid : ℕ) → FileOps → Option (ℕ → ℕ → M (Fs H) Bool)
  op_read pid fs_dir_ops = none
  op_read pid fs_libkernel_ops = some (fs_libkernel_read pid)

  abbrev pub op_readdir : FuseLib → FileOps → Option (FsFile H → ℕ → ℕ → M (Fs H) Bool)
  op_readdir L fs_dir_ops = some (fs_dir_readdir L)
  op_readdir L fs_libkernel_ops = none
