-- ===== src/Fs.antt =====
-- The synthetic file system of kld (examples/tools/src/kld/fs.h, fs.c): its objects. Memory that
-- `malloc` returns is an address of `heap`, and `none` there is memory that is free. A pointer that
-- may be `NULL` is an `Option`, and a pointer into the inode table is an index of it.
pub mod Inode
pub mod Dir
pub mod Remove
pub mod Ops
pub mod Fuse
pub mod Mount
mod Tests
use symbi_os.Base.{update, ℕ, ◌≡◌, Bool, Option, none, some, List, ◌==◌, if◌then◌else◌, Bytes}
use symbi_os.Base.Machine.{M, pure, ◌>>=◌, ◌>>◌, get, put, deref}
use symbi_os.Uthash.{Uthash, Hashes}

abbrev pub invalid_ino : ℕ
invalid_ino = 0

abbrev pub root_ino : ℕ
root_ino = 1

-- `fs_filetype_t`
pub data FileType : Type 0 where
  no_type regular symlink directory : FileType

-- The two tables of file operations that the program has.
pub data FileOps : Type 0 where
  fs_dir_ops fs_libkernel_ops : FileOps

-- `struct stat`
pub record Stat : Type 0 where
  pub st_ino : ℕ
  pub st_mode : ℕ
  pub st_nlink : ℕ
  pub st_size : ℕ

-- What is sent back to the kernel for a request.
pub data Reply : Type 0 where
  err : ℕ → Reply
  entry : ℕ → Stat → Reply
  attr : Stat → Reply
  buf : Bytes → Reply
  open_file : Reply

-- `fs_dir_t`
pub record FsDir (H : Hashes) : Type 0 where
  pub ino_files : H.ino.Table
  pub nm_files : H.name.Table

-- What the field `data` of a file points to.
pub data FileData (H : Hashes) : Type 0 where
  no_data : FileData H
  link : Bytes → FileData H
  dir_data : FsDir H → FileData H

-- `struct fs_filedesc`
pub record FsFile (H : Hashes) : Type 0 where
  pub ops : Option FileOps
  pub content : FileData H
  pub name : Option Bytes
  pub ino : ℕ
  pub dir : ℕ
  pub type : FileType
  pub malloced : Bool

-- `fs_inodesc_t`
pub record InoDesc : Type 0 where
  pub file : Option ℕ
  pub next : Option ℕ

abbrev pub ino_desc : Option ℕ → Option ℕ → InoDesc
ino_desc f n = record { file = f; next = n }

-- `fs_t`, with the files in memory, the replies sent and the mount point made. `has_table` says
-- that `ino_table` is not `NULL`; `session` says that `fuse_se` is not `NULL` and mounted.
pub record Fs (H : Hashes) : Type 0 where
  pub has_table : Bool
  pub ino_table : ℕ → InoDesc
  pub ino_freelist : Option ℕ
  pub ino_num : ℕ
  pub ino_numfree : ℕ
  pub heap : ℕ → Option (FsFile H)
  pub mntpt : Option Bytes
  pub mkdir : Bool
  pub session : Bool
  pub fuse_fd : Option ℕ
  pub replies : List Reply

module _ {H : Hashes} where
  -- `*p` for a file, and the write through `p`
  abbrev pub load_file : ℕ → M (Fs H) (FsFile H)
  load_file p = do s ← get; deref (s.heap p)

  abbrev pub store_file : ℕ → Option (FsFile H) → M (Fs H) (Unit {0})
  store_file p f = do s ← get; put (record s { heap = update s.heap p f })

  -- `this->ino_table[i]`, and the write to it
  abbrev pub load_desc : ℕ → M (Fs H) InoDesc
  load_desc i = do s ← get; pure (s.ino_table i)

  abbrev pub store_desc : ℕ → InoDesc → M (Fs H) (Unit {0})
  store_desc i d = do s ← get; put (record s { ino_table = update s.ino_table i d })
