-- ===== src/Fs/Tests.antt =====
-- A run of the file system from its creation to its end.
mod State
mod Inodes
mod Create
mod Removal
use symbi_os.Base.{◌≡◌, refl, Option, false, ℕ, true, none, some, [], codes}
use symbi_os.Base.Machine.{done, Run, M, ◌>>=◌, ◌>>◌, get, pure}
use symbi_os.Uthash.Assoc.{assoc_hashes, add_found}
use symbi_os.Fs.{Fs, ino_desc, root_ino}
use symbi_os.Fs.Inode.{inoalloc, inofree, link_entries}
use symbi_os.Fs.Dir.{fs_createdir, fs_createfile, new_inode, file_init}
use symbi_os.Fs.Remove.{fs_removeitem, holds_items, container, remove_alone, unlist, release}
use symbi_os.Fs.Fuse.{fs_fuse_lookup}
use symbi_os.Fs.Ops.{decimal_from}
use symbi_os.Fs.Mount.{MountEnv, fs_init, fs_create, fs_cleanup, kldfs_create}

abbrev start : Fs assoc_hashes
start = record {
  has_table = false;
  ino_table = λ _. ino_desc none none;
  ino_freelist = none;
  ino_num = 0;
  ino_numfree = 0;
  heap = λ _. none;
  mntpt = none;
  mkdir = false;
  session = false;
  fuse_fd = none;
  replies = [];
}

abbrev answers : MountEnv
answers = record { mkdir_ok = true; session_ok = true; mount_ok = true; fd = some 7 }

-- The file system of kld is created, asked for its file, and taken down.
session : M (Fs assoc_hashes) (ℕ × ℕ)
session = do
  fs_init true (codes "libk") none
  fs_create answers 100 (some (kldfs_create 200))
  fs_fuse_lookup 4321 root_ino (codes "libkernel.so")
  s ← get
  fs_cleanup
  t ← get
  pure (s.ino_numfree, t.ino_num)

abbrev value : {S A : Type 0} → Run S A → Option A
value (done a s) = some a
value _ = none

session_value : value (session start) ≡ some (253, 0)
unfolding session fs_init fs_create kldfs_create fs_fuse_lookup fs_cleanup fs_createdir
    fs_createfile inoalloc inofree link_entries new_inode file_init fs_removeitem holds_items
    container remove_alone unlist release decimal_from add_found
session_value = refl
