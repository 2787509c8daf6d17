-- ===== src/Fs/Dir.antt =====
-- Files and directories of fs.c: `file_init`, `dir_add`, `fsCreatedir`, `fsCreatefile`. The address
-- that `malloc` returns is an argument, `fresh`.
pub mod Create
use symbi_os.Base.{
  ℕ, Bool, true, false, not, ◌&&◌, Option, none, some, ◌==◌, if◌then◌else◌, is_some, Bytes,
}
use symbi_os.Base.Machine.{M, done, fault, pure, ◌>>=◌, ◌>>◌, assert, deref}
use symbi_os.Uthash.{Hashes}
use symbi_os.Fs.{
  invalid_ino, FileType, regular, symlink, directory, FileOps, FsDir, FileData, no_data, link,
  dir_data, FsFile, ino_desc, Fs, load_file, store_file, load_desc, store_desc,
}
use symbi_os.Fs.Inode.{inoalloc, ino2inodesc}

abbrev pub is_directory : FileType → Bool
is_directory directory = true
is_directory _ = false

abbrev pub link_type : Option Bytes → FileType
link_type none = regular
link_type (some _) = symlink

module _ {H : Hashes} where
  -- `strdup` copies the name.
  unfoldable pub file_init :
      ℕ → ℕ → FileData H → Bytes → FileType → Bool → Option FileOps → FsFile H
  file_init ino dir content name type malloced ops = record {
    ops = ops;
    content = content;
    name = some name;
    ino = ino;
    dir = dir;
    type = type;
    malloced = malloced;
  }

  -- The tables of a directory: `dd = dir->data`, dereferenced.
  abbrev pub dir_of : FileData H → M (Fs H) (FsDir H)
  dir_of (dir_data dd) s = done dd s
  dir_of _ _ = fault

  abbrev pub has_data : FileData H → Bool
  has_data no_data = false
  has_data _ = true

  -- The tests and the insertions of `dir_add`, for an item with a name.
  unfoldable pub dir_insert : ℕ → FsFile H → FsDir H → ℕ → FsFile H → Bytes → M (Fs H) Bool
  dir_insert dir d dd item f name =
      if is_some (H.ino.find f.ino dd.ino_files)
      then pure false
      else if is_some (H.name.find name dd.nm_files)
      then pure false
      else do
        store_file dir (
            some (record d {
              content = dir_data (record {
                ino_files = H.ino.add f.ino item dd.ino_files;
                nm_files = H.name.add name item dd.nm_files;
              });
            }))
        pure true

  unfoldable pub dir_add_named :
      ℕ → FsFile H → FsDir H → ℕ → FsFile H → Option Bytes → M (Fs H) Bool
  unfolding dir_insert
  dir_add_named dir d dd item f none = pure false
  dir_add_named dir d dd item f (some name) = dir_insert dir d dd item f name

  unfoldable pub dir_add : ℕ → ℕ → M (Fs H) Bool
  unfolding dir_add_named
  dir_add dir item = do
    d ← load_file dir
    assert (is_directory d.type && has_data d.content)
    dd ← dir_of d.content
    f ← load_file item
    dir_add_named dir d dd item f f.name

  -- The directory behind an inode number, with the assertions on it.
  unfoldable pub parent_dir : ℕ → M (Fs H) ℕ
  unfolding ino2inodesc
  parent_dir ino = do
    i ← ino2inodesc ino
    d ← load_desc i
    assert (not (is_some d.next))
    p ← deref d.file
    f ← load_file p
    assert (is_directory f.type)
    pure p

  -- `dir_add` where there is a parent; its result is not used
  unfoldable pub add_to_parent : Option ℕ → ℕ → M (Fs H) (Unit {0})
  add_to_parent none item = pure tt
  add_to_parent (some p) item = do dir_add p item; pure tt

  unfoldable pub optional_parent : ℕ → M (Fs H) (Option ℕ)
  optional_parent ino =
      if ino == invalid_ino then pure none else do p ← parent_dir ino; pure (some p)

  -- A new descriptor: both its pointers are `NULL`.
  unfoldable pub new_inode : M (Fs H) ℕ
  unfolding ino2inodesc
  new_inode = do
    ino ← inoalloc
    i ← ino2inodesc ino
    d ← load_desc i
    assert (not (is_some d.file) && not (is_some d.next))
    pure ino

  -- `id->file = file`
  unfoldable pub set_file : ℕ → ℕ → M (Fs H) (Unit {0})
  set_file i p = do d ← load_desc i; store_desc i (ino_desc (some p) d.next)

  unfoldable pub fs_createdir : (fresh : ℕ) → ℕ → Bytes → Option FileOps → M (Fs H) ℕ
  unfolding optional_parent parent_dir add_to_parent dir_add set_file
  fs_createdir fresh parentino name ops = do
    ino ← new_inode
    parent ← optional_parent parentino
    let empty_dir = dir_data (record { ino_files = H.ino.empty; nm_files = H.name.empty })
    store_file fresh (some (file_init ino parentino empty_dir name directory true ops))
    add_to_parent parent fresh
    set_file ino fresh
    pure fresh

  abbrev pub link_data : Option Bytes → FileData H
  link_data none = no_data
  link_data (some target) = link target

  unfoldable pub fs_createfile :
      (fresh : ℕ) → ℕ → Bytes → (target : Option Bytes) → Option FileOps → M (Fs H) ℕ
  unfolding parent_dir dir_add set_file
  fs_createfile fresh dirino name target ops = do
    ino ← new_inode
    assert (not (dirino == invalid_ino))
    dir ← parent_dir dirino
    store_file fresh
        (some (file_init ino dirino (link_data target) name (link_type target) true ops))
    dir_add dir fresh
    set_file ino fresh
    pure fresh
