-- ===== src/Fs/Tests/State.antt =====
-- The states at which the theorems on the file system are applied: the root directory at address
-- 100 with inode 1, empty or with the file "libkernel.so" at 200 with inode 2.
use symbi_os.Base.{
  ℕ, refl, true, false, none, some, [], ◌∷◌, arith, ◌==◌, if◌then◌else◌, Bytes, codes,
}
use symbi_os.Uthash.Assoc.{assoc_hashes, add_found}
use symbi_os.Fs.{
  Fs, FsDir, FsFile, InoDesc, ino_desc, dir_data, no_data, directory, regular, fs_dir_ops,
  fs_libkernel_ops,
}
use symbi_os.Fs.Inode.Chain.{IsTable, end, more}
use symbi_os.Fs.Dir.Create.{IsDirAt}
use symbi_os.Fs.Remove.File.{IsListed}

abbrev pub lib_name : Bytes
lib_name = codes "libkernel.so"

abbrev pub no_items : FsDir assoc_hashes
no_items = record { ino_files = assoc_hashes.ino.empty; nm_files = assoc_hashes.name.empty }

abbrev pub one_item : FsDir assoc_hashes
one_item = record {
  ino_files = assoc_hashes.ino.add 2 200 assoc_hashes.ino.empty;
  nm_files = assoc_hashes.name.add lib_name 200 assoc_hashes.name.empty;
}

abbrev pub root_with : FsDir assoc_hashes → FsFile assoc_hashes
root_with dd = record {
  ops = some fs_dir_ops;
  content = dir_data dd;
  name = some (codes "root");
  ino = 1;
  dir = 0;
  type = directory;
  malloced = true;
}

abbrev pub lib_file : FsFile assoc_hashes
lib_file = record {
  ops = some fs_libkernel_ops;
  content = no_data;
  name = some lib_name;
  ino = 2;
  dir = 1;
  type = regular;
  malloced = true;
}

-- Inode 1 is the root's, inode 2 is as given, and inode 3 is free and the last of the list.
abbrev table_with : InoDesc → ℕ → InoDesc
table_with two i =
    if i == 1 then ino_desc (some 100) none else if i == 2 then two else ino_desc none none

-- Inodes 2 and 3 are free.
abbrev pub empty_root : Fs assoc_hashes
empty_root = record {
  has_table = true;
  ino_table = table_with (ino_desc none (some 3));
  ino_freelist = some 2;
  ino_num = 256;
  ino_numfree = 2;
  heap = λ p. if p == 100 then some (root_with no_items) else none;
  mntpt = none;
  mkdir = false;
  session = false;
  fuse_fd = none;
  replies = [];
}

-- Inode 3 is free.
abbrev pub root_and_file : Fs assoc_hashes
root_and_file = record {
  has_table = true;
  ino_table = table_with (ino_desc (some 200) none);
  ino_freelist = some 3;
  ino_num = 256;
  ino_numfree = 1;
  heap =
      λ p. if p == 100 then some (root_with one_item) else if p == 200 then some lib_file else none;
  mntpt = none;
  mkdir = false;
  session = false;
  fuse_fd = none;
  replies = [];
}

pub empty_root-IsTable : IsTable empty_root (2 ∷ 3 ∷ [])
empty_root-IsTable = record {
  made = refl;
  size = refl;
  chain = more (some 3) (omega arith) refl refl (more none (omega arith) refl refl end);
  count = refl;
  taken = λ i lt out. ground arith;
}

pub root_and_file-IsTable : IsTable root_and_file (3 ∷ [])
root_and_file-IsTable = record {
  made = refl;
  size = refl;
  chain = more none (omega arith) refl refl end;
  count = refl;
  taken = λ i lt out. ground arith;
}

-- All descriptors are in use, none with a file.
abbrev pub full_table : Fs assoc_hashes
full_table = record empty_root {
  ino_table = λ _. ino_desc none none;
  ino_freelist = none;
  ino_numfree = 0;
}

pub full_table-IsTable : IsTable full_table []
full_table-IsTable = record {
  made = refl;
  size = refl;
  chain = end;
  count = refl;
  taken = λ i lt out. refl;
}

pub empty_root-IsDirAt : IsDirAt empty_root 1 100 (root_with no_items) no_items
empty_root-IsDirAt = record {
  valid = omega arith;
  below = omega arith;
  desc_file = refl;
  desc_next = refl;
  loaded = refl;
  type = refl;
  content = refl;
}

pub root_and_file-IsDirAt : IsDirAt root_and_file 1 100 (root_with one_item) one_item
root_and_file-IsDirAt = record {
  valid = omega arith;
  below = omega arith;
  desc_file = refl;
  desc_next = refl;
  loaded = refl;
  type = refl;
  content = refl;
}

pub lib_file-IsListed : IsListed root_and_file 200 100 lib_file one_item lib_name
unfolding add_found
lib_file-IsListed = record {
  loaded = refl;
  named = refl;
  is_file = refl;
  not_root = omega arith;
  malloced = refl;
  apart = omega arith;
  by_ino = refl;
  by_name = refl;
  counts = refl;
}
