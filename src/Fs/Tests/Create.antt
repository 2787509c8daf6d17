-- ===== src/Fs/Tests/Create.antt =====
-- Instances of the theorems on `fsCreatefile`.
use symbi_os.Base.{ℕ, ◌≡◌, refl, ◌≢◌, true, none, some, [], ◌∷◌, arith, Bytes}
use symbi_os.Base.Machine.{done, abort}
use symbi_os.Uthash.Assoc.{assoc_hashes, add_found}
use symbi_os.Fs.{FileOps, FsDir, FsFile, Fs, err, entry, fs_libkernel_ops}
use symbi_os.Fs.Inode.Chain.{IsTable}
use symbi_os.Fs.Dir.{fs_createfile}
use symbi_os.Fs.Dir.Create.{IsDirAt, new_file}
use symbi_os.Fs.Ops.{op_stat}
use symbi_os.Fs.Fuse.{enoent, zero_stat, fs_fuse_lookup}
use symbi_os.Fs.Fuse.Lookup.{replied}
use symbi_os.Fs.Fuse.AfterCreate.{lookup-createfile, fs_createfile_duplicate}
use symbi_os.Fs.Remove.{fs_removeitem}
use symbi_os.Fs.Tests.State.{
  lib_name, no_items, empty_root, empty_root-IsTable, empty_root-IsDirAt, root_and_file,
  root_and_file-IsTable, root_and_file-IsDirAt,
}

lookup-createfile_example :
    (s' : Fs assoc_hashes) × (fs_createfile 200 1 lib_name none (some fs_libkernel_ops) empty_root
      ≡ done 200 s')
    × IsTable s' (3 ∷ [])
    × ((d' : FsFile assoc_hashes) × (dd' : FsDir assoc_hashes) × IsDirAt s' 1 100 d' dd'
        × ((other : Bytes)
            → other ≢ lib_name
            → assoc_hashes.name.find other dd'.nm_files
              ≡ assoc_hashes.name.find other no_items.nm_files)
        × ((j : ℕ)
            → j ≢ 2
            → assoc_hashes.ino.find j dd'.ino_files ≡ assoc_hashes.ino.find j no_items.ino_files))
    × (fs_fuse_lookup 4321 1 lib_name s'
        ≡ done tt (
            replied s' (
              entry 2 (
                op_stat {H = assoc_hashes} 4321 fs_libkernel_ops
                  (new_file 2 1 lib_name none (some fs_libkernel_ops))
                  zero_stat))))
    × ((other : Bytes)
        → other ≢ lib_name
        → assoc_hashes.name.find other no_items.nm_files ≡ none
        → fs_fuse_lookup 4321 1 other s' ≡ done tt (replied s' (err enoent)))
    × ((other : Bytes) (q : ℕ) (f : FsFile assoc_hashes) (o' : FileOps)
        → other ≢ lib_name
        → assoc_hashes.name.find other no_items.nm_files ≡ some q
        → q ≢ 100
        → empty_root.heap q ≡ some f
        → f.ops ≡ some o'
        → fs_fuse_lookup 4321 1 other s'
          ≡ done tt (replied s' (entry f.ino (op_stat 4321 o' f zero_stat))))
    × ((q : ℕ) → q ≢ 200 → q ≢ 100 → s'.heap q ≡ empty_root.heap q)
lookup-createfile_example =
    lookup-createfile empty_root empty_root-IsTable refl lib_name none fs_libkernel_ops
      empty_root-IsDirAt refl (omega arith) 4321 refl refl

-- The second file of that name.
fs_createfile_duplicate_example :
    (s' : Fs assoc_hashes) × (fs_createfile 300 1 lib_name none
        (some fs_libkernel_ops)
        root_and_file
      ≡ done 300 s')
    × IsTable s' []
    × (s'.heap 100 ≡ root_and_file.heap 100)
    × (fs_removeitem 1 300 true s' ≡ abort)
unfolding add_found
fs_createfile_duplicate_example =
    fs_createfile_duplicate root_and_file root_and_file-IsTable refl lib_name none fs_libkernel_ops
      root_and_file-IsDirAt refl (omega arith) 0 true refl refl (omega arith)
